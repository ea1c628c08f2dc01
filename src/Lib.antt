-- ===== src/Lib.antt =====
-- Lurkspire: the game server, from the bytes of a connection to the battle.
--
-- The server (internal/gateway) reads binary frames from its connections (internal/protocol), logs
-- players in (internal/lobby over internal/store), keeps their friends and the list of rooms, and
-- hands the reports of players in battle to rooms (internal/room). A room is one goroutine: it takes
-- messages from its channels, one at a time, and pushes what it decides to the gateway's callbacks,
-- which send it to the sessions of the room.
--
-- Parts, and where they are modelled:
--   Prelude        bytes, Go's maps as association lists, lists and tests on numbers.
--   Protocol.Frame internal/protocol/frame.go: `Encode`, `FrameReader.Next`, and the read loop of
--                  `Session.Serve` in internal/gateway/session.go. A connection is the list of the
--                  bytes that it still delivers; io.ReadFull is modelled by its documented results.
--   Protocol.Text, Protocol.Battle, Protocol.Lobby, Protocol.Numbers, Protocol.Items
--                  internal/protocol/battle.go, lobby.go and msgid.go: every encoder and decoder,
--                  the numbers, the built-in catalogue. `make`, `copy` and the accesses of
--                  encoding/binary keep their offsets. A text is the list of its bytes, a float32
--                  its bit pattern, an int8 its byte. A slice expression past the end, in the two
--                  list decoders, is a result of its own.
--   Room.Float     float32 arithmetic and package math, as a parameter of everything that uses them.
--   Room.Player, Room.MapData, Room.State
--                  the records of room.go, spawnpoints.go and mapdata.go. A goroutine's channels
--                  are one type of messages, `Msg`; its replies and calls of the two callbacks are
--                  values of `Out`. `*Player` is shared by the room and its `Combat`: both are one
--                  table here, which the operations read by id and write back.
--   Room.Validation  validation.go: `CheckMove`, `MarkViolation`, `IsSuspicious`, `ApplyInput`.
--   Room.Geometry, Room.Hit, Room.Weapons, Room.Upkeep
--                  combat.go: rays, `hit`, the four weapons, `TickCombat`.
--   Room.Roster, Room.Broadcast, Room.Loop
--                  room.go: `addPlayer`, `tickOfflinePlayers`, `applyEquip`, `broadcastTick`,
--                  `handleInputMsg` and the cases of `loop`. `step` is one round of the loop, `run`
--                  the goroutine over any list of messages.
--   Store.Users, Store.Friends
--                  internal/store/store.go: `MemStore`. Its three maps of users share pointers, so
--                  the users are cells of a list and the maps lead to places in it. Its lock makes
--                  every operation one step; a key that `fkey` prints is the pair of its ids.
--                  Store.Users.Table is the specification: one table of rows.
--   Store.Mysql    `MySQLStore` of the same file: every statement is a value, and what database/sql
--                  answers is the record `Database`. Store.Mysql.Meaning states what the theorems
--                  suppose of the server, which is reached and in strict mode: what the statements
--                  mean for the tables of db/schema.sql, when their values are texts of the
--                  character set and fit in the columns; what it does with others is left open.
--                  The character set and its collation are the record `Charset`.
--                  Store.Interface.Run has runs of calls on any store, Store.Mysql.Agrees the
--                  calls that the theorem on both stores is about.
--   Store.Interface  the interface `Store`: a record of its operations over a state, with `MemStore`
--                  as an instance. Store.Interface.Laws says what the lobby relies on.
--   Lobby          internal/lobby/service.go over any `Store`: registration, login, tokens, names,
--                  equipment, and the calls that pass on to the store. bcrypt,
--                  HMAC-SHA256 and base64 are the record `Crypto`, their documented laws `IsCrypto`.
--   Gateway.State  the state of the process: hub, room manager, registry, server, and the rooms and
--                  sessions that their pointers lead to. A pointer to a session is its `UID`, a
--                  pointer to a room the number of rooms made before it.
--   Gateway.Send, Gateway.Registry, Gateway.Presence, Gateway.Battle, Gateway.Friends, Gateway.Bag
--                  internal/gateway/hub.go and rooms.go, and `room.Manager`: one function per method,
--                  which takes the world and answers the world. `room_call` is a message to a room
--                  and one round of its loop; `route` is what the callbacks do with its pushes.
--   Gateway.Session  session.go: the handlers of frames, before and after the login.
--   Gateway.Server server.go, `Session.Serve`, `Session.Close` and `OnDisconnect`: connections that
--                  come and go, the idle watchdog, the shutdown. `Event` is what can happen next,
--                  and `run_events` the process over any list of events.
--   Process        cmd/gateway: `LoadConfig` and `main` up to the process that serves, and `OpenMySQL`
--                  of the store, over the packages that they call; the ends of `main` by log.Fatalf
--                  are results of their own.
--   Gateway.Steady, Gateway.Invariant, and the children of the modules above hold what is proved.
--
-- Orders and draws: a Go map is a list of its entries, and a loop over it visits them in that order;
-- the theorems hold of every such list. The numbers of math/rand and the salts of bcrypt are carried
-- by the messages and events, and so is the time, which a handler reads once.
--
-- Interleavings: a handler, a round of a room's loop, a round of the watchdog and a round of a
-- session's write loop run to their end before the next event. Events come in any order. The
-- goroutine that an empty room starts waits in `cleanups` until an event runs it. Between the two
-- tries of `Send` nothing comes, so the second one finds a place, and the close that follows a
-- second failure is not reached. A call of a stopped room waits for ever in the code; here it has no
-- effect and no answer. A room takes a message before the next event, so its channels are never full;
-- the code drops reports of players and notices of disconnection when they are. A write to a
-- connection does not fail; a connection that breaks is the event `ends`.
--
-- Bounds: the widths of the protocol's fields are written out, with the truncation where the code
-- truncates; so is the wrap-around of the counters of sessions and users. Counters of Go's type `int`
-- are natural numbers. The read loop runs on fuel, one more than the bytes that the connection
-- delivers: each frame takes twelve at least, so this is enough.
--
-- Not modelled: the flags and the log of `main`, `Server.Listen`, and `MySQLStore.Close`, which are
-- input and output; the server of the database, of which Store.Mysql.Meaning states what is supposed. A
-- room's stop channel is not a message: a stopped room takes no more of them. The callbacks are only
-- ever set to functions. Logs and the texts of errors, which are not sent, are left out.
pub mod Prelude
pub mod Protocol
pub mod Room
pub mod Store
pub mod Lobby
pub mod Gateway
pub mod Process
