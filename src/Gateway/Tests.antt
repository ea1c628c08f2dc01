-- ===== src/Gateway/Tests.antt =====
-- The theorems on internal/gateway with the store in memory, one user, and up to two sessions.
mod Battle
mod Friends
use lurkspire.Prelude.{
  ℕ, text_key, if◌then◌else◌, zero, suc, IsU16, ◌+◌, ◌≤◌, ◌≡◌, refl, put_at, List, [], ◌∷◌, ◌++◌,
  none, some, true, false, arith, length, lookup, nat_key, ◌&&◌, ◌||◌, ltb,
}
use mathlib.Core.Option
use lurkspire.Protocol.Frame.{Frame}
use lurkspire.Protocol.Lobby.{encode_login, encode_reconnect}
use lurkspire.Protocol.Numbers.{msg_login, msg_reconnect, msg_battle_join}
use lurkspire.Store.Users.{MemStore, new_mem_store}
use lurkspire.Store.Interface.{mem_store}
use lurkspire.Store.Interface.Laws.{IsValidStore, mem_store-IsLawful}
use lurkspire.Lobby.{is_empty_text, sign}
use lurkspire.Lobby.Tests.{
  toy_crypto, toy-IsCrypto, account, password, nick, one_user, registered, new-IsValid, token,
  accepted,
}
use lurkspire.Room.Tests.{toy, cfg}
use lurkspire.Gateway.State.{Env, Session, World, new_world, new_session}
use lurkspire.Gateway.Send.{queue_size, session_of}
use lurkspire.Gateway.Send.Queue.{enqueue_each, newest, enqueue_each-newest}
use lurkspire.Gateway.Session.{handle, handle_authed}
use lurkspire.Gateway.Session.Guest.{battle_part, handle_guest}
use lurkspire.Gateway.Server.{
  Event, accepts, receives, ends, writes, watches, room_ticks, cleans_up, shuts_down, run_events,
  served_uids, close, watch,
}
use lurkspire.Gateway.Friends.{contains_id}
use lurkspire.Gateway.Steady.{Steady, tag}
use lurkspire.Gateway.Steady.Handlers.{Steady-handle_authed}
use lurkspire.Gateway.Invariant.{IsWorld, Steady-start}
use lurkspire.Gateway.Invariant.Events.{run_events-IsWorld}
use lurkspire.Gateway.Invariant.Closed.{watch_closes, close_offline, close_twice}
use lurkspire.Gateway.Invariant.Emptied.{clean_up_decides}
use lurkspire.Gateway.Battle.{clean_up}
use lurkspire.Room.State.{new_room}
use lurkspire.Room.Roster.{is_empty}
use lurkspire.Room.Loop.Invariant.{new_room-IsRoom}
use lurkspire.Store.Users.Catalogue.{Text}
use lurkspire.Gateway.Invariant.Entered.{IsIn, reconnect_enters, registered_enters}

abbrev pub env : Env MemStore
env = record { store = mem_store; crypto = toy_crypto; secret = []; ops = toy; cfg = cfg }

abbrev login_frame : Frame
login_frame = record { msg_id = msg_login; seq = 1; body = encode_login account password }

abbrev join_frame : Frame
join_frame = record { msg_id = msg_battle_join; seq = 2; body = 114 ∷ [] }

-- Two connections log in as the same user, one enters a room, and they come to an end.
abbrev day : List Event
day =
    accepts 0
    ∷ receives 1000000000 0 1 login_frame
    ∷ receives 2000000000 0 1 join_frame
    ∷ accepts 3
    ∷ receives 3000000000 0 2 login_frame
    ∷ room_ticks 0 (λ i. 0)
    ∷ writes 1
    ∷ ends 1
    ∷ cleans_up 0
    ∷ watches 10 9000000000
    ∷ shuts_down
    ∷ []

run_events-IsWorld_example : IsWorld 11 (run_events env (new_world one_user) day)
run_events-IsWorld_example = run_events-IsWorld env one_user day (omega arith)

-- A session that nobody is logged in with.
abbrev visitor : Session
visitor = new_session 1 0

abbrev visited : World MemStore
visited = record (new_world one_user) {
  seq = 1;
  sessions = (1, visitor) ∷ [];
  served = (1, 1) ∷ [];
}

visited-IsWorld : IsWorld 1 visited
visited-IsWorld = record {
  some_sessions = omega arith;
  numbered = (omega arith, tt);
  distinct = tt;
  online = tt;
  orderly = record {
    orderly = tt;
    older = tt;
    distinct = tt;
    names = tt;
    running = tt;
    listed = tt;
    shown = tt;
  };
  queued = (omega arith, tt);
  apart = tt;
}

visitor_found : lookup 1 visited.sessions ≡ some visitor
unfolding lookup
visitor_found = refl

visitor_guest : (session_of 1 visited).logged_in ≡ false
unfolding lookup
visitor_guest = refl

handle_guest_example : battle_part (handle env 0 0 1 join_frame visited) ≡ battle_part visited
handle_guest_example = handle_guest env 0 0 1 visited join_frame visitor_guest

registered_enters_example : IsIn 1 1 (handle env 5 0 1 login_frame visited)
registered_enters_example =
    registered_enters 1 env 5 0 1 1 visited visitor visited-IsWorld visitor_found refl refl
      toy-IsCrypto IsValidStore mem_store-IsLawful 0 account password nick new_mem_store 1
      new-IsValid registered (omega arith) (omega arith) (omega arith)

-- The user is logged in with two sessions; the entry leads to the newer one.
abbrev pub older : Session
older = record visitor { login_uid = 1; nickname = nick; logged_in = true }

abbrev pub newer : Session
newer = record older { uid = 2; last_active = 9000000000 }

abbrev pub both : World MemStore
both = record (new_world one_user) {
  seq = 2;
  sessions = (1, older) ∷ (2, newer) ∷ [];
  served = (1, 1) ∷ (2, 2) ∷ [];
  online = (1, 2) ∷ [];
}

both-IsWorld : IsWorld 2 both
unfolding lookup
both-IsWorld = record {
  some_sessions = omega arith;
  numbered = (omega arith, (omega arith, tt));
  distinct = (refl, tt);
  online = (refl, tt);
  orderly = record {
    orderly = tt;
    older = tt;
    distinct = tt;
    names = tt;
    running = tt;
    listed = tt;
    shown = tt;
  };
  queued = (omega arith, (omega arith, tt));
  apart = tt;
}

pub older_found : lookup 1 both.sessions ≡ some older
unfolding lookup
older_found = refl

close_offline_example : lookup 1 (close env 1 both).online ≡ none
close_offline_example = close_offline 2 env 1 both older both-IsWorld older_found refl refl

watch_closes_example :
    Option.map tag (lookup 1 (watch env 10 9000000001 both).sessions)
    ≡ some
        (1, (true, false || (contains_id 1 (served_uids both.served) && ltb (0 + 10) 9000000001)))
watch_closes_example = watch_closes 2 env 10 9000000001 1 both older both-IsWorld older_found

token_some : is_empty_text token ≡ false
unfolding sign put_at
token_some = refl

token_small : IsU16 (length token)
unfolding sign put_at
token_small = omega arith

reconnect_enters_example : IsIn 1 1 (
    handle env 1000 0 1
      (record { msg_id = msg_reconnect; seq = 4; body = encode_reconnect token })
      visited)
reconnect_enters_example =
    reconnect_enters 1 env 1000 0 1 4 visited visitor visited-IsWorld visitor_found refl refl token
      1 token_some token_small accepted

-- Frames with the numbers below `n`.
abbrev frames : ℕ → List (List ℕ)
frames zero = []
frames (suc n) = frames n ++ ((n ∷ []) ∷ [])

-- A session with one place left in its queue.
abbrev busy : Session
busy = record visitor { write_q = frames 127 }

enqueue_each-newest_example :
    ((enqueue_each (frames 3) busy).write_q ≡ newest (frames 127 ++ frames 3))
    × (length (enqueue_each (frames 3) busy).write_q ≤ queue_size)
enqueue_each-newest_example = enqueue_each-newest (frames 3) busy refl (omega arith)

close_twice_example : close env 1 (close env 1 both) ≡ close env 1 both
close_twice_example = close_twice 2 env 1 both older both-IsWorld older_found

-- A room that nobody is in.
abbrev pub hall : Text
hall = 104 ∷ []

abbrev deserted : World MemStore
deserted = record (new_world one_user) {
  manager = (hall, 0) ∷ [];
  rooms = (0, new_room hall cfg) ∷ [];
  next_room = 1;
  metas = (hall, record { name = hall; creator = 1; note = [] }) ∷ [];
}

deserted-IsWorld : IsWorld 0 deserted
unfolding lookup new_room
deserted-IsWorld = record {
  some_sessions = omega arith;
  numbered = tt;
  distinct = tt;
  online = tt;
  orderly = record {
    orderly = (new_room-IsRoom toy hall cfg, tt);
    older = (omega arith, tt);
    distinct = (refl, tt);
    names = (refl, tt);
    running = ((new_room hall cfg, refl, refl), tt);
    listed = (refl, tt);
    shown = ((0, refl), tt);
  };
  queued = tt;
  apart = tt;
}

hall_found : lookup 0 deserted.rooms ≡ some (new_room hall cfg)
unfolding lookup
hall_found = refl

hall_named : lookup hall deserted.manager ≡ some 0
unfolding lookup
hall_named = refl

clean_up_decides_example :
    (lookup hall (clean_up env 0 hall deserted).manager
      ≡ (if is_empty (new_room hall cfg).players then none else some 0))
    × (lookup 0 (clean_up env 0 hall deserted).rooms
        ≡ (if is_empty (new_room hall cfg).players then none else some (new_room hall cfg)))
    × (lookup hall (clean_up env 0 hall deserted).metas
        ≡ (if is_empty (new_room hall cfg).players then none else lookup hall deserted.metas))
clean_up_decides_example =
    clean_up_decides 0 env 0 hall deserted (new_room hall cfg) deserted-IsWorld hall_found
      hall_named
