-- ===== src/Gateway/State.antt =====
-- internal/gateway: the state of the process. A pointer to a session is its `UID`, which `AllocUID`
-- gives out once; a pointer to a room is a handle, the number of rooms made before it.
use lurkspire.Prelude.{ℕ, List, [], Option, none, Bool, false}
use lurkspire.Store.Users.Catalogue.{Text}
use lurkspire.Store.Interface.{Store}
use lurkspire.Lobby.{Crypto}
use lurkspire.Room.Float.{FloatOps}
use lurkspire.Room.Player.{Config}
use lurkspire.Room.State.{Room}

-- What the hub and its parts are made with.
pub record Env (S : Type 0) : Type 0 where
  pub store : Store S
  pub crypto : Crypto
  pub secret : List ℕ
  pub ops : FloatOps
  pub cfg : Config

-- `write_q` is the channel `writeCh`, the oldest frame first.
pub record Session : Type 0 where
  pub uid : ℕ
  pub room : Option ℕ
  pub login_uid : ℕ
  pub nickname : Text
  pub logged_in : Bool
  pub write_q : List (List ℕ)
  pub closed : Bool
  pub last_active : ℕ

-- `RoomMeta`
pub record RoomMeta : Type 0 where
  pub name : Text
  pub creator : ℕ
  pub note : Text

-- The hub, the room manager, the registry and the server, and the rooms and sessions that their
-- pointers lead to. `cleanups` are the goroutines that an empty room has started and that have not
-- run yet.
pub record World (S : Type 0) : Type 0 where
  pub seq : ℕ
  pub manager : List (Text × ℕ)
  pub rooms : List (ℕ × Room)
  pub next_room : ℕ
  pub room_sessions : List (ℕ × List ℕ)
  pub online : List (ℕ × ℕ)
  pub metas : List (Text × RoomMeta)
  pub sessions : List (ℕ × Session)
  pub served : List (ℕ × ℕ)
  pub server_closed : Bool
  pub cleanups : List (ℕ × Text)
  pub store : S

abbrev pub new_world : {S : Type 0} → S → World S
new_world s = record {
  seq = 0;
  manager = [];
  rooms = [];
  next_room = 0;
  room_sessions = [];
  online = [];
  metas = [];
  sessions = [];
  served = [];
  server_closed = false;
  cleanups = [];
  store = s;
}

-- `NewSession`
abbrev pub new_session : ℕ → ℕ → Session
new_session uid now = record {
  uid = uid;
  room = none;
  login_uid = 0;
  nickname = [];
  logged_in = false;
  write_q = [];
  closed = false;
  last_active = now;
}
