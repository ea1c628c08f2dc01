-- ===== src/Gateway/Registry.antt =====
-- internal/gateway/rooms.go and room.go (Manager): the rooms by name, and the list of rooms.
pub mod Running
use lurkspire.Prelude.{
  ℕ, ◌+◌, List, [], Option, none, some, Bool, true, false, map, length, lookup, insert, erase,
  nat_key, text_key,
}
use lurkspire.Store.Users.{Returned, returned, failed}
use lurkspire.Store.Users.Catalogue.{Text}
use lurkspire.Lobby.{LobbyError, nickname}
use lurkspire.Protocol.Lobby.{RoomInfo, encode_room_list}
use lurkspire.Protocol.Numbers.{msg_room_list}
use lurkspire.Room.State.{new_room}
use lurkspire.Gateway.State.{Env, RoomMeta, World}
use lurkspire.Gateway.Send.{frame, send, send_all}

abbrev pub is_some : {A : Type 0} → Option A → Bool
is_some none = false
is_some (some a) = true

-- `x, _ := f()` for a text.
abbrev pub text_or_empty : {E : Type 0} → Returned E Text → Text
text_or_empty (returned t) = t
text_or_empty (failed e) = []

abbrev pub members_or_empty : Option (List ℕ) → List ℕ
members_or_empty none = []
members_or_empty (some uids) = uids

module _ {S : Type 0} where
  -- `add`; the Boolean is what it returns.
  unfoldable pub add_meta : RoomMeta → World S → World S × Bool
  add_meta meta w = elim (lookup meta.name w.metas) [
    | some m ↦ (w, false)
    | none ↦ (record w { metas = insert meta.name meta w.metas }, true)
  ]

  -- `remove`
  abbrev pub remove_meta : Text → World S → World S
  remove_meta name w = record w { metas = erase name w.metas }

  -- `has`
  abbrev pub has_meta : Text → World S → Bool
  has_meta name w = is_some (lookup name w.metas)

  -- `CreateRoom`, with the room's handle.
  unfoldable pub create_room : Env S → Text → World S → World S × ℕ
  create_room env name w = elim (lookup name w.manager) [
    | some h ↦ (w, h)
    | none ↦ (
      record w {
        manager = insert name w.next_room w.manager;
        rooms = insert w.next_room (new_room name env.cfg) w.rooms;
        next_room = w.next_room + 1;
      },
      w.next_room,
    )
  ]

  -- `GetRoom`
  abbrev pub get_room : Text → World S → Option ℕ
  get_room name w = lookup name w.manager

  -- `DestroyRoom`: a stopped room takes no message any more.
  unfoldable pub destroy_room : Text → World S → World S
  destroy_room name w = elim (lookup name w.manager) [
    | none ↦ w
    | some h ↦ record w { manager = erase name w.manager; rooms = erase h w.rooms }
  ]

  -- The sessions of a room.
  abbrev pub members : ℕ → World S → List ℕ
  members h w = members_or_empty (lookup h w.room_sessions)

  abbrev pub player_count : Option ℕ → World S → ℕ
  player_count none w = 0
  player_count (some h) w = length (members h w)

  abbrev pub nick_of : Env S → ℕ → World S → Returned LobbyError Text
  nick_of env uid w = nickname env.store env.crypto env.secret uid w.store

  -- One entry of `buildRoomListBody`.
  abbrev pub room_info : Env S → World S → Text × RoomMeta → RoomInfo
  room_info env w nm = record {
    name = nm.0;
    creator = text_or_empty (nick_of env nm.1.creator w);
    note = nm.1.note;
    players = player_count (get_room nm.0 w) w;
    max = 8;
  }

  -- `buildRoomListBody`
  unfoldable pub room_list_body : Env S → World S → List ℕ
  room_list_body env w = encode_room_list (map (room_info env w) w.metas)

  -- `broadcastRoomList`
  unfoldable pub broadcast_room_list : Env S → World S → World S
  unfolding room_list_body
  broadcast_room_list env w =
      send_all (map (λ entry. entry.1) w.online) (frame msg_room_list (room_list_body env w)) w

  -- `SendRoomList`
  unfoldable pub send_room_list : Env S → ℕ → World S → World S
  unfolding room_list_body
  send_room_list env uid w = send uid (frame msg_room_list (room_list_body env w)) w
