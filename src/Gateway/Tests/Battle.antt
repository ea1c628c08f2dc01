-- ===== src/Gateway/Tests/Battle.antt =====
-- The theorems on rooms and their sessions, with a user who is logged in twice.
use lurkspire.Prelude.{
  ℕ, ◌≡◌, refl, [], ◌∷◌, none, some, true, arith, length, lookup, insert, modify, nat_key, text_key,
}
use lurkspire.Store.Users.{MemStore}
use lurkspire.Room.Tests.{toy, cfg}
use lurkspire.Room.Player.{Config}
use lurkspire.Room.State.{Room, new_room, normal_config, sets_broadcast, joins}
use lurkspire.Room.Roster.{add_player}
use lurkspire.Room.Loop.{step}
use lurkspire.Room.Loop.Invariant.{IsRoom, new_room-IsRoom, step-IsRoom}
use lurkspire.Gateway.State.{World}
use lurkspire.Gateway.Registry.{create_room}
use lurkspire.Gateway.Battle.{room_call}
use lurkspire.Gateway.Battle.Enter.{join}
use lurkspire.Gateway.Invariant.{IsWorld}
use lurkspire.Gateway.Invariant.Delivered.{IsTicked, tick_reaches}
use lurkspire.Gateway.Invariant.Joins.{IsInRoom, join_enters, join_refuses}
use lurkspire.Gateway.Tests.{env, both, older, newer, hall}

-- The process with one room, which only the older session is in.
abbrev with_room : Room → World MemStore
with_room r = record both {
  manager = (hall, 0) ∷ [];
  rooms = (0, r) ∷ [];
  next_room = 1;
  room_sessions = (0, 1 ∷ []) ∷ [];
  metas = (hall, record { name = hall; creator = 1; note = [] }) ∷ [];
}

with_room-IsWorld : (r : Room) → IsRoom r → r.id ≡ hall → IsWorld 2 (with_room r)
unfolding lookup
with_room-IsWorld r good id = record {
  some_sessions = omega arith;
  numbered = (omega arith, (omega arith, tt));
  distinct = (refl, tt);
  online = (refl, tt);
  orderly = record {
    orderly = (good, tt);
    older = (omega arith, tt);
    distinct = (refl, tt);
    names = (refl, tt);
    running = ((r, refl, id), tt);
    listed = (refl, tt);
    shown = ((0, refl), tt);
  };
  queued = (omega arith, (omega arith, tt));
  apart = ((refl, tt), tt);
}

-- A room with user 1 as its player.
abbrev arena : Room
arena = (step toy (step toy (new_room hall cfg) sets_broadcast).0 (joins 1 0)).0

arena-IsRoom : IsRoom arena
arena-IsRoom =
    step-IsRoom toy (step toy (new_room hall cfg) sets_broadcast).0 (joins 1 0)
      (step-IsRoom toy (new_room hall cfg) sets_broadcast (new_room-IsRoom toy hall cfg))

arena_named : arena.id ≡ hall
unfolding step add_player new_room lookup
arena_named = refl

arena_found : lookup 0 (with_room arena).rooms ≡ some arena
unfolding lookup
arena_found = refl

arena_pushes : arena.on_broadcast ≡ true
unfolding step add_player new_room lookup
arena_pushes = refl

member_found : lookup 1 (with_room arena).sessions ≡ some older
unfolding lookup
member_found = refl

tick_reaches_example : IsTicked env 0 1 (λ i. 0) (with_room arena) older
tick_reaches_example =
    tick_reaches 2 env (with_room arena) (with_room-IsWorld arena arena-IsRoom arena_named) 0 1
      (λ i. 0) arena older arena_found arena_pushes member_found refl

newer_found : lookup 2 (with_room arena).sessions ≡ some newer
unfolding lookup
newer_found = refl

let_in : (join env 0 2 hall (with_room arena)).1 ≡ some 0
unfolding join create_room room_call step add_player new_room lookup insert modify
let_in = refl

join_enters_example :
    IsInRoom 2 1 0 (join env 0 2 hall (with_room arena)).0
    × (lookup hall (create_room env hall (with_room arena)).0.manager ≡ some 0)
join_enters_example =
    join_enters 2 env 0 2 hall (with_room arena) newer
      (with_room-IsWorld arena arena-IsRoom arena_named) newer_found 0 let_in

-- A room with one place, which another user has taken.
abbrev small : Config
small = record cfg { max_players = 1 }

abbrev taken : Room
taken = (step toy (new_room hall small) (joins 9 0)).0

taken-IsRoom : IsRoom taken
taken-IsRoom = step-IsRoom toy (new_room hall small) (joins 9 0) (new_room-IsRoom toy hall small)

taken_named : taken.id ≡ hall
unfolding step add_player new_room lookup
taken_named = refl

newer_outside : lookup 2 (with_room taken).sessions ≡ some newer
unfolding lookup
newer_outside = refl

refused : (join env 0 2 hall (with_room taken)).1 ≡ none
unfolding join create_room room_call step add_player new_room normal_config lookup insert
refused = refl

join_refuses_example :
    (k : ℕ) × (room : Room) × (lookup hall (with_room taken).manager ≡ some k)
    × (lookup k (with_room taken).rooms ≡ some room)
    × (lookup 1 room.players ≡ none)
    × (length room.players ≡ room.cfg.max_players)
join_refuses_example =
    join_refuses 2 env 0 2 hall (with_room taken) newer
      (with_room-IsWorld taken taken-IsRoom taken_named) newer_outside refused
