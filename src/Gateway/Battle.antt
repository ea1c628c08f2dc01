-- ===== src/Gateway/Battle.antt =====
-- internal/gateway/hub.go: rooms as the hub uses them. A call of a room is one round of its loop;
-- what it pushes goes to the sessions of the room.
pub mod Enter
pub mod Members
pub mod Delivery
pub mod Joined
use lurkspire.Prelude.{
  ℕ, List, [], ◌∷◌, ◌++◌, Option, none, some, Bool, true, false, not, if◌then◌else◌, ◌==◌, lookup,
  insert, erase, modify, nat_key, text_beq,
}
use lurkspire.Protocol.Battle.{F32, PlayerState}
use lurkspire.Store.Users.{Returned, returned, failed}
use lurkspire.Store.Users.Catalogue.{Text, Equipment, block_max_effect}
use lurkspire.Room.Float.{zero_f}
use lurkspire.Room.State.{
  Room, Msg, Out, snapshots, broadcast, emptied_notice, joined, states, events, equipped, leaves,
  sets_online,
}
use lurkspire.Room.Loop.{step}
use lurkspire.Gateway.State.{Env, Session, World}
use lurkspire.Gateway.Send.{frame, send_all, session_of}
use lurkspire.Gateway.Registry.{
  members, members_or_empty, remove_meta, destroy_room, broadcast_room_list,
}

-- The answer to a join, and to a request for the states.
abbrev pub is_joined : List Out → Bool
is_joined [] = false
is_joined (broadcast id body ∷ outs) = is_joined outs
is_joined (emptied_notice name ∷ outs) = is_joined outs
is_joined (joined done ∷ outs) = done
is_joined (states ps ∷ outs) = is_joined outs
is_joined (events evs ∷ outs) = is_joined outs
is_joined (equipped ∷ outs) = is_joined outs

abbrev pub states_in : List Out → List PlayerState
states_in [] = []
states_in (broadcast id body ∷ outs) = states_in outs
states_in (emptied_notice name ∷ outs) = states_in outs
states_in (joined done ∷ outs) = states_in outs
states_in (states ps ∷ outs) = ps
states_in (events evs ∷ outs) = states_in outs
states_in (equipped ∷ outs) = states_in outs

-- The keys of a room's map of sessions.
abbrev pub add_member : ℕ → List ℕ → List ℕ
add_member uid [] = uid ∷ []
add_member uid (u ∷ us) = if u == uid then u ∷ us else u ∷ add_member uid us

abbrev pub remove_member : ℕ → List ℕ → List ℕ
remove_member uid [] = []
remove_member uid (u ∷ us) = let rest = remove_member uid us in if u == uid then rest else u ∷ rest

-- `blockBonus` of what the store answers.
abbrev pub bonus_of : {E : Type 0} → Returned E Equipment → F32
bonus_of (failed e) = zero_f
bonus_of (returned e) = if text_beq e.effect_type block_max_effect then e.effect_value else zero_f

abbrev pub has_players : List PlayerState → Bool
has_players [] = false
has_players (p ∷ ps) = true

module _ {S : Type 0} where
  -- A message to a room, and what the room answers. A room that is stopped never answers.
  unfoldable pub room_call : Env S → ℕ → Msg → World S → World S × List Out
  room_call env h m w = elim (lookup h w.rooms) [
    | none ↦ (w, [])
    | some r ↦ let (r', outs) = step env.ops r m in (record w { rooms = insert h r' w.rooms }, outs)
  ]

  -- `StateSnapshot`
  abbrev pub state_snapshot : Env S → ℕ → World S → List PlayerState
  state_snapshot env h w = states_in (room_call env h snapshots w).1

  abbrev pub set_room : ℕ → Option ℕ → World S → World S
  set_room uid h w = record w { sessions = modify uid (λ s. record s { room = h }) w.sessions }

  -- `if set, ok := h.roomSessions[r]; ok { delete(set, s.UID) }`
  abbrev pub drop_member : ℕ → ℕ → World S → World S
  drop_member h uid w = record w { room_sessions = modify h (remove_member uid) w.room_sessions }

  -- `broadcastToRoom`
  unfoldable pub broadcast_to_room : ℕ → ℕ → List ℕ → World S → World S
  broadcast_to_room h msg_id body w = send_all (members h w) (frame msg_id body) w

  -- The calls of a room's callbacks: `broadcastToRoom`, and the start of a goroutine that looks at
  -- the room again.
  unfoldable pub route : ℕ → List Out → World S → World S
  unfolding broadcast_to_room
  route h [] w = w
  route h (broadcast id body ∷ outs) w = route h outs (broadcast_to_room h id body w)
  route h (emptied_notice name ∷ outs) w =
      route h outs (record w { cleanups = w.cleanups ++ ((h, name) ∷ []) })
  route h (joined done ∷ outs) w = route h outs w
  route h (states ps ∷ outs) w = route h outs w
  route h (events evs ∷ outs) w = route h outs w
  route h (equipped ∷ outs) w = route h outs w

  -- The goroutine that an empty room has started. On a room that is stopped it waits for ever.
  unfoldable pub clean_up : Env S → ℕ → Text → World S → World S
  unfolding room_call destroy_room broadcast_room_list
  clean_up env h name w = elim (lookup h w.rooms) [
    | none ↦ w
    | some r ↦
        if has_players (state_snapshot env h w)
        then w
        else broadcast_room_list env (
            destroy_room name
              (remove_meta name (record w { room_sessions = erase h w.room_sessions })))
  ]

  -- `Leave`
  unfoldable pub leave : Env S → ℕ → World S → World S
  unfolding room_call broadcast_room_list
  leave env uid w = elim (session_of uid w).room [
    | none ↦ w
    | some h ↦
        let login_uid = (session_of uid w).login_uid in
        let w = (room_call env h (leaves login_uid) (set_room uid none w)).0 in
        broadcast_room_list env (drop_member h uid w)
  ]
