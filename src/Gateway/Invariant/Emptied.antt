-- ===== src/Gateway/Invariant/Emptied.antt =====
-- internal/gateway/hub.go: what becomes of a room whose goroutine has reported it empty.
use lurkspire.Prelude.{
  ℕ, ◌≡◌, refl, ◌∙◌, inl, inr, [], ◌∷◌, none, some, true, false, arith, if◌then◌else◌, Bool-cases,
  lookup, lookup-erase, ==_iff, text_beq, text_beq_iff, nat_key, text_key,
}
use lurkspire.Store.Users.Catalogue.{Text}
use lurkspire.Room.State.{Room}
use lurkspire.Room.Player.{Players}
use lurkspire.Room.Broadcast.{snapshots_of}
use lurkspire.Room.Loop.{step}
use lurkspire.Room.Roster.{is_empty}
use lurkspire.Gateway.State.{Env, World}
use lurkspire.Gateway.Registry.{destroy_room, broadcast_room_list}
use lurkspire.Gateway.Battle.{has_players, state_snapshot, room_call, clean_up}
use lurkspire.Gateway.Invariant.{IsWorld}

has_players-snapshots_of :
    (ps : Players) → has_players (snapshots_of ps) ≡ (if is_empty ps then false else true)
has_players-snapshots_of [] = refl
has_players-snapshots_of (p ∷ ps) = refl

module _ {S : Type 0} (n : ℕ) (env : Env S) (k : ℕ) (name : Text) (w : World S) (r : Room)
    (h : IsWorld n w) (e : lookup k w.rooms ≡ some r) (q : lookup name w.manager ≡ some k) where
  snapshot_here :
      has_players (state_snapshot env k w) ≡ (if is_empty r.players then false else true)
  unfolding step
  snapshot_here = unfold room_call in rw (e, room_call) (has_players-snapshots_of r.players)

  -- The goroutine that looks after a room of the manager destroys it and takes its name from the
  -- manager and from the room list, if nobody is in the room; otherwise it leaves all three.
  pub clean_up_decides :
      (lookup name (clean_up env k name w).manager ≡ (if is_empty r.players then none else some k))
      × (lookup k (clean_up env k name w).rooms ≡ (if is_empty r.players then none else some r))
      × (lookup name (clean_up env k name w).metas
          ≡ (if is_empty r.players then none else lookup name w.metas))
  unfolding clean_up destroy_room broadcast_room_list
  clean_up_decides = elim (Bool-cases (is_empty r.players)) [
    | inr b ↦ rw (e, clean_up) (rw (snapshot_here, b, e, q) (refl, refl, refl))
    | inl b ↦
        let same : text_beq name name ≡ true = (text_beq_iff name name).1 refl in
        rw (e, clean_up)
          (rw (snapshot_here, b)
            (rw (q, destroy_room)
              (
                lookup-erase name name w.manager h.orderly.names ∙ ground (arith, same),
                lookup-erase k k w.rooms h.orderly.distinct ∙ ground (arith, ==_iff k k),
                lookup-erase name name w.metas h.orderly.listed ∙ ground (arith, same),
              )))
  ]
