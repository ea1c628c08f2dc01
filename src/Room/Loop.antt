-- ===== src/Room/Loop.antt =====
-- internal/room/room.go: the room's goroutine, one message at a time.
pub mod Input
pub mod Actions
pub mod Invariant
pub mod Grace
pub mod Once
pub mod Notices
pub mod Fallen
pub mod Rejected
pub mod Identity
pub mod Endless
use lurkspire.Prelude.{
  ℕ, ◌+◌, List, [], ◌∷◌, ◌++◌, Bool, true, false, if◌then◌else◌, erase, modify, nat_key,
}
use lurkspire.Room.Float.{FloatOps}
use lurkspire.Room.State.{
  Room, Msg, Out, ticks, inputs, snapshots, drains, joins, leaves, equips, sets_online,
  sets_broadcast, sets_on_empty, joined, states, events, equipped,
}
use lurkspire.Room.Roster.{add_player, put_online, tick_offline_players, apply_equip}
use lurkspire.Room.Broadcast.{snapshots_of, broadcast_tick}
use lurkspire.Room.Upkeep.{tick_combat}
use Input.{handle_input}

module _ (ops : FloatOps) where
  -- The case of the ticker.
  unfoldable pub on_tick : (ℕ → ℕ) → Room → Room × List Out
  on_tick draws r =
      let r = record r { tick = r.tick + 1; players = tick_combat ops draws r.players } in
      let (r, notices) = tick_offline_players r in
      elim r.on_broadcast [
        | false ↦ (r, notices)
        | true ↦ let (r, pushes) = broadcast_tick r in (r, notices ++ pushes)
      ]

  -- One round of `loop`.
  unfoldable pub step : Room → Msg → Room × List Out
  step r (ticks draws) = on_tick draws r
  step r (inputs uid report) = (handle_input ops uid report r, [])
  step r snapshots = (r, states (snapshots_of r.players) ∷ [])
  step r drains = (record r { pending_events = [] }, events r.pending_events ∷ [])
  step r (joins uid draw) = let (r, done) = add_player uid draw r in (r, joined done ∷ [])
  step r (leaves uid) = (record r { players = erase uid r.players }, [])
  step r (equips uid bonus) = (apply_equip ops uid bonus r, equipped ∷ [])
  step r (sets_online uid b) = (record r { players = modify uid (put_online b) r.players }, [])
  step r sets_broadcast = (record r { on_broadcast = true }, [])
  step r sets_on_empty = (record r { on_empty = true }, [])

  -- The goroutine over the messages that it takes, in order.
  unfoldable pub run : Room → List Msg → Room × List Out
  run r [] = (r, [])
  run r (m ∷ ms) = let (r', outs) = step r m in let (r'', more) = run r' ms in (r'', outs ++ more)
