-- ===== src/Room/Loop/Once.antt =====
-- internal/room/room.go: the settlement of the battle, over any run of the room's goroutine.
use lurkspire.Prelude.{
  ℕ, ◌+◌, ◌≡◌, inl, inr, refl, List, [], ◌∷◌, ◌++◌, arith, lookup, nat_key, Bool-cases,
  if◌then◌else◌, ◌==◌,
}
use lurkspire.Protocol.Battle.{HitEvent}
use lurkspire.Room.Float.{FloatOps}
use lurkspire.Room.Player.{Config, Players}
use lurkspire.Room.State.{
  Room, Msg, Out, broadcast, emptied_notice, joined, states, events, equipped, ticks, inputs,
  snapshots, drains, joins, leaves, equips, sets_online, sets_broadcast, sets_on_empty, new_room,
}
use lurkspire.Room.Roster.{add_player, notify_empty, tick_offline_players, apply_equip}
use lurkspire.Room.Broadcast.{
  just_died, broadcast_events, settle, broadcast_tick, msg_battle_settle,
}
use lurkspire.Room.Upkeep.{tick_combat}
use lurkspire.Room.Loop.Input.{take_report, handle_input}
use lurkspire.Room.Loop.{on_tick, step, run}

-- How many settlements an output pushes.
abbrev pub settlements : List Out → ℕ
settlements [] = 0
settlements (broadcast id body ∷ outs) =
    if id == msg_battle_settle then 1 + settlements outs else settlements outs
settlements (emptied_notice id ∷ outs) = settlements outs
settlements (joined done ∷ outs) = settlements outs
settlements (states ps ∷ outs) = settlements outs
settlements (events evs ∷ outs) = settlements outs
settlements (equipped ∷ outs) = settlements outs

abbrev pub has_settled : Room → ℕ
has_settled r = if r.settled then 1 else 0

settlements-append : (a b : List Out) → settlements (a ++ b) ≡ settlements a + settlements b
settlements-append [] b = ground arith
settlements-append (broadcast id body ∷ a) b = ground (arith, settlements-append a b)
settlements-append (emptied_notice id ∷ a) b = settlements-append a b
settlements-append (joined done ∷ a) b = settlements-append a b
settlements-append (states ps ∷ a) b = settlements-append a b
settlements-append (events evs ∷ a) b = settlements-append a b
settlements-append (equipped ∷ a) b = settlements-append a b

settlements-broadcast_events :
    (evs : List HitEvent) (ps : Players) → settlements (broadcast_events evs ps).1 ≡ 0
unfolding broadcast_events
settlements-broadcast_events [] ps = refl
settlements-broadcast_events (ev ∷ evs) ps = elim (Bool-cases (just_died (lookup ev.target ps))) [
  | inl e ↦ rw (e, broadcast_events) (settlements-broadcast_events evs _)
  | inr e ↦ rw (e, broadcast_events) (settlements-broadcast_events evs ps)
]

settlements-settle :
    (r : Room) → settlements (settle r).1 + has_settled r ≡ has_settled (settle r).0
unfolding settle
settlements-settle r = ground arith

settlements-broadcast_tick :
    (r : Room) → settlements (broadcast_tick r).1 + has_settled r ≡ has_settled (broadcast_tick r).0
unfolding broadcast_tick
settlements-broadcast_tick r =
    let hits : Players × List Out = broadcast_events r.pending_events r.players in
    let r' : Room = record r { players = hits.0; pending_events = [] } in
    omega (
      arith,
      settlements-settle r',
      settlements-append hits.1 (settle r').1,
      settlements-broadcast_events r.pending_events r.players,
    )

settlements-tick_offline_players :
    (r : Room)
    → (settlements (tick_offline_players r).1 ≡ 0)
      × ((tick_offline_players r).0.settled ≡ r.settled)
unfolding tick_offline_players notify_empty
settlements-tick_offline_players r = ground arith

module _ (ops : FloatOps) where
  settlements-on_tick :
      (draws : ℕ → ℕ) (r : Room)
      → settlements (on_tick ops draws r).1 + has_settled r ≡ has_settled (on_tick ops draws r).0
  unfolding on_tick
  settlements-on_tick draws r =
      let r1 : Room = record r { tick = r.tick + 1; players = tick_combat ops draws r.players } in
      let r2 : Room = (tick_offline_players r1).0 in
      let (none_yet, same) = settlements-tick_offline_players r1 in
      let before : settlements (tick_offline_players r1).1 + has_settled r ≡ has_settled r2 =
        ground arith in
      elim (Bool-cases r2.on_broadcast) [
        | inl e ↦
            rw (e, on_tick)
              (omega (
                arith,
                before,
                settlements-broadcast_tick r2,
                settlements-append (tick_offline_players r1).1 (broadcast_tick r2).1,
              ))
        | inr e ↦ rw (e, on_tick) before
      ]

  settlements-step :
      (r : Room) (m : Msg)
      → settlements (step ops r m).1 + has_settled r ≡ has_settled (step ops r m).0
  unfolding step
  settlements-step r (ticks draws) = settlements-on_tick draws r
  settlements-step r (inputs uid report) = unfold handle_input take_report in ground arith
  settlements-step r snapshots = ground arith
  settlements-step r drains = ground arith
  settlements-step r (joins uid draw) = unfold add_player in ground arith
  settlements-step r (leaves uid) = ground arith
  settlements-step r (equips uid bonus) = unfold apply_equip in ground arith
  settlements-step r (sets_online uid b) = ground arith
  settlements-step r sets_broadcast = ground arith
  settlements-step r sets_on_empty = ground arith

  settlements-run :
      (r : Room) (ms : List Msg)
      → settlements (run ops r ms).1 + has_settled r ≡ has_settled (run ops r ms).0
  unfolding run
  settlements-run r [] = ground arith
  settlements-run r (m ∷ ms) = omega (
    arith,
    settlements-step r m,
    settlements-run (step ops r m).0 ms,
    settlements-append (step ops r m).1 (run ops (step ops r m).0 ms).1,
  )

  -- Whatever messages a room takes from its creation on, it pushes the settlement of the battle once
  -- if it has settled by then, and otherwise not at all.
  pub settled_once :
      (id : List ℕ) (cfg : Config) (ms : List Msg)
      → let (r, outs) = run ops (new_room id cfg) ms in
        settlements outs ≡ (if r.settled then 1 else 0)
  settled_once id cfg ms = unfold new_room in omega (arith, settlements-run (new_room id cfg) ms)
