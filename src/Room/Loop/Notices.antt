-- ===== src/Room/Loop/Notices.antt =====
-- internal/room/room.go: how often a room reports that it is empty.
use lurkspire.Prelude.{
  ℕ, ◌+◌, ◌≤◌, ◌≡◌, inl, inr, refl, List, [], ◌∷◌, ◌++◌, not, ◌&&◌, arith, lookup, nat_key,
  Bool-cases, if◌then◌else◌,
}
use lurkspire.Protocol.Battle.{HitEvent}
use lurkspire.Room.Float.{FloatOps}
use lurkspire.Room.Player.{Config, Players}
use lurkspire.Room.State.{
  Room, Msg, Out, broadcast, emptied_notice, joined, states, events, equipped, ticks, inputs,
  snapshots, drains, joins, leaves, equips, sets_online, sets_broadcast, sets_on_empty, new_room,
}
use lurkspire.Room.Upkeep.{tick_combat}
use lurkspire.Room.Roster.{add_player, notify_empty, tick_offline_players, apply_equip}
use lurkspire.Room.Broadcast.{just_died, broadcast_events, settle, broadcast_tick}
use lurkspire.Room.Loop.Input.{take_report, handle_input}
use lurkspire.Room.Loop.{on_tick, step, run}

-- How many notices an output has.
abbrev pub notices : List Out → ℕ
notices [] = 0
notices (broadcast id body ∷ outs) = notices outs
notices (emptied_notice id ∷ outs) = 1 + notices outs
notices (joined done ∷ outs) = notices outs
notices (states ps ∷ outs) = notices outs
notices (events evs ∷ outs) = notices outs
notices (equipped ∷ outs) = notices outs

-- How many players an output lets in.
abbrev pub admissions : List Out → ℕ
admissions [] = 0
admissions (broadcast id body ∷ outs) = admissions outs
admissions (emptied_notice id ∷ outs) = admissions outs
admissions (joined done ∷ outs) = if done then 1 + admissions outs else admissions outs
admissions (states ps ∷ outs) = admissions outs
admissions (events evs ∷ outs) = admissions outs
admissions (equipped ∷ outs) = admissions outs

-- Whether the next tick without players sends a notice.
abbrev pub armed : Room → ℕ
armed r = if r.had_players && not r.emptied then 1 else 0

notices-append : (a b : List Out) → notices (a ++ b) ≡ notices a + notices b
notices-append [] b = ground arith
notices-append (broadcast id body ∷ a) b = notices-append a b
notices-append (emptied_notice id ∷ a) b = omega (arith, notices-append a b)
notices-append (joined done ∷ a) b = notices-append a b
notices-append (states ps ∷ a) b = notices-append a b
notices-append (events evs ∷ a) b = notices-append a b
notices-append (equipped ∷ a) b = notices-append a b

admissions-append : (a b : List Out) → admissions (a ++ b) ≡ admissions a + admissions b
admissions-append [] b = ground arith
admissions-append (broadcast id body ∷ a) b = admissions-append a b
admissions-append (emptied_notice id ∷ a) b = admissions-append a b
admissions-append (joined done ∷ a) b = ground (arith, admissions-append a b)
admissions-append (states ps ∷ a) b = admissions-append a b
admissions-append (events evs ∷ a) b = admissions-append a b
admissions-append (equipped ∷ a) b = admissions-append a b

notices-broadcast_events :
    (evs : List HitEvent) (ps : Players) → notices (broadcast_events evs ps).1 ≡ 0
unfolding broadcast_events
notices-broadcast_events [] ps = refl
notices-broadcast_events (ev ∷ evs) ps = elim (Bool-cases (just_died (lookup ev.target ps))) [
  | inl e ↦ rw (e, broadcast_events) (notices-broadcast_events evs _)
  | inr e ↦ rw (e, broadcast_events) (notices-broadcast_events evs ps)
]

notices-settle : (r : Room) → (notices (settle r).1 ≡ 0) × (armed (settle r).0 ≡ armed r)
unfolding settle
notices-settle r = ground arith

notices-broadcast_tick :
    (r : Room) → (notices (broadcast_tick r).1 ≡ 0) × (armed (broadcast_tick r).0 ≡ armed r)
unfolding broadcast_tick
notices-broadcast_tick r =
    let hits : Players × List Out = broadcast_events r.pending_events r.players in
    let r' : Room = record r { players = hits.0; pending_events = [] } in
    (
      omega (
        arith,
        (notices-settle r').0,
        notices-append hits.1 (settle r').1,
        notices-broadcast_events r.pending_events r.players,
      ),
      (notices-settle r').1,
    )

notices-tick_offline_players :
    (r : Room) → notices (tick_offline_players r).1 + armed (tick_offline_players r).0 ≤ armed r
unfolding tick_offline_players notify_empty
notices-tick_offline_players r = ground arith

module _ (ops : FloatOps) where
  notices-on_tick :
      (draws : ℕ → ℕ) (r : Room)
      → notices (on_tick ops draws r).1 + armed (on_tick ops draws r).0 ≤ armed r
  unfolding on_tick
  notices-on_tick draws r =
      let r1 : Room = record r { tick = r.tick + 1; players = tick_combat ops draws r.players } in
      let r2 : Room = (tick_offline_players r1).0 in
      let before : notices (tick_offline_players r1).1 + armed r2 ≤ armed r =
        notices-tick_offline_players r1 in
      elim (Bool-cases r2.on_broadcast) [
        | inl e ↦
            rw (e, on_tick)
              (omega (
                arith,
                before,
                (notices-broadcast_tick r2).0,
                (notices-broadcast_tick r2).1,
                notices-append (tick_offline_players r1).1 (broadcast_tick r2).1,
              ))
        | inr e ↦ rw (e, on_tick) before
      ]

  notices-step :
      (r : Room) (m : Msg)
      → notices (step ops r m).1 + armed (step ops r m).0 ≤ armed r + admissions (step ops r m).1
  unfolding step
  notices-step r (ticks draws) = omega (arith, notices-on_tick draws r)
  notices-step r (inputs uid report) = unfold handle_input take_report in ground arith
  notices-step r snapshots = ground arith
  notices-step r drains = ground arith
  notices-step r (joins uid draw) = unfold add_player in ground arith
  notices-step r (leaves uid) = ground arith
  notices-step r (equips uid bonus) = unfold apply_equip in ground arith
  notices-step r (sets_online uid b) = ground arith
  notices-step r sets_broadcast = ground arith
  notices-step r sets_on_empty = ground arith

  notices-run :
      (r : Room) (ms : List Msg)
      → notices (run ops r ms).1 + armed (run ops r ms).0 ≤ armed r + admissions (run ops r ms).1
  unfolding run
  notices-run r [] = ground arith
  notices-run r (m ∷ ms) = omega (
    arith,
    notices-step r m,
    notices-run (step ops r m).0 ms,
    notices-append (step ops r m).1 (run ops (step ops r m).0 ms).1,
    admissions-append (step ops r m).1 (run ops (step ops r m).0 ms).1,
  )

  -- Whatever messages a room takes from its creation on, it has reported at most as often that it is
  -- empty as it has let a player in.
  pub notices-admissions :
      (id : List ℕ) (cfg : Config) (ms : List Msg)
      → let outs = (run ops (new_room id cfg) ms).1 in notices outs ≤ admissions outs
  notices-admissions id cfg ms = unfold new_room in omega (arith, notices-run (new_room id cfg) ms)
