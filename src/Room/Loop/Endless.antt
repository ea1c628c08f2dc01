-- ===== src/Room/Loop/Endless.antt =====
-- internal/room/room.go: battles without a last score and a last tick.
use lurkspire.Prelude.{
  ℕ, ◌+◌, ◌≡◌, refl, sym, ap, ◌∙◌, inl, inr, List, [], ◌∷◌, false, arith, if◌then◌else◌, Bool-cases,
  nat_key, subst,
}
use lurkspire.Room.Float.{FloatOps}
use lurkspire.Room.Player.{Config}
use lurkspire.Room.State.{
  Room, Msg, ticks, inputs, snapshots, drains, joins, leaves, equips, sets_online, sets_broadcast,
  sets_on_empty, new_room, normal_config,
}
use lurkspire.Room.Roster.{add_player, age_offline, notify_empty, tick_offline_players, apply_equip}
use lurkspire.Room.Broadcast.{settle, settles, broadcast_tick, broadcast_events}
use lurkspire.Room.Upkeep.{tick_combat}
use lurkspire.Room.Loop.{on_tick, step, run}
use lurkspire.Room.Loop.Input.{take_report, handle_input}
use lurkspire.Room.Loop.Identity.{fixed-step}
use lurkspire.Room.Loop.Once.{settlements, settled_once}

abbrev pub IsEndless : Config → Type 0
IsEndless c = (c.settle_score ≡ 0) × (c.settle_ticks ≡ 0)

settled-settle : (r : Room) → IsEndless r.cfg → (settle r).0.settled ≡ r.settled
unfolding settle settles
settled-settle r h = ground (arith, h.0, h.1)

settled-broadcast_tick : (r : Room) → IsEndless r.cfg → (broadcast_tick r).0.settled ≡ r.settled
unfolding broadcast_tick
settled-broadcast_tick r h =
    settled-settle
      (record r { players = (broadcast_events r.pending_events r.players).0; pending_events = [] })
      h

kept-notify_empty :
    (r : Room) → ((notify_empty r).0.settled ≡ r.settled) × ((notify_empty r).0.cfg ≡ r.cfg)
unfolding notify_empty
kept-notify_empty r = ground arith

module _ (ops : FloatOps) where
  settled-on_tick :
      (draws : ℕ → ℕ) (r : Room) → IsEndless r.cfg → (on_tick ops draws r).0.settled ≡ r.settled
  unfolding on_tick tick_offline_players
  settled-on_tick draws r h =
      let aged : Room = record r {
        tick = r.tick + 1;
        players = age_offline r.cfg.reconnect_grace_ticks (tick_combat ops draws r.players);
      } in
      let (s, c) = kept-notify_empty aged in
      elim (Bool-cases (notify_empty aged).0.on_broadcast) [
        | inl e ↦
            rw (e, on_tick)
              (settled-broadcast_tick (notify_empty aged).0 (subst IsEndless (sym c) h) ∙ s)
        | inr e ↦ rw (e, on_tick) s
      ]

  settled-step : (r : Room) (m : Msg) → IsEndless r.cfg → (step ops r m).0.settled ≡ r.settled
  unfolding step
  settled-step r (ticks draws) h = settled-on_tick draws r h
  settled-step r (inputs uid report) h = unfold handle_input take_report in ground arith
  settled-step r snapshots h = refl
  settled-step r drains h = refl
  settled-step r (joins uid draw) h = unfold add_player in ground arith
  settled-step r (leaves uid) h = refl
  settled-step r (equips uid bonus) h = unfold apply_equip in refl
  settled-step r (sets_online uid b) h = refl
  settled-step r sets_broadcast h = refl
  settled-step r sets_on_empty h = refl

  settled-run : (ms : List Msg) (r : Room) → IsEndless r.cfg → (run ops r ms).0.settled ≡ r.settled
  unfolding run
  settled-run [] r h = refl
  settled-run (m ∷ ms) r h =
      let kept : (step ops r m).0.cfg ≡ r.cfg = ap (λ f. f.1) (fixed-step ops r m) in
      settled-run ms (step ops r m).0 (subst IsEndless (sym kept) h) ∙ settled-step r m h

  -- A room whose settings name no last score and no last tick never pushes a settlement, whatever
  -- messages it takes.
  pub never_settles :
      (id : List ℕ) (cfg : Config) (ms : List Msg)
      → IsEndless cfg
      → settlements (run ops (new_room id cfg) ms).1 ≡ 0
  unfolding new_room normal_config
  never_settles id cfg ms h =
      let off : (run ops (new_room id cfg) ms).0.settled ≡ false =
        settled-run ms (new_room id cfg) h in
      settled_once ops id cfg ms ∙ ap (λ b. if b then 1 else 0) off
