-- ===== src/Room/Loop/Identity.antt =====
-- internal/room/room.go: the name and the settings of a room, which nothing writes.
use lurkspire.Prelude.{
  ℕ, ◌+◌, ◌≡◌, List, [], refl, ap, ◌∙◌, inl, inr, arith, Bool-cases, Option-cases, lookup, nat_key,
}
use lurkspire.Protocol.Battle.{InputReport}
use lurkspire.Room.Float.{FloatOps}
use lurkspire.Room.Player.{Config, Player}
use lurkspire.Room.Validation.{check_move}
use lurkspire.Room.Upkeep.{tick_combat}
use lurkspire.Room.State.{
  Room, Msg, ticks, inputs, snapshots, drains, joins, leaves, equips, sets_online, sets_broadcast,
  sets_on_empty,
}
use lurkspire.Room.Roster.{age_offline, add_player, notify_empty, tick_offline_players, apply_equip}
use lurkspire.Room.Broadcast.{settle, broadcast_tick, broadcast_events}
use lurkspire.Room.Loop.{on_tick, step}
use lurkspire.Room.Loop.Input.{take_report, handle_input}

-- The name and the settings.
abbrev pub fixed : Room → List ℕ × Config
fixed r = (r.id, r.cfg)

fixed-notify_empty : (r : Room) → fixed (notify_empty r).0 ≡ fixed r
unfolding notify_empty
fixed-notify_empty r = ground arith

fixed-settle : (r : Room) → fixed (settle r).0 ≡ fixed r
unfolding settle
fixed-settle r = ground arith

fixed-broadcast_tick : (r : Room) → fixed (broadcast_tick r).0 ≡ fixed r
unfolding broadcast_tick
fixed-broadcast_tick r =
    fixed-settle
      (record r { players = (broadcast_events r.pending_events r.players).0; pending_events = [] })

fixed-add_player : (uid draw : ℕ) (r : Room) → fixed (add_player uid draw r).0 ≡ fixed r
unfolding add_player
fixed-add_player uid draw r = ground arith

module _ (ops : FloatOps) where
  fixed-on_tick : (draws : ℕ → ℕ) (r : Room) → fixed (on_tick ops draws r).0 ≡ fixed r
  unfolding on_tick tick_offline_players
  fixed-on_tick draws r =
      let r1 : Room = record r { tick = r.tick + 1; players = tick_combat ops draws r.players } in
      let k : fixed (tick_offline_players r1).0 ≡ fixed r =
        unfold tick_offline_players in
        fixed-notify_empty
          (record r1 { players = age_offline r1.cfg.reconnect_grace_ticks r1.players }) in
      elim (Bool-cases (tick_offline_players r1).0.on_broadcast) [
        | inl e ↦ rw (e, on_tick) (fixed-broadcast_tick _ ∙ k)
        | inr e ↦ rw (e, on_tick) k
      ]

  fixed-handle_input :
      (uid : ℕ) (report : InputReport) (r : Room) → fixed (handle_input ops uid report r) ≡ fixed r
  unfolding handle_input take_report
  fixed-handle_input uid report r = elim (Option-cases (lookup uid r.players)) [
    | inl e ↦ rw (e, handle_input) refl
    | inr (p, e) ↦
        let q : Player = record p { last_report_tick = r.tick } in
        elim (Bool-cases (check_move ops q report)) [
          | inl c ↦ rw (e, handle_input) (rw (c, take_report) refl)
          | inr c ↦ rw (e, handle_input) (rw (c, take_report) refl)
        ]
  ]

  -- No message changes the name or the settings of a room.
  pub fixed-step : (r : Room) (m : Msg) → fixed (step ops r m).0 ≡ fixed r
  unfolding step
  fixed-step r (ticks draws) = fixed-on_tick draws r
  fixed-step r (inputs uid report) = fixed-handle_input uid report r
  fixed-step r snapshots = refl
  fixed-step r drains = refl
  fixed-step r (joins uid draw) = fixed-add_player uid draw r
  fixed-step r (leaves uid) = refl
  fixed-step r (equips uid bonus) = unfold apply_equip in refl
  fixed-step r (sets_online uid b) = refl
  fixed-step r sets_broadcast = refl
  fixed-step r sets_on_empty = refl

  pub id-step : (r : Room) (m : Msg) → (step ops r m).0.id ≡ r.id
  id-step r m = ap (λ f. f.0) (fixed-step r m)
