-- ===== src/Room/Loop/Rejected.antt =====
-- internal/room/validation.go and room.go, `handleInputMsg`: reports that are not taken over.
use lurkspire.Prelude.{
  ℕ, ◌+◌, ◌≡◌, refl, ap, List, [], ◌∷◌, some, false, arith, length, All, lookup, insert, nat_key,
  lookup-insert, ==_iff, if◌then◌else◌, ◌==◌,
}
use lurkspire.Protocol.Battle.{InputReport}
use lurkspire.Room.Float.{FloatOps}
use lurkspire.Room.Player.{Player}
use lurkspire.Room.Validation.{check_move, mark_violation}
use lurkspire.Room.State.{Room, inputs}
use lurkspire.Room.Loop.Input.{take_report, handle_input}
use lurkspire.Room.Loop.{step}

module _ (ops : FloatOps) (uid : ℕ) where
  -- The reports of one player, one after the other.
  abbrev pub report_all : List InputReport → Room → Room
  report_all [] r = r
  report_all (report ∷ reports) r = report_all reports (step ops r (inputs uid report)).0

  -- What `n` reports that the check rejects leave of a player.
  abbrev pub suspected : ℕ → ℕ → Player → Player
  suspected tick n p = record p { last_report_tick = tick; suspicious = p.suspicious + n }

  one_rejected :
      (p : Player) (report : InputReport) (r : Room)
      → lookup uid r.players ≡ some p
      → check_move ops p report ≡ false
      → (step ops r (inputs uid report)).0
        ≡ record r { players = insert uid (suspected r.tick 1 p) r.players }
  unfolding step handle_input take_report mark_violation
  one_rejected p report r e c =
      let c' : check_move ops (record p { last_report_tick = r.tick }) report ≡ false =
        unfold check_move in c in
      rw (e, handle_input) (rw (c', take_report) refl)

  -- Reports of a player of the room that the check rejects change no other player, and of that
  -- player nothing but the number of its violations in a row, which counts them all, and the tick
  -- of its last report; they bring no event.
  pub reports_rejected :
      (reports : List InputReport) (report : InputReport) (p : Player) (r : Room) (j : ℕ)
      → lookup uid r.players ≡ some p
      → All (λ report. check_move ops p report ≡ false) (report ∷ reports)
      → let r' = report_all (report ∷ reports) r in
        (lookup j r'.players ≡ (
          if uid == j then some (suspected r.tick (1 + length reports) p) else lookup j r.players))
        × (r'.pending_events ≡ r.pending_events)
  reports_rejected [] report p r j e a =
      rw (one_rejected p report r e a.0)
        (lookup-insert uid j (suspected r.tick 1 p) r.players, refl)
  reports_rejected (next ∷ reports) report p r j e a =
      let p1 : Player = suspected r.tick 1 p in
      let r1 : Room = record r { players = insert uid p1 r.players } in
      let found : lookup uid r1.players ≡ some p1 =
        ground (arith, ==_iff uid uid, lookup-insert uid uid p1 r.players) in
      let still : All (λ report. check_move ops p1 report ≡ false) (next ∷ reports) =
        unfold check_move in a.1 in
      let ih = reports_rejected reports next p1 r1 j found still in
      let after : report_all (report ∷ next ∷ reports) r ≡ report_all (next ∷ reports) r1 =
        ap (report_all (next ∷ reports)) (one_rejected p report r e a.0) in
      rw after (ground (arith, ih, lookup-insert uid j p1 r.players), ih.1)
