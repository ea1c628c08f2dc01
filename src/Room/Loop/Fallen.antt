-- ===== src/Room/Loop/Fallen.antt =====
-- internal/room/room.go, `handleInputMsg`: the reports of a player who is dead.
use lurkspire.Prelude.{
  append-nil, ℕ, ◌≡◌, refl, ap, ◌∙◌, inl, inr, List, [], ◌∷◌, some, true, false, arith, lookup,
  insert, nat_key, lookup-insert, ==_iff, Bool-cases, if◌then◌else◌, ◌==◌,
}
use lurkspire.Protocol.Battle.{InputReport}
use lurkspire.Room.Float.{FloatOps}
use lurkspire.Room.Player.{Player, Players, dead}
use lurkspire.Room.Validation.{check_move, mark_violation, apply_input}
use lurkspire.Room.State.{Room, inputs}
use lurkspire.Room.Weapons.Reach.{weapons_dead}
use lurkspire.Room.Loop.Input.{accept, take_report, handle_input}
use lurkspire.Room.Loop.{step}
use lurkspire.Room.Loop.Rejected.{report_all}

-- The player `q` with what a report can change of it as in `p`.
abbrev pub put_back : Player → Player → Player
put_back p q = record q {
  x = p.x;
  y = p.y;
  z = p.z;
  yaw = p.yaw;
  aim_x = p.aim_x;
  aim_y = p.aim_y;
  buttons = p.buttons;
  weapon = p.weapon;
  anim = p.anim;
  last_report_tick = p.last_report_tick;
  suspicious = p.suspicious;
  first_report = p.first_report;
}

module _ (ops : FloatOps) (uid : ℕ) where
  one_fallen :
      (p : Player) (report : InputReport) (r : Room)
      → lookup uid r.players ≡ some p
      → dead p ≡ true
      → (q : Player) × ((step ops r (inputs uid report)).0
          ≡ record r { players = insert uid q r.players })
        × (put_back p q ≡ p)
        × (dead q ≡ true)
  unfolding step handle_input take_report mark_violation accept apply_input
  one_fallen p report r e d =
      let p1 : Player = record p { last_report_tick = r.tick } in
      elim (Bool-cases (check_move ops p1 report)) [
        | inr c ↦
            (mark_violation p1 false, rw (e, handle_input) (rw (c, take_report) refl), refl, d)
        | inl c ↦
            let q : Player = accept (mark_violation p1 true) report in
            let ps : Players = insert uid q r.players in
            let own : lookup uid ps ≡ some q =
              ground (arith, ==_iff uid uid, lookup-insert uid uid q r.players) in
            let idle = weapons_dead ops uid ps own d r.walls report.buttons in
            (
              q,
              rw (e, handle_input)
                  (rw (c, take_report)
                    (rw idle (
                      ap (λ es. record r { players = ps; pending_events = es })
                        (append-nil r.pending_events)))),
              refl,
              d,
            )
      ]

  -- Whatever reports a dead player of a room sends, one after the other: no other player changes and
  -- no event comes, and of the player itself nothing changes but its position, its view, its buttons,
  -- weapon and animation, and the marks of the check of reports; it stays dead.
  pub reports_fallen :
      (reports : List InputReport) (p : Player) (r : Room) (j : ℕ)
      → lookup uid r.players ≡ some p
      → dead p ≡ true
      → let r' = report_all ops uid reports r in
        ((q : Player) × (lookup j r'.players ≡ (if uid == j then some q else lookup j r.players))
          × (put_back p q ≡ p)
          × (dead q ≡ true))
        × (r'.pending_events ≡ r.pending_events)
  reports_fallen [] p r j e d = ((p, ground (arith, ==_iff uid j, e), refl, d), refl)
  reports_fallen (report ∷ reports) p r j e d =
      let (q, goes, same, d') = one_fallen p report r e d in
      let r1 : Room = record r { players = insert uid q r.players } in
      let own : lookup uid r1.players ≡ some q =
        ground (arith, ==_iff uid uid, lookup-insert uid uid q r.players) in
      let ((q', found, same', dead'), quiet) = reports_fallen reports q r1 j own d' in
      let after : report_all ops uid (report ∷ reports) r ≡ report_all ops uid reports r1 =
        ap (report_all ops uid reports) goes in
      rw after (
        (
          q',
          ground (arith, found, lookup-insert uid j q r.players),
          ap (put_back p) same' ∙ same,
          dead',
        ),
        quiet,
      )
