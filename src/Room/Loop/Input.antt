-- ===== src/Room/Loop/Input.antt =====
-- internal/room/room.go, `handleInputMsg`: what a player's report changes.
use lurkspire.Prelude.{
  ℕ, List, ◌++◌, none, some, true, false, if◌then◌else◌, lookup, insert, nat_key,
}
use lurkspire.Protocol.Battle.{InputReport}
use lurkspire.Room.Float.{FloatOps}
use lurkspire.Room.MapData.{WallBox}
use lurkspire.Room.Player.{Player, Players, btn_fire, btn_sword, btn_dash_atk, btn_lock, pressed}
use lurkspire.Room.Validation.{check_move, mark_violation, apply_input}
use lurkspire.Room.Hit.{Action, no_action}
use lurkspire.Room.Weapons.{apply_shot, apply_sword, apply_dash, apply_lock}
use lurkspire.Room.State.{Room}

-- What an accepted report writes to the player.
unfoldable pub accept : Player → InputReport → Player
unfolding apply_input
accept p report =
    apply_input
      (record p {
        aim_x = report.aim_x;
        aim_y = report.aim_y;
        buttons = report.buttons;
        weapon = report.weapon;
        anim = report.anim;
      })
      report

module _ (ops : FloatOps) where
  -- The `switch` over the buttons: at most one of the gun, the sword and the dash.
  unfoldable pub primary : List WallBox → ℕ → ℕ → Players → Action
  primary walls uid buttons ps =
      if pressed buttons btn_fire
      then apply_shot ops walls uid ps
      else if pressed buttons btn_sword
      then apply_sword ops uid ps
      else if pressed buttons btn_dash_atk
      then apply_dash ops uid ps
      else no_action ps

  -- The lock goes with any of them.
  unfoldable pub secondary : ℕ → ℕ → Action → Action
  secondary uid buttons a =
      if pressed buttons btn_lock
      then (let b = apply_lock ops uid a.players in
          record { players = b.players; events = a.events ++ b.events })
      else a

  unfoldable pub weapons : List WallBox → ℕ → ℕ → Players → Action
  weapons walls uid buttons ps = secondary uid buttons (primary walls uid buttons ps)

  -- The report of a player who is in the room.
  unfoldable pub take_report : ℕ → Player → InputReport → Room → Room
  unfolding mark_violation accept
  take_report uid p report r =
      let p = record p { last_report_tick = r.tick } in
      elim (check_move ops p report) [
        | false ↦ record r { players = insert uid (mark_violation p false) r.players }
        | true ↦
            let ps = insert uid (accept (mark_violation p true) report) r.players in
            let a = weapons r.walls uid report.buttons ps in
            record r { players = a.players; pending_events = r.pending_events ++ a.events }
      ]

  unfoldable pub handle_input : ℕ → InputReport → Room → Room
  unfolding take_report
  handle_input uid report r = elim (lookup uid r.players) [
    | none ↦ r
    | some p ↦ take_report uid p report r
  ]
