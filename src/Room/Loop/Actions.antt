-- ===== src/Room/Loop/Actions.antt =====
-- internal/room/room.go, `handleInputMsg`: the weapon actions of one report together.
use lurkspire.Prelude.{ℕ, ◌∙◌, List, ◌++◌, true, false, arith, if◌then◌else◌}
use lurkspire.Room.Float.{FloatOps}
use lurkspire.Room.MapData.{WallBox}
use lurkspire.Room.Player.{Players, pressed, btn_fire, btn_sword, btn_dash_atk, btn_lock}
use lurkspire.Room.Invariant.{IsTable}
use lurkspire.Room.Hit.{no_action}
use lurkspire.Room.Weapons.{apply_shot, apply_sword, apply_dash, apply_lock}
use lurkspire.Room.Weapons.Effects.{
  IsFair, no_action-IsFair, apply_shot-IsFair, apply_sword-IsFair, apply_dash-IsFair,
  apply_lock-IsFair,
}
use lurkspire.Room.Loop.Input.{primary, secondary, weapons}

module _ (ops : FloatOps) (grace : ℕ) where
  primary-IsFair :
      (walls : List WallBox) (uid buttons : ℕ) (ps : Players)
      → IsTable grace ps
      → IsFair grace ps (primary ops walls uid buttons ps)
  unfolding primary
  primary-IsFair walls uid buttons ps t =
      elim (pressed buttons btn_fire)
        as (λ b. IsFair grace ps (
          if b
          then apply_shot ops walls uid ps
          else if pressed buttons btn_sword
          then apply_sword ops uid ps
          else if pressed buttons btn_dash_atk
          then apply_dash ops uid ps
          else no_action ps)) [
            | true ↦ apply_shot-IsFair ops grace uid ps t walls
            | false ↦
                elim (pressed buttons btn_sword)
                  as (λ b. IsFair grace ps (
                    if b
                    then apply_sword ops uid ps
                    else if pressed buttons btn_dash_atk
                    then apply_dash ops uid ps
                    else no_action ps)) [
                      | true ↦ apply_sword-IsFair ops grace uid ps t
                      | false ↦
                          elim (pressed buttons btn_dash_atk)
                            as (λ b.
                              IsFair grace ps (if b then apply_dash ops uid ps else no_action ps)) [
                                | true ↦ apply_dash-IsFair ops grace uid ps t
                                | false ↦ no_action-IsFair grace ps t
                              ]
                    ]
          ]

  -- In a table that is in order, whatever buttons a player reports, the weapons keep this order and
  -- the number of players, and score as many points as they count deaths.
  pub weapons-IsFair :
      (walls : List WallBox) (uid buttons : ℕ) (ps : Players)
      → IsTable grace ps
      → IsFair grace ps (weapons ops walls uid buttons ps)
  unfolding weapons secondary
  weapons-IsFair walls uid buttons ps t =
      let a = primary ops walls uid buttons ps in
      let fa = primary-IsFair walls uid buttons ps t in
      let b = apply_lock ops uid a.players in
      let fb = apply_lock-IsFair ops grace uid a.players fa.table in
      elim (pressed buttons btn_lock)
        as (λ c.
          IsFair grace ps
            (if c then record { players = b.players; events = a.events ++ b.events } else a)) [
              | true ↦ record {
                table = fb.table;
                size = fb.size ∙ fa.size;
                balance = omega (arith, fa.balance, fb.balance);
              }
              | false ↦ fa
            ]
