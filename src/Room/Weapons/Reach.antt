-- ===== src/Room/Weapons/Reach.antt =====
-- internal/room/combat.go: the loop of the blades, and the test of every weapon on a dead shooter.
use lurkspire.Prelude.{ℕ, ◌≡◌, List, [], ◌∷◌, some, true, arith, if◌then◌else◌, lookup, nat_key}
use lurkspire.Protocol.Battle.{F32}
use lurkspire.Room.Float.{FloatOps}
use lurkspire.Room.MapData.{WallBox}
use lurkspire.Room.Player.{Player, Players, dead}
use lurkspire.Room.Hit.{no_action}
use lurkspire.Room.Weapons.{apply_shot, apply_sword, apply_dash, apply_lock}
use lurkspire.Room.Weapons.Blades.{struck}
use lurkspire.Room.Loop.Input.{primary, secondary, weapons}

module _ (ops : FloatOps) (range arc : F32) (dmg sid : ℕ) where
  -- The ids of the players that a blade reaches from where the shooter stands.
  abbrev pub reached : Player → Players → List ℕ
  reached s [] = []
  reached s (kp ∷ ps) =
      let rest = reached s ps in if struck ops range arc dmg sid s kp then kp.1.uid ∷ rest else rest

module _ (ops : FloatOps) (sid : ℕ) (ps : Players) {p : Player} (own : lookup sid ps ≡ some p)
    (is_dead : dead p ≡ true) where
  -- The weapons of a dead player do nothing, whatever the buttons.
  pub weapons_dead :
      (walls : List WallBox) (buttons : ℕ) → weapons ops walls sid buttons ps ≡ no_action ps
  unfolding weapons primary secondary apply_shot apply_sword apply_dash apply_lock
  weapons_dead walls buttons = ground arith
