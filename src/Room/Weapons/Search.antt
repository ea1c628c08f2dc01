-- ===== src/Room/Weapons/Search.antt =====
-- internal/room/combat.go: the targets that the loops of `ApplyShot` and `ApplyLock` choose.
use lurkspire.Prelude.{ℕ, List, [], ◌∷◌, Option, none, Bool, true, false, arith, if◌then◌else◌, All}
use lurkspire.Room.Float.{FloatOps, minus_one, inf}
use lurkspire.Room.MapData.{WallBox}
use lurkspire.Room.Player.{Player, Players}
use lurkspire.Room.Geometry.{Vec3}
use lurkspire.Room.Weapons.{
  Best, shot_step, shot_loop, shot_target, lock_step, lock_loop, lock_target,
}
use lurkspire.Room.Table.{IsChosen}

module _ (ops : FloatOps) (P : ℕ × Player → Type 0) (sid : ℕ) where
  shot_step-IsChosen :
      (o d : Vec3) (best : Best) (kp : ℕ × Player)
      → P kp
      → IsChosen P sid best.0
      → IsChosen P sid (shot_step ops sid o d best kp).0
  unfolding shot_step
  shot_step-IsChosen o d best kp h c = ground arith

  shot_loop-IsChosen :
      (o d : Vec3) (ps : Players) (best : Best)
      → All P ps
      → IsChosen P sid best.0
      → IsChosen P sid (shot_loop ops sid o d best ps).0
  unfolding shot_loop
  shot_loop-IsChosen o d [] best a c = c
  shot_loop-IsChosen o d (kp ∷ ps) best a c =
      shot_loop-IsChosen o d ps (shot_step ops sid o d best kp) a.1
        (shot_step-IsChosen o d best kp a.0 c)

  IsChosen-unless :
      (b : Bool) (found : Option (ℕ × Player))
      → IsChosen P sid found
      → IsChosen P sid (if b then none else found)
  IsChosen-unless true found c = tt
  IsChosen-unless false found c = c

  -- The gun's target is an entry of the table, alive, and not the shooter's.
  pub shot_target-IsChosen :
      (walls : List WallBox) (shooter : Player) (ps : Players)
      → All P ps
      → IsChosen P sid (shot_target ops walls sid shooter ps)
  unfolding shot_target
  shot_target-IsChosen walls shooter ps a =
      IsChosen-unless _ _ (shot_loop-IsChosen _ _ ps (none, minus_one) a tt)

  lock_step-IsChosen :
      (shooter : Player) (d : Vec3) (best : Best) (kp : ℕ × Player)
      → P kp
      → IsChosen P sid best.0
      → IsChosen P sid (lock_step ops sid shooter d best kp).0
  unfolding lock_step
  lock_step-IsChosen shooter d best kp h c = ground arith

  lock_loop-IsChosen :
      (shooter : Player) (d : Vec3) (ps : Players) (best : Best)
      → All P ps
      → IsChosen P sid best.0
      → IsChosen P sid (lock_loop ops sid shooter d best ps).0
  unfolding lock_loop
  lock_loop-IsChosen shooter d [] best a c = c
  lock_loop-IsChosen shooter d (kp ∷ ps) best a c =
      lock_loop-IsChosen shooter d ps (lock_step ops sid shooter d best kp) a.1
        (lock_step-IsChosen shooter d best kp a.0 c)

  -- So is the lock's.
  pub lock_target-IsChosen :
      (shooter : Player) (ps : Players) → All P ps → IsChosen P sid (lock_target ops sid shooter ps)
  unfolding lock_target
  lock_target-IsChosen shooter ps a = lock_loop-IsChosen shooter _ ps (none, inf) a tt
