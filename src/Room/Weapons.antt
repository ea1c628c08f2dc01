-- ===== src/Room/Weapons.antt =====
-- internal/room/combat.go: the four weapon actions.
pub mod Search
pub mod Nearest
pub mod Blades
pub mod Effects
pub mod Reach
use lurkspire.Prelude.{
  ℕ, ◌-◌, List, [], ◌∷◌, Option, none, some, Bool, true, false, ◌&&◌, ◌||◌, not, if◌then◌else◌, ltb,
  ◌==◌, lookup, insert, nat_key,
}
use lurkspire.Protocol.Battle.{F32, HitEvent}
use lurkspire.Room.Float.{FloatOps, zero_f, minus_one, one_f, two_f, inf, eye_y}
use lurkspire.Room.MapData.{WallBox}
use lurkspire.Room.Player.{Player, Players, dead}
use lurkspire.Room.Geometry.{Vec3, radians, dir_from_angles, ray_sphere, raycast_walls}
use lurkspire.Room.Hit.{Hit, Action, no_action, hit, hit_best}

abbrev pub gun_damage : ℕ
gun_damage = 25

abbrev pub sword_damage : ℕ
sword_damage = 50

abbrev pub dash_damage : ℕ
dash_damage = 50

abbrev pub lock_damage : ℕ
lock_damage = 50

-- float32 of 40, 3, 6 and 60.
abbrev pub gun_range : F32
gun_range = 0x42200000

abbrev pub sword_range : F32
sword_range = 0x40400000

abbrev pub dash_range : F32
dash_range = 0x40c00000

abbrev pub lock_range : F32
lock_range = 0x42700000

-- The cosines of 60, 30 and 20 degrees, as float32.
abbrev pub sword_arc : F32
sword_arc = 0x3f000000

abbrev pub dash_arc : F32
dash_arc = 0x3f5db3d7

abbrev pub lock_arc : F32
lock_arc = 0x3f708fb2

abbrev pub fire_cooldown_ticks : ℕ
fire_cooldown_ticks = 4

abbrev pub player_radius : F32
player_radius = one_f

-- A target that a search has found, and its distance.
abbrev pub Best : Type 0
Best = Option (ℕ × Player) × F32

-- The state of a blade's loop.
pub record Sweep : Type 0 where
  pub shooter : Player
  pub rest : Players
  pub events : List HitEvent

module _ (ops : FloatOps) where
  open ops use {add, sub, mul, div, lt, le, sqrt, abs, sin, cos}

  abbrev pub center : Player → Vec3
  center p = record { x = p.x; y = add p.y one_f; z = p.z }

  abbrev pub shot_distance : Vec3 → Vec3 → Player → F32
  shot_distance o d p = ray_sphere ops o d (center p) player_radius

  -- One round of the loop of `ApplyShot` over the players.
  unfoldable pub shot_step : ℕ → Vec3 → Vec3 → Best → ℕ × Player → Best
  shot_step sid o d best kp =
      let t = shot_distance o d kp.1 in
      if kp.0 == sid || dead kp.1
      then best
      else if lt zero_f t && (le t gun_range && (lt best.1 zero_f || lt t best.1))
      then (some kp, t)
      else best

  unfoldable pub shot_loop : ℕ → Vec3 → Vec3 → Best → Players → Best
  unfolding shot_step
  shot_loop sid o d best [] = best
  shot_loop sid o d best (kp ∷ ps) = shot_loop sid o d (shot_step sid o d best kp) ps

  -- What the gun hits: the nearest player on the ray, if no wall is nearer.
  unfoldable pub shot_target : List WallBox → ℕ → Player → Players → Option (ℕ × Player)
  shot_target walls sid shooter ps =
      let o : Vec3 = record { x = shooter.x; y = add shooter.y eye_y; z = shooter.z } in
      let d = dir_from_angles ops shooter.aim_x shooter.aim_y in
      let wall_t = raycast_walls ops walls o d in
      let (best, best_t) = shot_loop sid o d (none, minus_one) ps in
      if lt zero_f wall_t && lt wall_t best_t then none else best

  abbrev pub fire : List WallBox → ℕ → Player → Players → Action
  fire walls sid shooter ps =
      if dead shooter || ltb 0 shooter.fire_cd
      then no_action ps
      else hit_best ops sid (record shooter { fire_cd = fire_cooldown_ticks }) ps gun_damage
          (shot_target walls sid shooter ps)

  unfoldable pub apply_shot : List WallBox → ℕ → Players → Action
  apply_shot walls sid ps = elim (lookup sid ps) [
    | none ↦ no_action ps
    | some shooter ↦ fire walls sid shooter ps
  ]

  -- The tests of a blade's loop: near enough, at most 2 m higher or lower, inside the arc.
  unfoldable pub in_reach : F32 → F32 → Player → Player → Bool
  in_reach range arc shooter p =
      let ex = sub p.x shooter.x in
      let ez = sub p.z shooter.z in
      let dist = sqrt (add (mul ex ex) (mul ez ez)) in
      let yaw = radians ops shooter.yaw in
      let dot = div (add (mul ex (sin yaw)) (mul ez (cos yaw))) dist in
      not (lt range dist) && (not (lt two_f (abs (sub p.y shooter.y))) && not (lt dot arc))

  -- The loop of `ApplySword` and `ApplyDash`: every player in reach is hit, in the table's order.
  -- The shooter goes through the loop and is written back at its end.
  unfoldable pub sweep : F32 → F32 → ℕ → ℕ → Player → Players → Sweep
  unfolding hit
  sweep range arc dmg sid shooter [] = record { shooter = shooter; rest = []; events = [] }
  sweep range arc dmg sid shooter ((k, p) ∷ ps) =
      elim (not (k == sid || dead p) && in_reach range arc shooter p) [
        | false ↦
            let r = sweep range arc dmg sid shooter ps in
            record { shooter = r.shooter; rest = (k, p) ∷ r.rest; events = r.events }
        | true ↦
            let h = hit ops shooter p dmg in
            let r = sweep range arc dmg sid h.shooter ps in
            record {
              shooter = r.shooter;
              rest = (k, h.target) ∷ r.rest;
              events = h.event ∷ r.events;
            }
      ]

  abbrev pub strike : F32 → F32 → ℕ → ℕ → Player → Players → Action
  strike range arc dmg sid shooter ps =
      let r = sweep range arc dmg sid shooter ps in
      record { players = insert sid r.shooter r.rest; events = r.events }

  abbrev pub swing : ℕ → Player → Players → Action
  swing sid shooter ps =
      if dead shooter || ltb 0 shooter.sword_cd
      then no_action ps
      else strike sword_range sword_arc sword_damage sid (record shooter { sword_cd = 8 }) ps

  abbrev pub dash : ℕ → Player → Players → Action
  dash sid shooter ps =
      if dead shooter || ltb 0 shooter.dash_cd
      then no_action ps
      else strike dash_range dash_arc dash_damage sid (record shooter { dash_cd = 45 }) ps

  unfoldable pub apply_sword : ℕ → Players → Action
  apply_sword sid ps = elim (lookup sid ps) [
    | none ↦ no_action ps
    | some shooter ↦ swing sid shooter ps
  ]

  unfoldable pub apply_dash : ℕ → Players → Action
  apply_dash sid ps = elim (lookup sid ps) [
    | none ↦ no_action ps
    | some shooter ↦ dash sid shooter ps
  ]

  -- The vector of `ApplyLock` from the shooter to a player.
  abbrev pub to_target : Player → Player → Vec3
  to_target shooter p = record {
    x = sub p.x shooter.x;
    y = sub (add p.y one_f) shooter.y;
    z = sub p.z shooter.z;
  }

  abbrev pub norm : Vec3 → F32
  norm v = sqrt (add (add (mul v.x v.x) (mul v.y v.y)) (mul v.z v.z))

  abbrev pub dot : Vec3 → Vec3 → F32
  dot a b = add (add (mul a.x b.x) (mul a.y b.y)) (mul a.z b.z)

  -- One round of the loop of `ApplyLock` over the players.
  unfoldable pub lock_step : ℕ → Player → Vec3 → Best → ℕ × Player → Best
  lock_step sid shooter d best kp =
      let e = to_target shooter kp.1 in
      let r = norm e in
      if kp.0 == sid || dead kp.1
      then best
      else if (le r lock_range && lt r best.1) && le lock_arc (div (dot e d) r)
      then (some kp, r)
      else best

  unfoldable pub lock_loop : ℕ → Player → Vec3 → Best → Players → Best
  unfolding lock_step
  lock_loop sid shooter d best [] = best
  lock_loop sid shooter d best (kp ∷ ps) =
      lock_loop sid shooter d (lock_step sid shooter d best kp) ps

  unfoldable pub lock_target : ℕ → Player → Players → Option (ℕ × Player)
  lock_target sid shooter ps =
      (lock_loop sid shooter (dir_from_angles ops shooter.aim_x shooter.aim_y) (none, inf) ps).0

  abbrev pub lock : ℕ → Player → Players → Action
  lock sid shooter ps =
      if dead shooter || (shooter.lock_charges == 0 || ltb 0 shooter.lock_cd)
      then no_action ps
      else hit_best ops sid
          (record shooter { lock_charges = shooter.lock_charges - 1; lock_cd = 30 }) ps lock_damage
          (lock_target sid shooter ps)

  unfoldable pub apply_lock : ℕ → Players → Action
  apply_lock sid ps = elim (lookup sid ps) [
    | none ↦ no_action ps
    | some shooter ↦ lock sid shooter ps
  ]
