-- ===== src/Room/Geometry.antt =====
-- internal/room/combat.go: directions, and rays against wall boxes and spheres.
use mathlib.Core.Option.{Option, none, some}
use lurkspire.Prelude.{List, [], ◌∷◌, ◌&&◌, ◌||◌, if◌then◌else◌}
use lurkspire.Protocol.Battle.{F32}
use lurkspire.Room.Float.{FloatOps, zero_f, minus_one, two_f, inf, neg_inf, pi, half_turn}
use lurkspire.Room.MapData.{WallBox}

pub record Vec3 : Type 0 where
  pub x : F32
  pub y : F32
  pub z : F32

module _ (ops : FloatOps) where
  open ops use {add, sub, mul, div, lt, sqrt, sin, cos, is_tiny}

  abbrev pub radians : F32 → F32
  radians deg = div (mul deg pi) half_turn

  unfoldable pub dir_from_angles : F32 → F32 → Vec3
  dir_from_angles yaw pitch =
      let yr = radians yaw in
      let pr = radians pitch in
      let cp = cos pr in record { x = mul cp (sin yr); y = sin pr; z = mul cp (cos yr) }

  -- One round of the loop of `rayAABB`: the interval cut to a slab, or `none` for its `return -1`.
  unfoldable pub slab : F32 → F32 → F32 → F32 → F32 × F32 → Option (F32 × F32)
  slab center half o d (tmin, tmax) =
      if is_tiny d
      then (if lt o (sub center half) || lt (add center half) o then none else some (tmin, tmax))
      else (let ta = div (sub (sub center half) o) d in
          let tb = div (sub (add center half) o) d in
          let t1 = if lt tb ta then tb else ta in
          let t2 = if lt tb ta then ta else tb in
          let tmin' = if lt tmin t1 then t1 else tmin in
          let tmax' = if lt t2 tmax then t2 else tmax in
          if lt tmax' tmin' then none else some (tmin', tmax'))

  abbrev slab_next : F32 → F32 → F32 → F32 → Option (F32 × F32) → Option (F32 × F32)
  slab_next center half o d none = none
  slab_next center half o d (some r) = slab center half o d r

  abbrev entry : Option (F32 × F32) → F32
  entry none = minus_one
  entry (some (tmin, tmax)) = if lt tmin zero_f then minus_one else tmin

  unfoldable pub ray_aabb : Vec3 → Vec3 → WallBox → F32
  unfolding slab
  ray_aabb o d w = entry (
      slab_next w.z (div w.d two_f) o.z d.z
        (slab_next w.y (div w.h two_f) o.y d.y (slab w.x (div w.w two_f) o.x d.x (neg_inf, inf))))

  unfoldable pub ray_sphere : Vec3 → Vec3 → Vec3 → F32 → F32
  ray_sphere o d s r =
      let px = sub s.x o.x in
      let py = sub s.y o.y in
      let pz = sub s.z o.z in
      let proj = add (add (mul px d.x) (mul py d.y)) (mul pz d.z) in
      let perp2 = sub (add (add (mul px px) (mul py py)) (mul pz pz)) (mul proj proj) in
      if lt proj zero_f
      then minus_one
      else if lt (mul r r) perp2
      then minus_one
      else sub proj (sqrt (sub (mul r r) perp2))

  -- The loop of `RaycastWalls`.
  unfoldable pub raycast_loop : Vec3 → Vec3 → F32 → List WallBox → F32
  raycast_loop o d best [] = best
  raycast_loop o d best (w ∷ walls) =
      let t = ray_aabb o d w in
      raycast_loop o d (if lt zero_f t && (lt best zero_f || lt t best) then t else best) walls

  unfoldable pub raycast_walls : List WallBox → Vec3 → Vec3 → F32
  raycast_walls walls o d = raycast_loop o d minus_one walls
