-- ===== src/Room/Float.antt =====
-- The float32 arithmetic that internal/room uses. A float32 is its IEEE 754 bit pattern, and its
-- constants are bit patterns; the operations on it are a parameter of the model.
use lurkspire.Prelude.{◌/◌, ◌%◌, Bool, not, ◌==◌}
use lurkspire.Protocol.Battle.{F32}

-- Go's operators on float32, and the functions of package math as the source calls them: on the
-- argument as a float64, with the result cut back to float32.
pub record FloatOps : Type 0 where
  pub add : F32 → F32 → F32
  pub sub : F32 → F32 → F32
  pub mul : F32 → F32 → F32
  pub div : F32 → F32 → F32
  pub lt : F32 → F32 → Bool
  pub le : F32 → F32 → Bool
  pub sqrt : F32 → F32
  pub abs : F32 → F32
  pub sin : F32 → F32
  pub cos : F32 → F32
  -- `math.Abs(float64(d)) < 1e-9`
  pub is_tiny : F32 → Bool

-- Neither NaN nor an infinity: the exponent is not all ones.
abbrev pub valid_float : F32 → Bool
valid_float f = not (f / 8388608 % 256 == 255)

-- 0
abbrev pub zero_f : F32
zero_f = 0x00000000

-- 0.5
abbrev pub half : F32
half = 0x3f000000

-- 1
abbrev pub one_f : F32
one_f = 0x3f800000

-- -1
abbrev pub minus_one : F32
minus_one = 0xbf800000

-- 1.5
abbrev pub eye_y : F32
eye_y = 0x3fc00000

-- 2
abbrev pub two_f : F32
two_f = 0x40000000

-- +Inf
abbrev pub inf : F32
inf = 0x7f800000

-- -Inf
abbrev pub neg_inf : F32
neg_inf = 0xff800000

-- math.Pi
abbrev pub pi : F32
pi = 0x40490fdb

-- 180
abbrev pub half_turn : F32
half_turn = 0x43340000
