-- ===== src/Room/Validation.antt =====
-- internal/room/validation.go: whether a report is taken over.
use lurkspire.Prelude.{ℕ, ◌+◌, Bool, true, false, ◌&&◌, ◌||◌, not, if◌then◌else◌, leb, ◌==◌}
use lurkspire.Protocol.Battle.{F32, InputReport}
use lurkspire.Room.Float.{FloatOps, valid_float}
use lurkspire.Room.Player.{Player, dead}

-- 1.7 and 4
abbrev pub max_horz_step : F32
max_horz_step = 0x3fd9999a

abbrev pub max_vert_step : F32
max_vert_step = 0x40800000

abbrev pub max_suspicious : ℕ
max_suspicious = 3

-- `m < -1 || m > 1` of the int8 that a byte stores.
abbrev pub out_of_range : ℕ → Bool
out_of_range m = not (m == 255 || (m == 0 || m == 1))

abbrev pub floats_valid : InputReport → Bool
floats_valid r =
    valid_float r.yaw
    && (valid_float r.aim_x
        && (valid_float r.aim_y && (valid_float r.x && (valid_float r.y && valid_float r.z))))

-- The horizontal and the vertical step from the player's position to the reported one.
abbrev pub horz_step : FloatOps → Player → InputReport → F32
horz_step ops p r =
    let dx = ops.sub r.x p.x in
    let dz = ops.sub r.z p.z in ops.sqrt (ops.add (ops.mul dx dx) (ops.mul dz dz))

abbrev pub vert_step : FloatOps → Player → InputReport → F32
vert_step ops p r = ops.abs (ops.sub r.y p.y)

unfoldable pub check_move : FloatOps → Player → InputReport → Bool
check_move ops p r =
    if out_of_range r.move_x || out_of_range r.move_y
    then false
    else if not (floats_valid r)
    then false
    else if p.first_report || dead p
    then true
    else not (ops.lt max_horz_step (horz_step ops p r) || ops.lt max_vert_step (vert_step ops p r))

unfoldable pub mark_violation : Player → Bool → Player
mark_violation p ok =
    if ok then record p { suspicious = 0 } else record p { suspicious = p.suspicious + 1 }

unfoldable pub is_suspicious : Player → Bool
is_suspicious p = leb max_suspicious p.suspicious

unfoldable pub apply_input : Player → InputReport → Player
apply_input p r = record p { x = r.x; y = r.y; z = r.z; yaw = r.yaw; first_report = false }
