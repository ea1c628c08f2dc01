-- ===== src/Room/Player.antt =====
-- internal/room/room.go (Config, Player) and spawnpoints.go. A method that writes through `*Player`
-- returns the new record. Go's `int` fields are natural numbers: the code never takes one below 0.
use Prim.Native.Nat.{bit_and}
use lurkspire.Prelude.{ℕ, ◌%◌, List, [], ◌∷◌, Bool, ◌&&◌, not, ltb, ◌==◌, u16, get_or}
use lurkspire.Protocol.Battle.{F32, PlayerState}
use lurkspire.Room.Float.{FloatOps}

-- A setting below 0 counts as 0 everywhere, so the settings are natural numbers.
pub record Config : Type 0 where
  pub max_players : ℕ
  pub tick_hz : ℕ
  pub speed : F32
  pub spawn_range : F32
  pub settle_score : ℕ
  pub settle_ticks : ℕ
  pub reconnect_grace_ticks : ℕ

pub record Player : Type 0 where
  pub uid : ℕ
  pub x : F32
  pub y : F32
  pub z : F32
  pub yaw : F32
  pub hp : ℕ
  pub weapon : ℕ
  pub alt : ℕ
  pub block : F32
  pub block_max : F32
  pub anim : ℕ
  pub last_report_tick : ℕ
  pub suspicious : ℕ
  pub first_report : Bool
  pub online : Bool
  pub offline_ticks : ℕ
  pub score : ℕ
  pub deaths : ℕ
  pub aim_x : F32
  pub aim_y : F32
  pub buttons : ℕ
  pub fire_cd : ℕ
  pub dead_ticks : ℕ
  pub just_died : Bool
  pub lock_charges : ℕ
  pub lock_timer : F32
  pub lock_cd : ℕ
  pub sword_cd : ℕ
  pub dash_cd : ℕ

-- `map[uint32]*Player`
abbrev pub Players : Type 0
Players = List (ℕ × Player)

abbrev pub btn_fire : ℕ
btn_fire = 1

abbrev pub btn_sword : ℕ
btn_sword = 2

abbrev pub btn_block : ℕ
btn_block = 4

abbrev pub btn_dash_atk : ℕ
btn_dash_atk = 32

abbrev pub btn_lock : ℕ
btn_lock = 128

-- `buttons & btn != 0`
abbrev pub pressed : ℕ → ℕ → Bool
pressed buttons btn = not (bit_and buttons btn == 0)

-- 10
abbrev pub combat_block_min : F32
combat_block_min = 0x41200000

-- 100
abbrev pub base_block_max : F32
base_block_max = 0x42c80000

unfoldable pub blocking : FloatOps → Player → Bool
blocking ops p = pressed p.buttons btn_block && ops.le combat_block_min p.block

abbrev pub dead : Player → Bool
dead p = ltb 0 p.dead_ticks

unfoldable pub snapshot : Player → PlayerState
snapshot p = record {
  uid = p.uid;
  x = p.x;
  y = p.y;
  z = p.z;
  yaw = p.yaw;
  hp = p.hp;
  weapon = p.weapon;
  alt = p.alt;
  block = p.block;
  anim = p.anim;
  score = u16 p.score;
  deaths = u16 p.deaths;
}

pub record SpawnPoint : Type 0 where
  pub x : F32
  pub y : F32
  pub z : F32

abbrev point : F32 → F32 → F32 → SpawnPoint
point x y z = record { x = x; y = y; z = z }

abbrev pub spawn_points : List SpawnPoint
spawn_points =
    point 0x438e0000 0x00000000 0x425c0000
    ∷ point 0x43888000 0x00000000 0x43250000
    ∷ point 0x433c0000 0x42000000 0x42c00000
    ∷ point 0x433f0000 0x00000000 0x42fc0000
    ∷ point 0x42de0000 0x00000000 0x427c0000
    ∷ point 0x430f0000 0x00000000 0x43250000
    ∷ point 0x43420000 0x00000000 0x42980000
    ∷ point 0x437e0000 0x00000000 0x42aa0000
    ∷ point 0x430f0000 0x41840000 0x42b80000
    ∷ point 0x43830000 0x41480000 0x43070000
    ∷ []

-- `rand.Intn(len(SpawnPoints))` of a drawn number.
unfoldable pub pick_spawn : ℕ → SpawnPoint
pick_spawn draw = get_or spawn_points (draw % 10) (point 0 0 0)
