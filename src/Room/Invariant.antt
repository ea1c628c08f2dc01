-- ===== src/Room/Invariant.antt =====
-- internal/room: what holds of every player of a room between two messages.
use lurkspire.Prelude.{ℕ, ◌≤◌, ◌<◌, ◌≡◌, ◌⊎◌, false, All}
use lurkspire.Prelude.{IsMap, nat_key}
use lurkspire.Room.Player.{Player, Players}

-- `grace` is the number of ticks after which an offline player is removed.
pub record IsPlayer (grace : ℕ) (p : Player) : Type 0 where
  pub hp_max : p.hp ≤ 100
  pub life : ((p.dead_ticks ≡ 0) × (0 < p.hp)) ⊎ ((0 < p.dead_ticks) × (p.hp ≡ 0))
  pub dead_max : p.dead_ticks ≤ 60
  pub fire_max : p.fire_cd ≤ 4
  pub sword_max : p.sword_cd ≤ 8
  pub dash_max : p.dash_cd ≤ 45
  pub lock_max : p.lock_cd ≤ 30
  pub charge_max : p.lock_charges ≤ 3
  pub presence : (p.online ≡ false) ⊎ (p.offline_ticks ≡ 0)
  pub offline_max : p.offline_ticks < grace

-- An entry of the table: filed under its id, and in order.
abbrev pub IsEntry : ℕ → ℕ × Player → Type 0
IsEntry grace kp = (kp.1.uid ≡ kp.0) × IsPlayer grace kp.1

pub record IsTable (grace : ℕ) (ps : Players) : Type 0 where
  pub distinct : IsMap ps
  pub entries : All (IsEntry grace) ps
