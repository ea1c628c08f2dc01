-- ===== src/Room/Hit.antt =====
-- internal/room/combat.go, `Combat.hit`: what a hit does to the shooter and the target. The table of
-- players holds pointers: an action reads the shooter by id and writes it and its targets back.
pub mod Damage
use lurkspire.Prelude.{
  ℕ, ◌+◌, ◌-◌, ◌/◌, List, [], ◌∷◌, Option, none, some, true, false, if◌then◌else◌, leb, ◌==◌,
  insert, nat_key,
}
use lurkspire.Protocol.Battle.{F32, HitEvent}
use lurkspire.Room.Float.{FloatOps, zero_f}
use lurkspire.Room.Player.{Player, Players, blocking}

-- 10
abbrev pub block_cost : F32
block_cost = 0x41200000

abbrev pub respawn_ticks : ℕ
respawn_ticks = 60

-- What a hit leaves: the shooter, the target and the event.
pub record Hit : Type 0 where
  pub shooter : Player
  pub target : Player
  pub event : HitEvent

-- What a weapon action leaves.
pub record Action : Type 0 where
  pub players : Players
  pub events : List HitEvent

abbrev pub no_action : Players → Action
no_action ps = record { players = ps; events = [] }

module _ (ops : FloatOps) where
  open ops use {sub, lt}

  -- `uint8(float32(dmg) * 0.5)`: the product of a number below 256 and 0.5 is exact, and the
  -- conversion drops the fraction.
  abbrev pub dealt : Player → ℕ → ℕ
  dealt target dmg = if blocking ops target then dmg / 2 else dmg

  abbrev pub block_left : Player → F32
  block_left target =
      if blocking ops target
      then (let left = sub target.block block_cost in if lt left zero_f then zero_f else left)
      else target.block

  -- `Combat.hit`. The callers never pass one player as both.
  unfoldable pub hit : Player → Player → ℕ → Hit
  hit shooter target dmg =
      let d = dealt target dmg in
      let lethal = leb target.hp d in
      let damage = if lethal then target.hp else d in
      let hp = if lethal then 0 else target.hp - d in
      let struck = record target { hp = hp; block = block_left target } in
      let event : HitEvent = record {
        shooter = shooter.uid;
        target = target.uid;
        damage = damage;
        headshot = false;
      } in
      if hp == 0
      then record {
        shooter = record shooter { score = shooter.score + 1 };
        target = record struck {
          deaths = target.deaths + 1;
          dead_ticks = respawn_ticks;
          just_died = true;
        };
        event = event;
      }
      else record { shooter = shooter; target = struck; event = event }

  -- A hit on the target that a search found; the shooter is written back in any case.
  unfoldable pub hit_best : ℕ → Player → Players → ℕ → Option (ℕ × Player) → Action
  hit_best sid shooter ps dmg none = record { players = insert sid shooter ps; events = [] }
  hit_best sid shooter ps dmg (some (tid, target)) =
      let h = hit shooter target dmg in
      record { players = insert sid h.shooter (insert tid h.target ps); events = h.event ∷ [] }
