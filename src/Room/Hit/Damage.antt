-- ===== src/Room/Hit/Damage.antt =====
-- internal/room/combat.go, `Combat.hit`: damage, block and death.
use lurkspire.Prelude.{
  ℕ, ◌+◌, ◌/◌, ◌≤◌, ◌<◌, ◌≡◌, ◌⊎◌, inl, inr, true, false, arith, if◌then◌else◌, leb, Bool-cases,
}
use lurkspire.Room.Float.{FloatOps}
use lurkspire.Room.Player.{Player, blocking, dead}
use lurkspire.Room.Hit.{hit, dealt}
use lurkspire.Room.Invariant.{IsPlayer}

module _ (ops : FloatOps) where
  -- The event tells what the target lost. That is at most the weapon's damage, or half of it,
  -- rounded down, from a target that blocks, and exactly this from a target that survives.
  pub hit_damage :
      (s t : Player) (dmg : ℕ)
      → let h = hit ops s t dmg in
        (h.event.damage + h.target.hp ≡ t.hp)
        × (h.event.damage ≤ (if blocking ops t then dmg / 2 else dmg))
        × ((h.target.hp ≡ 0) ⊎ (h.event.damage ≡ (if blocking ops t then dmg / 2 else dmg)))
        × (h.event.shooter ≡ s.uid)
        × (h.event.target ≡ t.uid)
  unfolding hit
  hit_damage s t dmg = (ground arith, ground arith, ground arith, ground arith, ground arith)

  -- A hit either deals at least the health that is left, and then the target has none, the shooter
  -- scores one and the target counts one death and 60 ticks to its respawn; or it deals less, and
  -- then the target lives and no score, death or timer changes.
  pub hit_kill :
      (s t : Player) (dmg : ℕ)
      → let h = hit ops s t dmg in
        ((t.hp ≤ dealt ops t dmg)
          × (h.target.hp ≡ 0)
          × (h.shooter.score ≡ s.score + 1)
          × (h.target.deaths ≡ t.deaths + 1)
          × (h.target.dead_ticks ≡ 60)
          × (h.target.just_died ≡ true))
        ⊎ ((dealt ops t dmg < t.hp)
            × (0 < h.target.hp)
            × (h.shooter ≡ s)
            × (h.target.deaths ≡ t.deaths)
            × (h.target.dead_ticks ≡ t.dead_ticks)
            × (h.target.just_died ≡ t.just_died))
  unfolding hit
  hit_kill s t dmg = elim (Bool-cases (leb t.hp (dealt ops t dmg))) [
    | inl k ↦
        inl (ground arith, ground arith, ground arith, ground arith, ground arith, ground arith)
    | inr k ↦
        inr (ground arith, ground arith, ground arith, ground arith, ground arith, ground arith)
  ]

  -- One hit moves a point and a death together, and keeps the ids.
  pub hit_balance :
      (s t : Player) (dmg : ℕ)
      → let h = hit ops s t dmg in
        (h.shooter.score + t.deaths ≡ s.score + h.target.deaths)
        × (h.target.score ≡ t.score)
        × (h.shooter.deaths ≡ s.deaths)
        × (h.shooter.uid ≡ s.uid)
        × (h.target.uid ≡ t.uid)
  unfolding hit
  hit_balance s t dmg = (ground arith, ground arith, ground arith, ground arith, ground arith)

  -- A hit keeps what holds of players.
  pub hit-IsPlayer :
      (grace : ℕ) (s t : Player) (dmg : ℕ)
      → IsPlayer grace s
      → IsPlayer grace t
      → dead t ≡ false
      → IsPlayer grace (hit ops s t dmg).shooter × IsPlayer grace (hit ops s t dmg).target
  unfolding hit
  hit-IsPlayer grace s t dmg hs ht alive = (ground arith, ground arith)
