-- ===== src/Room/Weapons/Blades.antt =====
-- internal/room/combat.go: what the loop of a blade does to the table.
use lurkspire.Prelude.{
  ℕ, ◌+◌, ◌≡◌, refl, ◌∙◌, [], ◌∷◌, none, Bool, false, ◌&&◌, ◌||◌, not, arith, ◌==◌, All, Bool-cases,
  inl, inr, lookup, nat_key, IsMap, length,
}
use lurkspire.Protocol.Battle.{F32}
use lurkspire.Room.Float.{FloatOps}
use lurkspire.Room.Player.{Player, Players, dead}
use lurkspire.Room.Hit.{hit}
use lurkspire.Room.Hit.Damage.{hit_balance, hit-IsPlayer}
use lurkspire.Room.Weapons.{sweep, in_reach}
use lurkspire.Room.Invariant.{IsPlayer, IsEntry, IsTable}
use lurkspire.Room.Table.{total}

module _ (ops : FloatOps) (range arc : F32) (dmg sid : ℕ) where
  -- Whether the loop hits an entry.
  abbrev pub struck : Player → ℕ × Player → Bool
  struck s kp = not (kp.0 == sid || dead kp.1) && in_reach ops range arc s kp.1

  -- The loop leaves the shooter's own entry, and no key comes or goes.
  pub lookup-sweep :
      (ps : Players) (s : Player)
      → (lookup sid (sweep ops range arc dmg sid s ps).rest ≡ lookup sid ps)
  unfolding sweep lookup
  lookup-sweep [] s = refl
  lookup-sweep ((k, p) ∷ ps) s =
      ground (arith, lookup-sweep ps s, lookup-sweep ps (hit ops s p dmg).shooter)

  pub length-sweep :
      (ps : Players) (s : Player) → length (sweep ops range arc dmg sid s ps).rest ≡ length ps
  unfolding sweep
  length-sweep [] s = refl
  length-sweep ((k, p) ∷ ps) s =
      ground (arith, length-sweep ps s, length-sweep ps (hit ops s p dmg).shooter)

  lookup-sweep-none :
      (j : ℕ) (ps : Players) (s : Player)
      → lookup j ps ≡ none
      → lookup j (sweep ops range arc dmg sid s ps).rest ≡ none
  unfolding sweep lookup
  lookup-sweep-none j [] s h = refl
  lookup-sweep-none j ((k, p) ∷ ps) s h =
      ground (arith, lookup-sweep-none j ps s, lookup-sweep-none j ps (hit ops s p dmg).shooter)

  sweep-IsMap :
      (ps : Players) (s : Player) → IsMap ps → IsMap (sweep ops range arc dmg sid s ps).rest
  unfolding sweep
  sweep-IsMap [] s h = tt
  sweep-IsMap ((k, p) ∷ ps) s h = ground (
    arith,
    lookup-sweep-none k ps s h.0,
    lookup-sweep-none k ps (hit ops s p dmg).shooter h.0,
    sweep-IsMap ps s h.1,
    sweep-IsMap ps (hit ops s p dmg).shooter h.1,
  )

  -- Points of the shooter and deaths of the others grow alike.
  pub sweep_balance :
      (ps : Players) (s : Player)
      → let r = sweep ops range arc dmg sid s ps in
        (r.shooter.score + total (λ p. p.deaths) ps ≡ s.score + total (λ p. p.deaths) r.rest)
        × (total (λ p. p.score) r.rest ≡ total (λ p. p.score) ps)
        × (r.shooter.deaths ≡ s.deaths)
        × (r.shooter.uid ≡ s.uid)
  unfolding sweep
  sweep_balance [] s = (refl, refl, refl, refl)
  sweep_balance ((k, p) ∷ ps) s = ground (
    arith,
    hit_balance ops s p dmg,
    sweep_balance ps s,
    sweep_balance ps (hit ops s p dmg).shooter,
  )

  sweep-IsPlayer :
      (grace : ℕ) (ps : Players) (s : Player)
      → IsPlayer grace s
      → All (IsEntry grace) ps
      → let r = sweep ops range arc dmg sid s ps in
        IsPlayer grace r.shooter × All (IsEntry grace) r.rest
  unfolding sweep
  sweep-IsPlayer grace [] s hs a = (hs, tt)
  sweep-IsPlayer grace ((k, p) ∷ ps) s hs ((uid_ok, hp), a) = elim (Bool-cases (struck s (k, p))) [
    | inl e ↦
        let alive : dead p ≡ false = ground arith in
        let (hs', hp') = hit-IsPlayer ops grace s p dmg hs hp alive in
        let (hs'', a') = sweep-IsPlayer grace ps (hit ops s p dmg).shooter hs' a in
        rw (e, sweep) (hs'', (((hit_balance ops s p dmg).4 ∙ uid_ok, hp'), a'))
    | inr e ↦
        let (hs', a') = sweep-IsPlayer grace ps s hs a in rw (e, sweep) (hs', ((uid_ok, hp), a'))
  ]

  -- The table that the loop leaves is in order, and so is the shooter.
  pub sweep-IsTable :
      (grace : ℕ) (ps : Players) (s : Player)
      → IsPlayer grace s
      → IsTable grace ps
      → let r = sweep ops range arc dmg sid s ps in IsPlayer grace r.shooter × IsTable grace r.rest
  sweep-IsTable grace ps s hs t =
      let (hs', a) = sweep-IsPlayer grace ps s hs t.entries in
      (hs', record { distinct = sweep-IsMap ps s t.distinct; entries = a })
