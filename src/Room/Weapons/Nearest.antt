-- ===== src/Room/Weapons/Nearest.antt =====
-- internal/room/combat.go: the search of `ApplyShot` through the players, `shot_loop` here.
use lurkspire.Prelude.{
  ℕ, ◌≡◌, refl, [], ◌∷◌, none, some, Bool, true, false, ◌&&◌, ◌||◌, not, arith, ◌==◌, All,
}
use lurkspire.Protocol.Battle.{F32}
use lurkspire.Room.Float.{FloatOps, zero_f, minus_one}
use lurkspire.Room.Player.{Player, Players, dead}
use lurkspire.Room.Geometry.{Vec3}
use lurkspire.Room.Weapons.{Best, gun_range, shot_distance, shot_step, shot_loop}

-- What IEEE 754 promises of `<` on all float32 numbers, NaN included: nothing is below itself, it
-- is transitive, and -1 is below 0.
pub record FloatOrder (ops : FloatOps) : Type 0 where
  pub irrefl : (a : F32) → ops.lt a a ≡ false
  pub trans : (a b c : F32) → ops.lt a b ≡ true → ops.lt b c ≡ true → ops.lt a c ≡ true
  pub minus_one_lt_zero : ops.lt minus_one zero_f ≡ true

module _ (ops : FloatOps) (order : FloatOrder ops) (sid : ℕ) (o d : Vec3) where
  abbrev pub distance : Player → F32
  distance p = shot_distance ops o d p

  -- Whether the ray reaches a living player other than the shooter within the gun's range.
  abbrev pub is_hittable : ℕ × Player → Bool
  is_hittable kp =
      not (kp.0 == sid || dead kp.1)
      && (ops.lt zero_f (distance kp.1) && ops.le (distance kp.1) gun_range)

  -- Whether a player should have been taken instead of what a search holds.
  abbrev pub beats : Best → ℕ × Player → Bool
  beats (none, t) kp = is_hittable kp
  beats (some q, t) kp = is_hittable kp && ops.lt (distance kp.1) (distance q.1)

  -- The state of the search: nothing found yet, or a player whom the ray reaches.
  abbrev pub IsSearch : Best → Type 0
  IsSearch (none, t) = t ≡ minus_one
  IsSearch (some q, t) = (t ≡ distance q.1) × (is_hittable q ≡ true)

  shot_step-IsSearch :
      (best : Best) (kp : ℕ × Player) → IsSearch best → IsSearch (shot_step ops sid o d best kp)
  unfolding shot_step
  shot_step-IsSearch (none, t) kp h = ground arith
  shot_step-IsSearch (some q, t) kp h = ground arith

  beats_self-shot_step :
      (best : Best) (kp : ℕ × Player)
      → IsSearch best
      → beats (shot_step ops sid o d best kp) kp ≡ false
  unfolding shot_step
  beats_self-shot_step (none, t) kp h =
      ground (arith, order.irrefl (distance kp.1), order.minus_one_lt_zero)
  beats_self-shot_step (some q, t) kp h = ground (arith, order.irrefl (distance kp.1))

  beats-shot_step :
      (best : Best) (kp q : ℕ × Player)
      → IsSearch best
      → beats best q ≡ false
      → beats (shot_step ops sid o d best kp) q ≡ false
  unfolding shot_step
  beats-shot_step (none, t) kp q h b = ground arith
  beats-shot_step (some r, t) kp q h b = ground (
    arith,
    order.irrefl zero_f,
    order.trans zero_f (distance r.1) zero_f,
    order.trans (distance q.1) (distance kp.1) (distance r.1),
  )

  beats-shot_loop :
      (ps : Players) (best : Best) (q : ℕ × Player)
      → IsSearch best
      → beats best q ≡ false
      → beats (shot_loop ops sid o d best ps) q ≡ false
  unfolding shot_loop
  beats-shot_loop [] best q h b = b
  beats-shot_loop (kp ∷ ps) best q h b =
      beats-shot_loop ps _ q (shot_step-IsSearch best kp h) (beats-shot_step best kp q h b)

  shot_loop-All_beats :
      (ps : Players) (best : Best)
      → IsSearch best
      → All (λ kp. beats (shot_loop ops sid o d best ps) kp ≡ false) ps
  unfolding shot_loop
  shot_loop-All_beats [] best h = tt
  shot_loop-All_beats (kp ∷ ps) best h =
      let next : IsSearch (shot_step ops sid o d best kp) = shot_step-IsSearch best kp h in
      (beats-shot_loop ps _ kp next (beats_self-shot_step best kp h), shot_loop-All_beats ps _ next)

  shot_loop-IsSearch :
      (ps : Players) (best : Best) → IsSearch best → IsSearch (shot_loop ops sid o d best ps)
  unfolding shot_loop
  shot_loop-IsSearch [] best h = h
  shot_loop-IsSearch (kp ∷ ps) best h = shot_loop-IsSearch ps _ (shot_step-IsSearch best kp h)

  -- The gun's search ends with a player whom the ray reaches, if there is one, and no player whom
  -- the ray reaches is nearer; it holds that player's distance, and -1 if it found nobody.
  pub shot_loop_nearest :
      (ps : Players)
      → let best = shot_loop ops sid o d (none, minus_one) ps in
        IsSearch best × All (λ kp. beats best kp ≡ false) ps
  shot_loop_nearest ps =
      (shot_loop-IsSearch ps (none, minus_one) refl, shot_loop-All_beats ps (none, minus_one) refl)
