-- ===== src/Room/Weapons/Effects.antt =====
-- internal/room/combat.go: what every weapon action keeps.
use lurkspire.Prelude.{
  ℕ, ◌+◌, ◌-◌, ◌≡◌, inl, inr, refl, ◌∙◌, List, Option, none, some, true, false, ◌||◌, arith, ◌==◌,
  ltb, if◌then◌else◌, All-lookup, All-lookup_self, lookup, insert, nat_key, lookup-insert, length,
  length-insert_old, Option-cases,
}
use lurkspire.Protocol.Battle.{F32}
use lurkspire.Room.Float.{FloatOps}
use lurkspire.Room.MapData.{WallBox}
use lurkspire.Room.Player.{Player, Players, dead}
use lurkspire.Room.Hit.{Action, no_action, hit, hit_best}
use lurkspire.Room.Hit.Damage.{hit_balance, hit-IsPlayer}
use lurkspire.Room.Weapons.{
  sweep, strike, fire, swing, dash, lock, apply_shot, apply_sword, apply_dash, apply_lock,
  shot_target, lock_target, gun_damage, sword_damage, dash_damage, lock_damage, sword_range,
  sword_arc, dash_range, dash_arc, fire_cooldown_ticks,
}
use lurkspire.Room.Weapons.Search.{shot_target-IsChosen, lock_target-IsChosen}
use lurkspire.Room.Weapons.Blades.{lookup-sweep, length-sweep, sweep_balance, sweep-IsTable}
use lurkspire.Room.Invariant.{IsPlayer, IsEntry, IsTable}
use lurkspire.Room.Table.{total, total-insert, insert-IsTable, IsChosen}

-- The table stays in order, nobody comes or goes, and points and deaths grow alike.
pub record IsFair (grace : ℕ) (ps : Players) (a : Action) : Type 0 where
  pub table : IsTable grace a.players
  pub size : length a.players ≡ length ps
  pub balance :
      total (λ p. p.score) a.players + total (λ p. p.deaths) ps
      ≡ total (λ p. p.score) ps + total (λ p. p.deaths) a.players

pub no_action-IsFair :
    (grace : ℕ) (ps : Players) → IsTable grace ps → IsFair grace ps (no_action ps)
no_action-IsFair grace ps t = record { table = t; size = refl; balance = refl }

module _ (ops : FloatOps) (grace sid : ℕ) where
  -- A hit on an entry that a search has found.
  hit_best-IsFair :
      (s s' : Player) (ps : Players) (dmg : ℕ) (found : Option (ℕ × Player))
      → IsTable grace ps
      → lookup sid ps ≡ some s
      → IsPlayer grace s'
      → s'.uid ≡ sid
      → s'.score ≡ s.score
      → s'.deaths ≡ s.deaths
      → IsChosen (λ kp. lookup kp.0 ps ≡ some kp.1) sid found
      → IsFair grace ps (hit_best ops sid s' ps dmg found)
  unfolding hit_best
  hit_best-IsFair s s' ps dmg none t e h u sc de c = record {
    table = insert-IsTable grace sid s' ps t u h;
    size = length-insert_old sid s' s ps e;
    balance = omega (
      arith,
      total-insert (λ p. p.score) sid s' s ps e,
      total-insert (λ p. p.deaths) sid s' s ps e,
    );
  }
  hit_best-IsFair s s' ps dmg (some (tid, target)) t e h u sc de (at_tid, other, alive) =
      let hh = hit ops s' target dmg in
      let (uid_ok, ht) = All-lookup (IsEntry grace) tid target ps t.entries at_tid in
      let (hs', ht') = hit-IsPlayer ops grace s' target dmg h ht alive in
      let (points, kept, kept', same, same') = hit_balance ops s' target dmg in
      let ps' : Players = insert tid hh.target ps in
      let t' : IsTable grace ps' = insert-IsTable grace tid hh.target ps t (same' ∙ uid_ok) ht' in
      let e' : lookup sid ps' ≡ some s = ground (arith, lookup-insert tid sid hh.target ps) in
      record {
        table = insert-IsTable grace sid hh.shooter ps' t' (same ∙ u) hs';
        size =
            length-insert_old sid hh.shooter s ps' e'
            ∙ length-insert_old tid hh.target target ps at_tid;
        balance = omega (
          arith,
          points,
          total-insert (λ p. p.score) tid hh.target target ps at_tid,
          total-insert (λ p. p.deaths) tid hh.target target ps at_tid,
          total-insert (λ p. p.score) sid hh.shooter s ps' e',
          total-insert (λ p. p.deaths) sid hh.shooter s ps' e',
        );
      }

  strike-IsFair :
      (range arc : F32) (dmg : ℕ) (s s' : Player) (ps : Players)
      → IsTable grace ps
      → lookup sid ps ≡ some s
      → IsPlayer grace s'
      → s'.uid ≡ sid
      → s'.score ≡ s.score
      → s'.deaths ≡ s.deaths
      → IsFair grace ps (strike ops range arc dmg sid s' ps)
  strike-IsFair range arc dmg s s' ps t e h u sc de =
      let r = sweep ops range arc dmg sid s' ps in
      let (hs', t') = sweep-IsTable ops range arc dmg sid grace ps s' h t in
      let (points, kept, kept', same) = sweep_balance ops range arc dmg sid ps s' in
      let e' : lookup sid r.rest ≡ some s = lookup-sweep ops range arc dmg sid ps s' ∙ e in
      record {
        table = insert-IsTable grace sid r.shooter r.rest t' (same ∙ u) hs';
        size =
            length-insert_old sid r.shooter s r.rest e' ∙ length-sweep ops range arc dmg sid ps s';
        balance = omega (
          arith,
          points,
          total-insert (λ p. p.score) sid r.shooter s r.rest e',
          total-insert (λ p. p.deaths) sid r.shooter s r.rest e',
        );
      }

  module _ (s : Player) (ps : Players) (t : IsTable grace ps) (e : lookup sid ps ≡ some s) where
    own : IsEntry grace (sid, s)
    own = All-lookup (IsEntry grace) sid s ps t.entries e

    fire-IsFair : (walls : List WallBox) → IsFair grace ps (fire ops walls sid s ps)
    fire-IsFair walls =
        let s' : Player = record s { fire_cd = fire_cooldown_ticks } in
        let hs : IsPlayer grace s = own.1 in
        let h : IsPlayer grace s' = ground arith in
        let found = shot_target-IsChosen ops _ sid walls s ps (All-lookup_self ps t.distinct) in
        elim (dead s || ltb 0 s.fire_cd)
          as (λ b. IsFair grace ps (
            if b
            then no_action ps
            else hit_best ops sid s' ps gun_damage (shot_target ops walls sid s ps))) [
              | true ↦ no_action-IsFair grace ps t
              | false ↦
                  hit_best-IsFair s s' ps gun_damage (shot_target ops walls sid s ps) t e h own.0
                    refl refl found
            ]

    swing-IsFair : IsFair grace ps (swing ops sid s ps)
    swing-IsFair =
        let s' : Player = record s { sword_cd = 8 } in
        let hs : IsPlayer grace s = own.1 in
        let h : IsPlayer grace s' = ground arith in
        elim (dead s || ltb 0 s.sword_cd)
          as (λ b.
            IsFair grace ps (
              if b
              then no_action ps
              else strike ops sword_range sword_arc sword_damage sid s' ps)) [
                | true ↦ no_action-IsFair grace ps t
                | false ↦
                    strike-IsFair sword_range sword_arc sword_damage s s' ps t e h own.0 refl refl
              ]

    dash-IsFair : IsFair grace ps (dash ops sid s ps)
    dash-IsFair =
        let s' : Player = record s { dash_cd = 45 } in
        let hs : IsPlayer grace s = own.1 in
        let h : IsPlayer grace s' = ground arith in
        elim (dead s || ltb 0 s.dash_cd)
          as (λ b.
            IsFair grace ps
              (if b then no_action ps else strike ops dash_range dash_arc dash_damage sid s' ps)) [
                | true ↦ no_action-IsFair grace ps t
                | false ↦
                    strike-IsFair dash_range dash_arc dash_damage s s' ps t e h own.0 refl refl
              ]

    lock-IsFair : IsFair grace ps (lock ops sid s ps)
    lock-IsFair =
        let s' : Player = record s { lock_charges = s.lock_charges - 1; lock_cd = 30 } in
        let hs : IsPlayer grace s = own.1 in
        let h : IsPlayer grace s' = ground arith in
        let target = lock_target ops sid s ps in
        let found = lock_target-IsChosen ops _ sid s ps (All-lookup_self ps t.distinct) in
        elim (dead s || (s.lock_charges == 0 || ltb 0 s.lock_cd))
          as (λ b.
            IsFair grace ps
              (if b then no_action ps else hit_best ops sid s' ps lock_damage target)) [
                | true ↦ no_action-IsFair grace ps t
                | false ↦ hit_best-IsFair s s' ps lock_damage target t e h own.0 refl refl found
              ]

  module _ (ps : Players) (t : IsTable grace ps) where
    pub apply_shot-IsFair : (walls : List WallBox) → IsFair grace ps (apply_shot ops walls sid ps)
    unfolding apply_shot
    apply_shot-IsFair walls = elim (Option-cases (lookup sid ps)) [
      | inl e ↦ rw (e, apply_shot) (no_action-IsFair grace ps t)
      | inr (s, e) ↦ rw (e, apply_shot) (fire-IsFair s ps t e walls)
    ]

    pub apply_sword-IsFair : IsFair grace ps (apply_sword ops sid ps)
    unfolding apply_sword
    apply_sword-IsFair = elim (Option-cases (lookup sid ps)) [
      | inl e ↦ rw (e, apply_sword) (no_action-IsFair grace ps t)
      | inr (s, e) ↦ rw (e, apply_sword) (swing-IsFair s ps t e)
    ]

    pub apply_dash-IsFair : IsFair grace ps (apply_dash ops sid ps)
    unfolding apply_dash
    apply_dash-IsFair = elim (Option-cases (lookup sid ps)) [
      | inl e ↦ rw (e, apply_dash) (no_action-IsFair grace ps t)
      | inr (s, e) ↦ rw (e, apply_dash) (dash-IsFair s ps t e)
    ]

    pub apply_lock-IsFair : IsFair grace ps (apply_lock ops sid ps)
    unfolding apply_lock
    apply_lock-IsFair = elim (Option-cases (lookup sid ps)) [
      | inl e ↦ rw (e, apply_lock) (no_action-IsFair grace ps t)
      | inr (s, e) ↦ rw (e, apply_lock) (lock-IsFair s ps t e)
    ]
