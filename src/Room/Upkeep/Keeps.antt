-- ===== src/Room/Upkeep/Keeps.antt =====
-- internal/room/combat.go, `TickCombat`, and room.go, `tickOfflinePlayers`: a tick and the table.
use lurkspire.Prelude.{
  ℕ, suc, ◌≤◌, ◌≡◌, refl, ap, ◌∙◌, [], ◌∷◌, none, arith, All, lookup, nat_key, IsMap, length,
}
use lurkspire.Room.Float.{FloatOps}
use lurkspire.Room.Player.{Player, Players}
use lurkspire.Room.Upkeep.{cool_down, charge, respawn, tick_player, tick_combat}
use lurkspire.Room.Roster.{age_offline}
use lurkspire.Room.Invariant.{IsPlayer, IsEntry, IsTable}

module _ (ops : FloatOps) (grace : ℕ) where
  cool_down-IsPlayer : (p : Player) → IsPlayer grace p → IsPlayer grace (cool_down ops p)
  unfolding cool_down
  cool_down-IsPlayer p h = ground arith

  charge-IsPlayer : (p : Player) → IsPlayer grace p → IsPlayer grace (charge ops p)
  unfolding charge
  charge-IsPlayer p h = ground arith

  respawn-IsPlayer :
      (draw : ℕ) (p : Player) → IsPlayer grace p → IsPlayer grace (respawn ops draw p)
  unfolding respawn
  respawn-IsPlayer draw p h = ground arith

  -- One tick keeps what holds of a player.
  pub tick_player-IsPlayer :
      (draw : ℕ) (p : Player) → IsPlayer grace p → IsPlayer grace (tick_player ops draw p)
  unfolding tick_player
  tick_player-IsPlayer draw p h =
      respawn-IsPlayer draw _ (charge-IsPlayer _ (cool_down-IsPlayer p h))

  uid-tick_player : (draw : ℕ) (p : Player) → (tick_player ops draw p).uid ≡ p.uid
  unfolding tick_player cool_down charge respawn
  uid-tick_player draw p = ground arith

  lookup-tick_combat-none :
      (j : ℕ) (draws : ℕ → ℕ) (ps : Players)
      → lookup j ps ≡ none
      → lookup j (tick_combat ops draws ps) ≡ none
  unfolding lookup tick_combat
  lookup-tick_combat-none j draws [] h = refl
  lookup-tick_combat-none j draws ((k, p) ∷ ps) h =
      ground (arith, lookup-tick_combat-none j draws ps)

  pub length-tick_combat :
      (draws : ℕ → ℕ) (ps : Players) → length (tick_combat ops draws ps) ≡ length ps
  unfolding tick_combat
  length-tick_combat draws [] = refl
  length-tick_combat draws (kp ∷ ps) = ap suc (length-tick_combat draws ps)

  tick_combat-IsMap : (draws : ℕ → ℕ) (ps : Players) → IsMap ps → IsMap (tick_combat ops draws ps)
  unfolding tick_combat
  tick_combat-IsMap draws [] h = tt
  tick_combat-IsMap draws ((k, p) ∷ ps) h =
      (lookup-tick_combat-none k draws ps h.0, tick_combat-IsMap draws ps h.1)

  tick_combat-IsEntry :
      (draws : ℕ → ℕ) (ps : Players)
      → All (IsEntry grace) ps
      → All (IsEntry grace) (tick_combat ops draws ps)
  unfolding tick_combat
  tick_combat-IsEntry draws [] a = tt
  tick_combat-IsEntry draws ((k, p) ∷ ps) ((u, h), a) = (
    (uid-tick_player (draws k) p ∙ u, tick_player-IsPlayer (draws k) p h),
    tick_combat-IsEntry draws ps a,
  )

  pub tick_combat-IsTable :
      (draws : ℕ → ℕ) (ps : Players) → IsTable grace ps → IsTable grace (tick_combat ops draws ps)
  tick_combat-IsTable draws ps t = record {
    distinct = tick_combat-IsMap draws ps t.distinct;
    entries = tick_combat-IsEntry draws ps t.entries;
  }

module _ (grace : ℕ) where
  lookup-age_offline-none :
      (j : ℕ) (ps : Players) → lookup j ps ≡ none → lookup j (age_offline grace ps) ≡ none
  unfolding lookup age_offline
  lookup-age_offline-none j [] h = refl
  lookup-age_offline-none j ((k, p) ∷ ps) h = ground (arith, lookup-age_offline-none j ps)

  age_offline-IsMap : (ps : Players) → IsMap ps → IsMap (age_offline grace ps)
  unfolding age_offline
  age_offline-IsMap [] h = tt
  age_offline-IsMap ((k, p) ∷ ps) h =
      ground (arith, lookup-age_offline-none k ps h.0, age_offline-IsMap ps h.1)

  age_offline-IsEntry :
      (ps : Players) → All (IsEntry grace) ps → All (IsEntry grace) (age_offline grace ps)
  unfolding age_offline
  age_offline-IsEntry [] a = tt
  age_offline-IsEntry ((k, p) ∷ ps) ((u, h), a) = ground (arith, age_offline-IsEntry ps a)

  pub age_offline-IsTable : (ps : Players) → IsTable grace ps → IsTable grace (age_offline grace ps)
  age_offline-IsTable ps t = record {
    distinct = age_offline-IsMap ps t.distinct;
    entries = age_offline-IsEntry ps t.entries;
  }

  pub length-age_offline : (ps : Players) → length (age_offline grace ps) ≤ length ps
  unfolding age_offline
  length-age_offline [] = omega arith
  length-age_offline ((k, p) ∷ ps) = ground (arith, length-age_offline ps)
