-- ===== src/Room/Upkeep/Respawn.antt =====
-- internal/room/combat.go: from a death to the respawn.
use lurkspire.Prelude.{
  ℕ, ◌+◌, ◌≤◌, ◌≡◌, List, [], ◌∷◌, true, false, arith, length, not, ◌&&◌, ◌||◌, Bool-cases,
}
use lurkspire.Protocol.Battle.{InputReport}
use lurkspire.Room.Validation.{out_of_range, floats_valid, check_move}
use lurkspire.Room.Float.{FloatOps}
use lurkspire.Room.Player.{Player, dead}
use lurkspire.Room.Hit.{hit, dealt}
use lurkspire.Room.Upkeep.{cool_down, charge, respawn, tick_player}

module _ (ops : FloatOps) where
  -- One tick after the other, each with the number that a respawn draws in it.
  abbrev pub tick_all : List ℕ → Player → Player
  tick_all [] p = p
  tick_all (d ∷ ds) p = tick_all ds (tick_player ops d p)

  tick_player_waits :
      (d : ℕ) (p : Player)
      → 2 ≤ p.dead_ticks
      → ((tick_player ops d p).dead_ticks + 1 ≡ p.dead_ticks)
        × ((tick_player ops d p).hp ≡ p.hp)
        × ((tick_player ops d p).block_max ≡ p.block_max)
        × ((tick_player ops d p).deaths ≡ p.deaths)
  unfolding tick_player cool_down charge respawn
  tick_player_waits d p h = (ground arith, ground arith, ground arith, ground arith)

  tick_all_waits :
      (ds : List ℕ) (p : Player)
      → length ds + 1 ≤ p.dead_ticks
      → ((tick_all ds p).dead_ticks + length ds ≡ p.dead_ticks)
        × ((tick_all ds p).hp ≡ p.hp)
        × ((tick_all ds p).block_max ≡ p.block_max)
        × ((tick_all ds p).deaths ≡ p.deaths)
  tick_all_waits [] p h = (ground arith, ground arith, ground arith, ground arith)
  tick_all_waits (d ∷ ds) p h =
      let one = tick_player_waits d p (omega arith) in
      let rest = tick_all_waits ds (tick_player ops d p) (omega (arith, one.0)) in
      (ground arith, ground arith, ground arith, ground arith)

  -- A player who is hit for at least the health it has is dead, with no health, for the next 59
  -- ticks. At the 60th it lives again, with 100 health, its whole block and one more death, and a
  -- report that comes then is accepted, wherever it puts the player, exactly if its moves are in
  -- range and its yaw, aim and position are finite numbers.
  pub hit-respawn :
      (s t : Player) (dmg : ℕ) (ds : List ℕ) (d : ℕ) (report : InputReport)
      → t.hp ≤ dealt ops t dmg
      → length ds ≡ 59
      → let killed = (hit ops s t dmg).target in
        let back = tick_player ops d (tick_all ds killed) in
        ((tick_all ds killed).hp ≡ 0)
        × (dead (tick_all ds killed) ≡ true)
        × (dead back ≡ false)
        × (back.hp ≡ 100)
        × (back.block ≡ t.block_max)
        × (back.first_report ≡ true)
        × (back.deaths ≡ t.deaths + 1)
        × (check_move ops back report ≡ (
            not (out_of_range report.move_x || out_of_range report.move_y) && floats_valid report))
  hit-respawn s t dmg ds d report h k =
      let killed : Player = (hit ops s t dmg).target in
      let dies : (killed.dead_ticks ≡ 60)
          × (killed.hp ≡ 0)
          × (killed.block_max ≡ t.block_max)
          × (killed.deaths ≡ t.deaths + 1) =
        unfold hit in (ground arith, ground arith, ground arith, ground arith) in
      let waits = tick_all_waits ds killed (omega (arith, dies.0)) in
      unfold tick_player cool_down charge respawn check_move in
      (
        ground arith,
        ground arith,
        ground arith,
        ground arith,
        ground arith,
        ground arith,
        ground arith,
        ground (arith, Bool-cases (floats_valid report)),
      )
