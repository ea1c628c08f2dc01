-- ===== src/Room/Upkeep.antt =====
-- internal/room/combat.go, `TickCombat`: cooldowns, the charge of the lock, respawns.
pub mod Keeps
pub mod Respawn
use lurkspire.Prelude.{ℕ, ◌+◌, ◌-◌, List, [], ◌∷◌, Bool, true, false, if◌then◌else◌, ltb, ◌==◌}
use lurkspire.Protocol.Battle.{F32}
use lurkspire.Room.Float.{FloatOps, zero_f}
use lurkspire.Room.Player.{Player, Players, pick_spawn}

abbrev pub lock_max_charges : ℕ
lock_max_charges = 3

-- 10
abbrev pub lock_charge_seconds : F32
lock_charge_seconds = 0x41200000

-- 1 / 30
abbrev pub tick_seconds : F32
tick_seconds = 0x3d088889

module _ (ops : FloatOps) where
  open ops use {add, le}

  abbrev pub down : ℕ → ℕ
  down cd = if ltb 0 cd then cd - 1 else cd

  -- The four cooldowns.
  unfoldable pub cool_down : Player → Player
  cool_down p = record p {
    fire_cd = down p.fire_cd;
    lock_cd = down p.lock_cd;
    sword_cd = down p.sword_cd;
    dash_cd = down p.dash_cd;
  }

  -- The charge of the lock: one every ten seconds, up to three.
  unfoldable pub charge : Player → Player
  charge p =
      let timer = add p.lock_timer tick_seconds in
      if ltb p.lock_charges lock_max_charges
      then (if le lock_charge_seconds timer
          then record p { lock_timer = zero_f; lock_charges = p.lock_charges + 1 }
          else record p { lock_timer = timer })
      else p

  -- The count down to the respawn at a drawn point.
  unfoldable pub respawn : ℕ → Player → Player
  unfolding pick_spawn
  respawn draw p =
      if ltb 0 p.dead_ticks
      then (if p.dead_ticks - 1 == 0
          then (let sp = pick_spawn draw in
              record p {
                dead_ticks = 0;
                hp = 100;
                block = p.block_max;
                x = sp.x;
                y = sp.y;
                z = sp.z;
                first_report = true;
              })
          else record p { dead_ticks = p.dead_ticks - 1 })
      else p

  unfoldable pub tick_player : ℕ → Player → Player
  tick_player draw p = respawn draw (charge (cool_down p))

  -- `TickCombat`. `draws` gives the number that a player's respawn draws in this tick.
  unfoldable pub tick_combat : (ℕ → ℕ) → Players → Players
  tick_combat draws [] = []
  tick_combat draws ((k, p) ∷ ps) = (k, tick_player (draws k) p) ∷ tick_combat draws ps
