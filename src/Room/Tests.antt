-- ===== src/Room/Tests.antt =====
-- The theorems on internal/room in a room with two players.
use lurkspire.Prelude.{
  ℕ, ◌+◌, ◌-◌, ◌*◌, ◌/◌, ◌%◌, ◌≤◌, ◌≡◌, ◌⊎◌, List, [], ◌∷◌, map, none, some, true, false, not, ◌&&◌,
  ◌||◌, arith, refl, lookup, insert, modify, nat_key, All, ltb, leb, ◌==◌, if◌then◌else◌,
}
use lurkspire.Protocol.Battle.{InputReport}
use lurkspire.Room.Float.{FloatOps, minus_one}
use lurkspire.Room.Player.{Config, Player, Players, blocking, dead}
use lurkspire.Room.Validation.{out_of_range, floats_valid, check_move}
use lurkspire.Room.Hit.{hit}
use lurkspire.Room.Hit.Damage.{hit_damage}
use lurkspire.Room.Upkeep.{tick_player}
use lurkspire.Room.Upkeep.Respawn.{tick_all, hit-respawn}
use lurkspire.Room.Geometry.{Vec3}
use lurkspire.Room.Weapons.{shot_loop}
use lurkspire.Room.Weapons.Nearest.{FloatOrder, IsSearch, beats, shot_loop_nearest}
use lurkspire.Room.Weapons.Effects.{IsFair}
use lurkspire.Room.Loop.Fallen.{put_back, reports_fallen}
use lurkspire.Room.State.{
  Room, Msg, new_room, new_player, ticks, inputs, joins, sets_online, sets_broadcast, sets_on_empty,
  leaves,
}
use lurkspire.Room.Roster.{add_player}
use lurkspire.Room.Loop.{step, run}
use lurkspire.Room.Loop.Input.{weapons}
use lurkspire.Room.Loop.Actions.{weapons-IsFair}
use lurkspire.Room.Loop.Invariant.{IsRoom, step-IsRoom, run-new_room-IsRoom}
use lurkspire.Room.Loop.Grace.{presence, presence-ticks, presence_rejoin}
use lurkspire.Room.Loop.Notices.{notices, admissions, notices-admissions}
use lurkspire.Room.Loop.Once.{settlements, settled_once}
use lurkspire.Room.Loop.Rejected.{suspected, report_all, reports_rejected}

-- A place of every bit pattern in the order of the numbers that they stand for.
abbrev place : ℕ → ℕ
place a = if ltb a 2147483648 then a + 4294967296 else 4294967296 - a

-- An arithmetic on words that stands for the float32 operations.
abbrev pub toy : FloatOps
toy = record {
  add = λ a b. (a + b) % 4294967296;
  sub = λ a b. (a + (4294967296 - b)) % 4294967296;
  mul = λ a b. a * b % 4294967296;
  div = λ a b. a / b;
  lt = λ a b. ltb (place a) (place b);
  le = λ a b. leb (place a) (place b);
  sqrt = λ a. a;
  abs = λ a. a;
  sin = λ a. 0;
  cos = λ a. 0x3f800000;
  is_tiny = λ a. a == 0;
}

abbrev pub cfg : Config
cfg = record {
  max_players = 2;
  tick_hz = 30;
  speed = 0;
  spawn_range = 0;
  settle_score = 1;
  settle_ticks = 5;
  reconnect_grace_ticks = 3;
}

-- Two players have joined.
abbrev two : Room
two = (run toy (new_room [] cfg) (joins 7 0 ∷ joins 9 1 ∷ [])).0

two-IsRoom : IsRoom two
two-IsRoom = run-new_room-IsRoom toy [] cfg (joins 7 0 ∷ joins 9 1 ∷ [])

-- A report with the trigger pulled and a locked target.
abbrev fire_report : InputReport
fire_report = record {
  move_x = 1;
  move_y = 0;
  yaw = 0x3f800000;
  buttons = 1;
  aim_x = 0;
  aim_y = 0;
  x = 0x41200000;
  y = 0;
  z = 0;
  weapon = 1;
  anim = 1;
}

step-IsRoom_example : IsRoom (step toy two (inputs 7 fire_report)).0
step-IsRoom_example = step-IsRoom toy two (inputs 7 fire_report) two-IsRoom

weapons-IsFair_example :
    IsFair two.cfg.reconnect_grace_ticks two.players (weapons toy two.walls 7 1 two.players)
weapons-IsFair_example =
    weapons-IsFair toy two.cfg.reconnect_grace_ticks two.walls 7 1 two.players two-IsRoom.table

abbrev shooter : Player
shooter = new_player 7 0 0

abbrev victim : Player
victim = record (new_player 9 0 1) { hp = 20 }

hit_damage_example :
    let h = hit toy shooter victim 25 in
    (h.event.damage + h.target.hp ≡ victim.hp)
    × (h.event.damage ≤ (if blocking toy victim then 25 / 2 else 25))
    × ((h.target.hp ≡ 0) ⊎ (h.event.damage ≡ (if blocking toy victim then 25 / 2 else 25)))
    × (h.event.shooter ≡ shooter.uid)
    × (h.event.target ≡ victim.uid)
hit_damage_example = hit_damage toy shooter victim 25

-- After a kill: the 59 ticks, and the 60th.
abbrev draws : List ℕ
draws =
    5 ∷ 5 ∷ 5 ∷ 5 ∷ 5 ∷ 5 ∷ 5 ∷ 5 ∷ 5 ∷ 5 ∷ 5 ∷ 5 ∷ 5 ∷ 5 ∷ 5 ∷ 5 ∷ 5 ∷ 5 ∷ 5 ∷ 5 ∷ 5 ∷ 5 ∷ 5 ∷ 5
    ∷ 5 ∷ 5 ∷ 5 ∷ 5 ∷ 5 ∷ 5 ∷ 5 ∷ 5 ∷ 5 ∷ 5 ∷ 5 ∷ 5 ∷ 5 ∷ 5 ∷ 5 ∷ 5 ∷ 5 ∷ 5 ∷ 5 ∷ 5 ∷ 5 ∷ 5 ∷ 5 ∷ 5
    ∷ 5 ∷ 5 ∷ 5 ∷ 5 ∷ 5 ∷ 5 ∷ 5 ∷ 5 ∷ 5 ∷ 5 ∷ 5 ∷ []

abbrev killed : Player
killed = (hit toy shooter victim 25).target

hit-respawn_example :
    ((tick_all toy draws killed).hp ≡ 0)
    × (dead (tick_all toy draws killed) ≡ true)
    × (dead (tick_player toy 4 (tick_all toy draws killed)) ≡ false)
    × ((tick_player toy 4 (tick_all toy draws killed)).hp ≡ 100)
    × ((tick_player toy 4 (tick_all toy draws killed)).block ≡ victim.block_max)
    × ((tick_player toy 4 (tick_all toy draws killed)).first_report ≡ true)
    × ((tick_player toy 4 (tick_all toy draws killed)).deaths ≡ victim.deaths + 1)
    × (check_move toy (tick_player toy 4 (tick_all toy draws killed)) fire_report ≡ (
        not (out_of_range fire_report.move_x || out_of_range fire_report.move_y)
        && floats_valid fire_report))
unfolding blocking new_player
hit-respawn_example = hit-respawn toy shooter victim 25 draws 4 fire_report (omega arith) refl

abbrev duel : Players
duel = (7, shooter) ∷ (9, victim) ∷ []

toy-FloatOrder : FloatOrder toy
toy-FloatOrder = record {
  irrefl = λ a. ground arith;
  trans = λ a b c h k. ground arith;
  minus_one_lt_zero = refl;
}

abbrev muzzle : Vec3
muzzle = record { x = 0; y = 0; z = 0 }

abbrev ahead : Vec3
ahead = record { x = 0; y = 0; z = 0x3f800000 }

shot_loop_nearest_example :
    let best = shot_loop toy 7 muzzle ahead (none, minus_one) duel in
    IsSearch toy toy-FloatOrder 7 muzzle ahead best
    × All (λ kp. beats toy toy-FloatOrder 7 muzzle ahead best kp ≡ false) duel
shot_loop_nearest_example = shot_loop_nearest toy toy-FloatOrder 7 muzzle ahead duel

abbrev fallen : Player
fallen = record shooter { hp = 0; dead_ticks = 12 }

abbrev lost : Players
lost = (7, fallen) ∷ (9, victim) ∷ []

lookup-lost : lookup 7 lost ≡ some fallen
unfolding lookup
lookup-lost = refl

-- A dead player among two, and its reports with the trigger pulled.
abbrev after_kill : Room
after_kill = record two { players = lost }

reports_fallen_example :
    let after = report_all toy 7 (fire_report ∷ fire_report ∷ []) after_kill in
    ((q : Player) × (lookup 7 after.players
        ≡ (if 7 == 7 then some q else lookup 7 after_kill.players))
      × (put_back fallen q ≡ fallen)
      × (dead q ≡ true))
    × (after.pending_events ≡ after_kill.pending_events)
reports_fallen_example =
    reports_fallen toy 7 (fire_report ∷ fire_report ∷ []) fallen after_kill 7 lookup-lost refl

lookup-two : lookup 7 two.players ≡ some shooter
unfolding run step add_player new_room new_player lookup insert modify
lookup-two = refl

-- The player has left its connection.
abbrev away : Room
away = (step toy two (sets_online 7 false)).0

presence-away : presence 7 away.players ≡ some (false, 0, 0, 0)
unfolding run step add_player new_room new_player lookup insert modify
presence-away = refl

away-IsRoom : IsRoom away
away-IsRoom = step-IsRoom toy two (sets_online 7 false) two-IsRoom

abbrev clock : ℕ → ℕ
clock k = 0

presence-ticks_example :
    presence 7 (run toy away (map ticks (clock ∷ clock ∷ []))).0.players
    ≡ (if ltb (0 + 2) away.cfg.reconnect_grace_ticks then some (false, 0 + 2, 0, 0) else none)
presence-ticks_example =
    presence-ticks toy 7 (clock ∷ clock ∷ []) away 0 0 0 away-IsRoom away-IsRoom.some_grace
      presence-away

presence_rejoin_example :
    presence 7 (step toy (run toy away (map ticks (clock ∷ clock ∷ []))).0 (joins 7 3)).0.players
    ≡ some (true, 0, 0, 0)
unfolding run step add_player new_room new_player lookup insert modify
presence_rejoin_example =
    presence_rejoin toy 7 shooter two (clock ∷ clock ∷ []) 3 two-IsRoom lookup-two (omega arith)

abbrev battle : List Msg
battle =
    sets_broadcast
    ∷ joins 7 0
    ∷ ticks clock
    ∷ ticks clock
    ∷ ticks clock
    ∷ ticks clock
    ∷ ticks clock
    ∷ ticks clock
    ∷ []

settled_once_example :
    settlements (run toy (new_room [] cfg) battle).1
    ≡ (if (run toy (new_room [] cfg) battle).0.settled then 1 else 0)
settled_once_example = settled_once toy [] cfg battle

abbrev bad_report : InputReport
bad_report = record fire_report { move_x = 5 }

check_move-bad : check_move toy shooter bad_report ≡ false
unfolding check_move
check_move-bad = refl

reports_rejected_example :
    (lookup 7 (report_all toy 7 (bad_report ∷ bad_report ∷ bad_report ∷ []) two).players
      ≡ (if 7 == 7 then some (suspected toy 7 two.tick (1 + 2) shooter) else lookup 7 two.players))
    × ((report_all toy 7 (bad_report ∷ bad_report ∷ bad_report ∷ []) two).pending_events
        ≡ two.pending_events)
reports_rejected_example =
    reports_rejected toy 7 (bad_report ∷ bad_report ∷ []) bad_report shooter two 7 lookup-two
      (check_move-bad, (check_move-bad, (check_move-bad, tt)))

-- The only player leaves, and two ticks go by.
abbrev leaving : List Msg
leaving = sets_on_empty ∷ joins 7 0 ∷ leaves 7 ∷ ticks clock ∷ ticks clock ∷ []

notices-admissions_example :
    notices (run toy (new_room [] cfg) leaving).1 ≤ admissions (run toy (new_room [] cfg) leaving).1
notices-admissions_example = notices-admissions toy [] cfg leaving
