-- ===== src/Room/State.antt =====
-- internal/room/room.go: the state of a room, and the messages that its goroutine takes from its
-- channels. Calls of the two callbacks, and the replies, are output.
use lurkspire.Prelude.{ℕ, List, [], Bool, true, false, ◌||◌, if◌then◌else◌, ltb, ◌==◌}
use lurkspire.Protocol.Battle.{F32, PlayerState, InputReport, HitEvent}
use lurkspire.Room.Float.{zero_f}
use lurkspire.Room.MapData.{WallBox, map_walls}
use lurkspire.Room.Player.{Config, Player, Players, base_block_max, pick_spawn}

pub record Room : Type 0 where
  pub id : List ℕ
  pub cfg : Config
  pub walls : List WallBox
  pub players : Players
  pub tick : ℕ
  pub pending_events : List HitEvent
  pub settled : Bool
  pub emptied : Bool
  pub had_players : Bool
  pub on_broadcast : Bool  -- whether the callback is set
  pub on_empty : Bool  -- whether the callback is set

-- What a channel delivers. `ticks` stands for the ticker, with the numbers that respawns draw;
-- `joins` carries the number that the spawn point is drawn with.
pub data Msg : Type 0 where
  ticks : (ℕ → ℕ) → Msg
  inputs : ℕ → InputReport → Msg
  snapshots : Msg
  drains : Msg
  joins : ℕ → ℕ → Msg
  leaves : ℕ → Msg
  equips : ℕ → F32 → Msg
  sets_online : ℕ → Bool → Msg
  sets_broadcast : Msg
  sets_on_empty : Msg

-- A call of a callback or a reply. `joined true` is nil, `joined false` is ErrRoomFull.
pub data Out : Type 0 where
  broadcast : ℕ → List ℕ → Out
  emptied_notice : List ℕ → Out
  joined : Bool → Out
  states : List PlayerState → Out
  events : List HitEvent → Out
  equipped : Out

unfoldable pub normal_config : Config → Config
normal_config cfg = record cfg {
  max_players = if cfg.max_players == 0 || ltb 8 cfg.max_players then 8 else cfg.max_players;
  tick_hz = if cfg.tick_hz == 0 then 30 else cfg.tick_hz;
  reconnect_grace_ticks = if cfg.reconnect_grace_ticks == 0 then 900 else cfg.reconnect_grace_ticks;
}

unfoldable pub new_room : List ℕ → Config → Room
unfolding normal_config
new_room id cfg = record {
  id = id;
  cfg = normal_config cfg;
  walls = map_walls;
  players = [];
  tick = 0;
  pending_events = [];
  settled = false;
  emptied = false;
  had_players = false;
  on_broadcast = false;
  on_empty = false;
}

-- A player as `addPlayer` makes it.
unfoldable pub new_player : ℕ → ℕ → ℕ → Player
unfolding pick_spawn
new_player uid tick draw =
    let sp = pick_spawn draw in
    record {
      uid = uid;
      x = sp.x;
      y = sp.y;
      z = sp.z;
      yaw = zero_f;
      hp = 100;
      weapon = 0;
      alt = 0;
      block = base_block_max;
      block_max = base_block_max;
      anim = 0;
      last_report_tick = tick;
      suspicious = 0;
      first_report = true;
      online = true;
      offline_ticks = 0;
      score = 0;
      deaths = 0;
      aim_x = zero_f;
      aim_y = zero_f;
      buttons = 0;
      fire_cd = 0;
      dead_ticks = 0;
      just_died = false;
      lock_charges = 0;
      lock_timer = zero_f;
      lock_cd = 0;
      sword_cd = 0;
      dash_cd = 0;
    }
