-- ===== src/Process.antt =====
-- cmd/gateway/config.go and main.go: the settings of the process, and what it starts. The file
-- system, encoding/json, database/sql and the network are parameters.
pub mod Starts
mod Tests
use lurkspire.Prelude.{ℕ, List, [], ◌∷◌, Option, none, some, Bool, true, false, if◌then◌else◌}
use lurkspire.Room.Float.{FloatOps, zero_f}
use lurkspire.Room.Player.{Config}
use lurkspire.Store.Users.{MemStore, new_mem_store}
use lurkspire.Store.Users.Catalogue.{Text}
use lurkspire.Store.Interface.{mem_store}
use lurkspire.Store.Mysql.{Database, mysql_store}
use lurkspire.Lobby.{Crypto, is_empty_text}
use lurkspire.Gateway.State.{Env, World, new_world}

-- `Config` of config.go.
pub record Settings : Type 0 where
  pub listen : Text
  pub mysql_dsn : Text
  pub token_secret : Text

-- ":7777", no DSN, "dev-secret-change-me"
abbrev pub default_settings : Settings
default_settings = record {
  listen = 58 ∷ 55 ∷ 55 ∷ 55 ∷ 55 ∷ [];
  mysql_dsn = [];
  token_secret =
      100 ∷ 101 ∷ 118 ∷ 45 ∷ 115 ∷ 101 ∷ 99 ∷ 114 ∷ 101 ∷ 116 ∷ 45 ∷ 99 ∷ 104 ∷ 97 ∷ 110 ∷ 103 ∷ 101
      ∷ 45 ∷ 109 ∷ 101 ∷ [];
}

-- What `os.ReadFile` gives.
pub data FileResult : Type 0 where
  contents : List ℕ → FileResult
  is_not_exist other_failure : FileResult

-- The packages that `main` calls: `os.ReadFile`; `json.Unmarshal` into settings, with whether it
-- returned nil; `sql.Open`; `Ping`, with whether it returned nil; and whether `net.Listen` did.
pub record Machine (D : Type 0) : Type 0 where
  pub read_file : Text → FileResult
  pub unmarshal : List ℕ → Settings → Settings × Bool
  pub open_db : Text → Option D
  pub ping : D → Bool
  pub listens : Text → Bool

-- What `main` comes to: an end by log.Fatalf, or a process that serves over one of the stores.
pub data Started (D : Type 0) : Type 0 where
  no_settings no_database no_listener : Started D
  in_memory : Env MemStore → World MemStore → Started D
  in_mysql : Env D → World D → Started D

-- The room settings of `main`.
abbrev pub room_settings : Config
room_settings = record {
  max_players = 8;
  tick_hz = 30;
  speed = zero_f;
  spawn_range = zero_f;
  settle_score = 0;
  settle_ticks = 0;
  reconnect_grace_ticks = 0;
}

module _ {D : Type 0} (machine : Machine D) where
  -- `LoadConfig`; `none` is an error.
  unfoldable pub load_config : Text → Option Settings
  load_config path = elim (machine.read_file path) [
    | is_not_exist ↦ some default_settings
    | other_failure ↦ none
    | contents data_bytes ↦
        let (cfg, ok) = machine.unmarshal data_bytes default_settings in
        if ok then some cfg else none
  ]

  -- `OpenMySQL`; `none` is an error.
  unfoldable pub open_mysql : Text → Option D
  open_mysql dsn = elim (machine.open_db dsn) [
    | none ↦ none
    | some d ↦ if machine.ping d then some d else none
  ]

  -- `main`, behind the choice of the store.
  abbrev pub serve_on :
      {S : Type 0} → Settings → Env S → S → (Env S → World S → Started D) → Started D
  serve_on cfg env s process =
      if machine.listens cfg.listen then process env (new_world s) else no_listener

  -- `main` with its settings.
  unfoldable pub start_with : Database D → Crypto → FloatOps → Settings → Started D
  unfolding open_mysql
  start_with db crypto ops cfg =
      if is_empty_text cfg.mysql_dsn
      then serve_on cfg
          (record {
            store = mem_store;
            crypto = crypto;
            secret = cfg.token_secret;
            ops = ops;
            cfg = room_settings;
          })
          new_mem_store in_memory
      else elim (open_mysql cfg.mysql_dsn) [
        | none ↦ no_database
        | some d ↦
            serve_on cfg
              (record {
                store = mysql_store db;
                crypto = crypto;
                secret = cfg.token_secret;
                ops = ops;
                cfg = room_settings;
              })
              d in_mysql
      ]

  -- `main`
  unfoldable pub start : Database D → Crypto → FloatOps → Text → Started D
  unfolding load_config start_with
  start db crypto ops path = elim (load_config path) [
    | none ↦ no_settings
    | some cfg ↦ start_with db crypto ops cfg
  ]
