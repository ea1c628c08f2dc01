-- ===== src/Process/Tests.antt =====
-- The theorems on cmd/gateway with a file that is missing, and with one that names a database.
use lurkspire.Prelude.{◌≡◌, refl, List, [], ◌∷◌, some, true, arith, if◌then◌else◌, text_beq}
use lurkspire.Room.State.{Msg, new_room, ticks, joins, sets_broadcast, leaves}
use lurkspire.Room.Loop.{run}
use lurkspire.Room.Loop.Once.{settlements}
use lurkspire.Room.Tests.{toy}
use lurkspire.Store.Users.{MemStore, new_mem_store}
use lurkspire.Store.Users.Catalogue.{Text}
use lurkspire.Store.Interface.{mem_store}
use lurkspire.Store.Mysql.{mysql_store}
use lurkspire.Store.Mysql.Meaning.{Tables}
use lurkspire.Store.Mysql.Tests.{toy_db, empty_tables}
use lurkspire.Lobby.Tests.{toy_crypto}
use lurkspire.Gateway.State.{Env, new_world}
use lurkspire.Gateway.Server.{Event, accepts, room_ticks, ends, watches, shuts_down, run_events}
use lurkspire.Gateway.Invariant.{IsWorld}
use lurkspire.Process.{
  default_settings, Machine, FileResult, contents, is_not_exist, in_memory, in_mysql, room_settings,
  load_config, open_mysql, start_with, start,
}
use lurkspire.Process.Starts.{in_mysql_serves}

-- The file `m` names a database; there is no other file.
abbrev files : Text → FileResult
files path = if text_beq path (109 ∷ []) then contents (100 ∷ []) else is_not_exist

abbrev machine : Machine Tables
machine = record {
  read_file = files;
  unmarshal = λ b cfg. (record cfg { mysql_dsn = b }, true);
  open_db = λ dsn. some empty_tables;
  ping = λ d. true;
  listens = λ address. true;
}

abbrev memory_env : Env MemStore
memory_env = record {
  store = mem_store;
  crypto = toy_crypto;
  secret = default_settings.token_secret;
  ops = toy;
  cfg = room_settings;
}

abbrev mysql_env : Env Tables
mysql_env = record {
  store = mysql_store toy_db;
  crypto = toy_crypto;
  secret = default_settings.token_secret;
  ops = toy;
  cfg = room_settings;
}

abbrev hour : List Event
hour =
    accepts 0 ∷ accepts 1 ∷ room_ticks 0 (λ i. 0) ∷ ends 1 ∷ watches 10 9000000000 ∷ shuts_down ∷ []

abbrev battle : List Msg
battle = sets_broadcast ∷ joins 1 0 ∷ ticks (λ i. 0) ∷ joins 2 5 ∷ ticks (λ i. 1) ∷ leaves 1 ∷ []

in_memory_started :
    start machine toy_db toy_crypto toy [] ≡ in_memory memory_env (new_world new_mem_store)
unfolding start load_config start_with
in_memory_started = refl

in_mysql_started :
    start machine toy_db toy_crypto toy (109 ∷ []) ≡ in_mysql mysql_env (new_world empty_tables)
unfolding start load_config start_with open_mysql
in_mysql_started = refl

in_mysql_serves_example :
    IsWorld 6 (run_events mysql_env (new_world empty_tables) hour)
    × (settlements (run toy (new_room (114 ∷ []) room_settings) battle).1 ≡ 0)
in_mysql_serves_example =
    in_mysql_serves machine toy_db toy_crypto toy (109 ∷ []) mysql_env (new_world empty_tables) hour
      (114 ∷ []) battle in_mysql_started (omega arith)
