-- ===== src/Process/Starts.antt =====
-- cmd/gateway/main.go: the battles of a process that has started.
use lurkspire.Prelude.{
  ◌≡◌, refl, ap, inl, inr, List, Bool-cases, Option-cases, length, IsU32, subst,
}
use lurkspire.Room.Float.{FloatOps}
use lurkspire.Room.Player.{Config}
use lurkspire.Room.State.{Msg, new_room}
use lurkspire.Room.Loop.{run}
use lurkspire.Room.Loop.Once.{settlements}
use lurkspire.Room.Loop.Endless.{never_settles}
use lurkspire.Store.Users.{new_mem_store}
use lurkspire.Store.Users.Catalogue.{Text}
use lurkspire.Store.Mysql.{Database}
use lurkspire.Lobby.{Crypto, is_empty_text}
use lurkspire.Gateway.State.{Env, World, new_world}
use lurkspire.Gateway.Server.{Event, run_events}
use lurkspire.Gateway.Invariant.{IsWorld}
use lurkspire.Gateway.Invariant.Events.{run_events-IsWorld}
use lurkspire.Process.{
  Settings, Machine, Started, no_settings, no_database, no_listener, in_memory, in_mysql,
  room_settings, load_config, open_mysql, start_with, start,
}

-- What `main` hands to the process.
abbrev pub IsFresh : {D : Type 0} → Started D → Type 0
IsFresh no_settings = Unit {0}
IsFresh no_database = Unit {0}
IsFresh no_listener = Unit {0}
IsFresh (in_memory env w) = (env.cfg ≡ room_settings) × (w ≡ new_world new_mem_store)
IsFresh {D = D} (in_mysql env w) = (env.cfg ≡ room_settings) × ((d : D) × (w ≡ new_world d))

-- A process with these settings, from its first world on.
serves :
    {S : Type 0} (env : Env S) (s : S) (w : World S)
    → w ≡ new_world s
    → env.cfg ≡ room_settings
    → (es : List Event) (name : Text) (ms : List Msg) → IsU32 (length es)
    → IsWorld (length es) (run_events env w es)
      × (settlements (run env.ops (new_room name env.cfg) ms).1 ≡ 0)
serves env s w e c es name ms small = (
  rw e (run_events-IsWorld env s es small),
  never_settles env.ops name env.cfg ms
      (ap (λ (x : Config). x.settle_score) c, ap (λ (x : Config). x.settle_ticks) c),
)

module _ {D : Type 0} (machine : Machine D) (db : Database D) (crypto : Crypto)
    (ops : FloatOps) where
  start_with-IsFresh : (cfg : Settings) → IsFresh (start_with machine db crypto ops cfg)
  unfolding start_with
  start_with-IsFresh cfg = elim (Bool-cases (is_empty_text cfg.mysql_dsn)) [
    | inl e ↦ elim (Bool-cases (machine.listens cfg.listen)) [
      | inl l ↦ rw (e, l, start_with) (refl, refl)
      | inr l ↦ rw (e, l, start_with) tt
    ]
    | inr e ↦ elim (Option-cases (open_mysql machine cfg.mysql_dsn)) [
      | inl o ↦ rw (e, o, start_with) tt
      | inr (d, o) ↦ elim (Bool-cases (machine.listens cfg.listen)) [
        | inl l ↦ rw (e, o, l, start_with) (refl, (d, refl))
        | inr l ↦ rw (e, o, l, start_with) tt
      ]
    ]
  ]

  start-IsFresh : (path : Text) → IsFresh (start machine db crypto ops path)
  unfolding start
  start-IsFresh path = elim (Option-cases (load_config machine path)) [
    | inl e ↦ rw (e, start) tt
    | inr (cfg, e) ↦ rw (e, start) (start_with-IsFresh cfg)
  ]

  -- A process that has started with a database is in order over any events, fewer than 2^32, whatever
  -- the database answers, and a room that it makes never settles, whatever messages the room takes.
  pub in_mysql_serves :
      (path : Text) (env : Env D) (w : World D) (es : List Event) (name : Text) (ms : List Msg)
      → start machine db crypto ops path ≡ in_mysql env w
      → IsU32 (length es)
      → IsWorld (length es) (run_events env w es)
        × (settlements (run env.ops (new_room name env.cfg) ms).1 ≡ 0)
  in_mysql_serves path env w es name ms e small =
      let (c, (d, q)) = subst IsFresh e (start-IsFresh path) in serves env d w q c es name ms small
