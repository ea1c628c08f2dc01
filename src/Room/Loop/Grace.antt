-- ===== src/Room/Loop/Grace.antt =====
-- internal/room/room.go: the grace period of a player who goes offline.
use mathlib.Core.Option
use lurkspire.Prelude.{
  ℕ, ◌+◌, ◌<◌, ◌≡◌, inl, inr, refl, ◌∙◌, ap, List, [], ◌∷◌, map, Option, none, some, Bool, true,
  false, arith, length, lookup, modify, nat_key, IsMap, lookup-modify, Option-cases, Bool-cases,
  if◌then◌else◌, leb, ltb, ==_iff,
}
use lurkspire.Protocol.Battle.{HitEvent}
use lurkspire.Room.Float.{FloatOps}
use lurkspire.Room.Player.{Config, Player, Players}
use lurkspire.Room.Upkeep.{tick_player, cool_down, charge, respawn, tick_combat}
use lurkspire.Room.Upkeep.Keeps.{tick_combat-IsTable}
use lurkspire.Room.State.{Room, ticks, sets_online, joins}
use lurkspire.Room.Roster.{put_online, age_offline, notify_empty, tick_offline_players, add_player}
use lurkspire.Room.Broadcast.{just_died, broadcast_events, settle, broadcast_tick}
use lurkspire.Room.Loop.{on_tick, step, run}
use lurkspire.Room.Loop.Invariant.{IsRoom, step-IsRoom}

-- Of a player who is in the table: whether it is online, for how many ticks it has been offline,
-- its score and its deaths.
abbrev pub Presence : Type 0
Presence = Bool × ℕ × ℕ × ℕ

abbrev pub presence : ℕ → Players → Option Presence
presence uid ps = Option.map (λ p. (p.online, p.offline_ticks, p.score, p.deaths)) (lookup uid ps)

-- What one tick makes of it.
abbrev pub aged : ℕ → Option Presence → Option Presence
aged grace none = none
aged grace (some (online, n, score, deaths)) =
    if online
    then some (online, n, score, deaths)
    else if leb grace (n + 1)
    then none
    else some (online, n + 1, score, deaths)

module _ (ops : FloatOps) (uid : ℕ) where
  presence-tick_combat :
      (draws : ℕ → ℕ) (ps : Players) → presence uid (tick_combat ops draws ps) ≡ presence uid ps
  unfolding lookup tick_combat tick_player cool_down charge respawn
  presence-tick_combat draws [] = refl
  presence-tick_combat draws ((k, p) ∷ ps) = ground (arith, presence-tick_combat draws ps)

  lookup-age_offline-none :
      (grace : ℕ) (ps : Players) → lookup uid ps ≡ none → lookup uid (age_offline grace ps) ≡ none
  unfolding lookup age_offline
  lookup-age_offline-none grace [] h = refl
  lookup-age_offline-none grace ((k, p) ∷ ps) h = ground (arith, lookup-age_offline-none grace ps)

  presence-age_offline :
      (grace : ℕ) (ps : Players)
      → IsMap ps
      → presence uid (age_offline grace ps) ≡ aged grace (presence uid ps)
  unfolding lookup age_offline
  presence-age_offline grace [] h = refl
  presence-age_offline grace ((k, p) ∷ ps) h =
      ground
        (arith, ==_iff k uid, lookup-age_offline-none grace ps, presence-age_offline grace ps h.1)

  presence-modify :
      (k : ℕ) (ps : Players)
      → presence uid (modify k (λ p. record p { just_died = false }) ps) ≡ presence uid ps
  unfolding lookup modify
  presence-modify k [] = refl
  presence-modify k ((j, p) ∷ ps) = ground (arith, presence-modify k ps)

  presence-broadcast_events :
      (evs : List HitEvent) (ps : Players)
      → presence uid (broadcast_events evs ps).0 ≡ presence uid ps
  unfolding broadcast_events
  presence-broadcast_events [] ps = refl
  presence-broadcast_events (ev ∷ evs) ps = elim (Bool-cases (just_died (lookup ev.target ps))) [
    | inl e ↦
        rw (e, broadcast_events) (presence-broadcast_events evs _ ∙ presence-modify ev.target ps)
    | inr e ↦ rw (e, broadcast_events) (presence-broadcast_events evs ps)
  ]

  players-notify_empty : (r : Room) → (notify_empty r).0.players ≡ r.players
  unfolding notify_empty
  players-notify_empty r = ground arith

  presence-broadcast_tick :
      (r : Room) → presence uid (broadcast_tick r).0.players ≡ presence uid r.players
  unfolding broadcast_tick settle
  presence-broadcast_tick r = ground (arith, presence-broadcast_events r.pending_events r.players)

  presence-tick_offline_players :
      (r : Room)
      → IsMap r.players
      → presence uid (tick_offline_players r).0.players
        ≡ aged r.cfg.reconnect_grace_ticks (presence uid r.players)
  unfolding tick_offline_players
  presence-tick_offline_players r h =
      let grace : ℕ = r.cfg.reconnect_grace_ticks in
      ap (presence uid) (players-notify_empty (record r { players = age_offline grace r.players }))
      ∙ presence-age_offline grace r.players h

  presence-on_tick :
      (draws : ℕ → ℕ) (r : Room)
      → IsRoom r
      → presence uid (on_tick ops draws r).0.players
        ≡ aged r.cfg.reconnect_grace_ticks (presence uid r.players)
  unfolding on_tick
  presence-on_tick draws r h =
      let grace : ℕ = r.cfg.reconnect_grace_ticks in
      let r1 : Room = record r { tick = r.tick + 1; players = tick_combat ops draws r.players } in
      let aged1 : presence uid (tick_offline_players r1).0.players
          ≡ aged grace (presence uid r.players) =
        presence-tick_offline_players r1
          (tick_combat-IsTable ops grace draws r.players h.table).distinct
        ∙ ap (aged grace) (presence-tick_combat draws r.players) in
      elim (Bool-cases (tick_offline_players r1).0.on_broadcast) [
        | inl e ↦ rw (e, on_tick) (presence-broadcast_tick (tick_offline_players r1).0 ∙ aged1)
        | inr e ↦ rw (e, on_tick) aged1
      ]

  cfg-on_tick : (draws : ℕ → ℕ) (r : Room) → (on_tick ops draws r).0.cfg ≡ r.cfg
  unfolding on_tick tick_offline_players notify_empty broadcast_tick settle
  cfg-on_tick draws r = ground arith

  pub presence-ticks_none :
      (dss : List (ℕ → ℕ)) (r : Room)
      → IsRoom r
      → presence uid r.players ≡ none
      → presence uid (run ops r (map ticks dss)).0.players ≡ none
  unfolding run step
  presence-ticks_none [] r h e = e
  presence-ticks_none (ds ∷ dss) r h e =
      presence-ticks_none dss _ (unfold step in step-IsRoom ops r (ticks ds) h)
        (presence-on_tick ds r h ∙ ap (aged r.cfg.reconnect_grace_ticks) e)

  presence-ticks_at :
      (dss : List (ℕ → ℕ)) (r : Room) (grace n score deaths : ℕ)
      → IsRoom r
      → r.cfg.reconnect_grace_ticks ≡ grace
      → n < grace
      → presence uid r.players ≡ some (false, n, score, deaths)
      → presence uid (run ops r (map ticks dss)).0.players
        ≡ (if ltb (n + length dss) grace then some (false, n + length dss, score, deaths) else none)
  unfolding run step
  presence-ticks_at [] r grace n score deaths h g k e = ground arith
  presence-ticks_at (ds ∷ dss) r grace n score deaths h g k e =
      let r' : Room = (on_tick ops ds r).0 in
      let h' : IsRoom r' = unfold step in step-IsRoom ops r (ticks ds) h in
      let next : presence uid r'.players ≡ aged grace (some (false, n, score, deaths)) =
        presence-on_tick ds r h ∙ cc in
      let g' : r'.cfg.reconnect_grace_ticks ≡ grace =
        ap (λ (c : Config). c.reconnect_grace_ticks) (cfg-on_tick ds r) ∙ g in
      elim (Bool-cases (leb grace (n + 1))) [
        | inl t ↦ ground (arith, presence-ticks_none dss r' h')
        | inr t ↦ ground (arith, presence-ticks_at dss r' grace (n + 1) score deaths h' g')
      ]

  -- In a room in order, a player who has been offline for fewer ticks than the grace period stays in
  -- the table, with its score and its deaths, until it has been offline for as many ticks as the
  -- period has, and is then removed.
  pub presence-ticks :
      (dss : List (ℕ → ℕ)) (r : Room) (n score deaths : ℕ)
      → IsRoom r
      → n < r.cfg.reconnect_grace_ticks
      → presence uid r.players ≡ some (false, n, score, deaths)
      → presence uid (run ops r (map ticks dss)).0.players ≡ (
          if ltb (n + length dss) r.cfg.reconnect_grace_ticks
          then some (false, n + length dss, score, deaths)
          else none)
  presence-ticks dss r n score deaths h k e = presence-ticks_at dss r _ n score deaths h refl k e

  presence-sets_online :
      (p : Player) (r : Room) (b : Bool)
      → lookup uid r.players ≡ some p
      → presence uid (step ops r (sets_online uid b)).0.players ≡ some (b, 0, p.score, p.deaths)
  unfolding step
  presence-sets_online p r b e =
      ground (arith, ==_iff uid uid, lookup-modify uid uid (put_online b) r.players, e)

  presence-joins :
      (r : Room) (draw n score deaths : ℕ) (b : Bool)
      → presence uid r.players ≡ some (b, n, score, deaths)
      → presence uid (step ops r (joins uid draw)).0.players ≡ some (true, 0, score, deaths)
  unfolding step add_player
  presence-joins r draw n score deaths b e = elim (Option-cases (lookup uid r.players)) [
    | inl q ↦ absurd (ground arith)
    | inr (p, q) ↦ ground (arith, ==_iff uid uid, lookup-modify uid uid (put_online true) r.players)
  ]

  -- In a room in order, a player who goes offline and joins again after fewer ticks than the grace
  -- period is online again, with its score and its deaths.
  pub presence_rejoin :
      (p : Player) (r : Room) (dss : List (ℕ → ℕ)) (draw : ℕ)
      → IsRoom r
      → lookup uid r.players ≡ some p
      → length dss < r.cfg.reconnect_grace_ticks
      → let away = (step ops r (sets_online uid false)).0 in
        let waited = (run ops away (map ticks dss)).0 in
        presence uid (step ops waited (joins uid draw)).0.players
        ≡ some (true, 0, p.score, p.deaths)
  presence_rejoin p r dss draw h e k =
      let away : Room = (step ops r (sets_online uid false)).0 in
      let waited : Room = (run ops away (map ticks dss)).0 in
      let ha : IsRoom away = step-IsRoom ops r (sets_online uid false) h in
      let w : presence uid waited.players ≡ some (false, length dss, p.score, p.deaths) = ground (
        arith,
        presence-ticks_at dss away r.cfg.reconnect_grace_ticks 0 p.score p.deaths ha
            (unfold step in refl) (omega (arith, k)) (presence-sets_online p r false e),
      ) in
      presence-joins waited draw (length dss) p.score p.deaths false w
