-- ===== src/Room/Loop/Invariant.antt =====
-- internal/room/room.go: what holds of a room after any messages.
use lurkspire.Prelude.{
  ℕ, ◌+◌, ◌≤◌, ◌<◌, ◌≡◌, inl, inr, refl, sym, ◌∙◌, subst, List, [], ◌∷◌, some, true, false, arith,
  leb, length, All-erase, All-modify, All-lookup, lookup, insert, modify, nat_key, erase-IsMap,
  modify-IsMap, length-insert, length-insert_old, length-erase, length-modify, Option-cases,
  Bool-cases,
}
use lurkspire.Protocol.Battle.{InputReport, HitEvent}
use lurkspire.Room.Float.{FloatOps}
use lurkspire.Room.Player.{Config, Player, Players, base_block_max}
use lurkspire.Room.Validation.{check_move, mark_violation}
use lurkspire.Room.Invariant.{IsPlayer, IsEntry, IsTable}
use lurkspire.Room.Table.{insert-IsTable}
use lurkspire.Room.Loop.Actions.{weapons-IsFair}
use lurkspire.Room.Upkeep.{tick_combat}
use lurkspire.Room.Upkeep.Keeps.{
  tick_combat-IsTable, length-tick_combat, age_offline-IsTable, length-age_offline,
}
use lurkspire.Room.State.{
  Room, Msg, ticks, inputs, snapshots, drains, joins, leaves, equips, sets_online, sets_broadcast,
  sets_on_empty, new_room, new_player,
}
use lurkspire.Room.Roster.{add_player, put_online, notify_empty, tick_offline_players, apply_equip}
use lurkspire.Room.Broadcast.{just_died, broadcast_events, settle, broadcast_tick}
use lurkspire.Room.Loop.Input.{accept, take_report, handle_input}
use lurkspire.Room.Loop.{on_tick, step, run}

-- The settings are in range, every player is in order, and no more than the room takes.
pub record IsRoom (r : Room) : Type 0 where
  pub some_places : 0 < r.cfg.max_players
  pub eight_places : r.cfg.max_players ≤ 8
  pub some_grace : 0 < r.cfg.reconnect_grace_ticks
  pub table : IsTable r.cfg.reconnect_grace_ticks r.players
  pub capacity : length r.players ≤ r.cfg.max_players

-- The same for another state with the same settings and no more players.
pub IsRoom-of :
    (r r' : Room)
    → IsRoom r
    → r'.cfg ≡ r.cfg
    → IsTable r.cfg.reconnect_grace_ticks r'.players
    → length r'.players ≤ length r.players
    → IsRoom r'
IsRoom-of r r' h e t k = record {
  some_places = subst (λ (c : Config). 0 < c.max_players) (sym e) h.some_places;
  eight_places = subst (λ (c : Config). c.max_players ≤ 8) (sym e) h.eight_places;
  some_grace = subst (λ (c : Config). 0 < c.reconnect_grace_ticks) (sym e) h.some_grace;
  table = subst (λ (c : Config). IsTable c.reconnect_grace_ticks r'.players) (sym e) t;
  capacity =
      subst (λ (c : Config). length r'.players ≤ c.max_players) (sym e) (omega (arith, h.capacity));
}

-- A write through a pointer that keeps the id and what holds of the player.
modify-IsTable :
    (grace k : ℕ) (f : Player → Player) (ps : Players)
    → ((p : Player) → (f p).uid ≡ p.uid)
    → ((p : Player) → IsPlayer grace p → IsPlayer grace (f p))
    → IsTable grace ps
    → IsTable grace (modify k f ps)
modify-IsTable grace k f ps u h t = record {
  distinct = modify-IsMap k f ps t.distinct;
  entries = All-modify (IsEntry grace) k f ps t.entries (λ w q. (u w ∙ q.0, h w q.1));
}

module _ (ops : FloatOps) where
  take_report-IsRoom :
      (uid : ℕ) (p : Player) (report : InputReport) (r : Room)
      → IsRoom r
      → lookup uid r.players ≡ some p
      → IsRoom (take_report ops uid p report r)
  unfolding take_report
  take_report-IsRoom uid p report r h e =
      let grace : ℕ = r.cfg.reconnect_grace_ticks in
      let q : Player = record p { last_report_tick = r.tick } in
      let own : IsEntry grace (uid, p) =
        All-lookup (IsEntry grace) uid p r.players h.table.entries e in
      let hp : IsPlayer grace p = own.1 in
      let bad : Player = mark_violation q false in
      let good : Player = accept (mark_violation q true) report in
      let hbad : IsPlayer grace bad = unfold mark_violation in ground arith in
      let hgood : IsPlayer grace good = unfold mark_violation accept in ground arith in
      let tbad : IsTable grace (insert uid bad r.players) =
        insert-IsTable grace uid bad r.players h.table (unfold mark_violation in own.0) hbad in
      let tgood : IsTable grace (insert uid good r.players) =
        insert-IsTable grace uid good r.players h.table (unfold mark_violation accept in own.0)
          hgood in
      let fair =
        weapons-IsFair ops grace r.walls uid report.buttons (insert uid good r.players) tgood in
      elim (Bool-cases (check_move ops q report)) [
        | inl ok ↦
            rw (ok, take_report)
              (IsRoom-of r _ h refl fair.table
                (omega (arith, fair.size, length-insert_old uid good p r.players e)))
        | inr no_move ↦
            rw (no_move, take_report)
              (IsRoom-of r _ h refl tbad (omega (arith, length-insert_old uid bad p r.players e)))
      ]

  -- Joining keeps the room in order, whether or not there is a place.
  add_player-IsRoom : (uid draw : ℕ) (r : Room) → IsRoom r → IsRoom (add_player uid draw r).0
  unfolding add_player
  add_player-IsRoom uid draw r h = elim (Option-cases (lookup uid r.players)) [
    | inr (p, e) ↦
        rw (e, add_player)
          (IsRoom-of r _ h refl
            (modify-IsTable _ uid (put_online true) r.players (λ q. refl) (λ q k. ground arith)
              h.table)
            (omega (arith, length-modify uid (put_online true) r.players)))
    | inl e ↦
        rw (e, add_player)
          (elim (Bool-cases (leb r.cfg.max_players (length r.players))) [
            | inl full ↦ rw full h
            | inr room ↦
                let grace : ℕ = r.cfg.reconnect_grace_ticks in
                let p : Player = new_player uid r.tick draw in
                let hp : IsPlayer grace p = unfold new_player in ground (arith, h.some_grace) in
                let u : p.uid ≡ uid = unfold new_player in refl in
                rw room (record {
                  some_places = h.some_places;
                  eight_places = h.eight_places;
                  some_grace = h.some_grace;
                  table = insert-IsTable grace uid p r.players h.table u hp;
                  capacity = ground (arith, length-insert uid p r.players e);
                })
          ])
  ]

-- The notice, the events and the settlement leave players and settings alone, but for `just_died`.
notify_empty-IsRoom : (r : Room) → IsRoom r → IsRoom (notify_empty r).0
unfolding notify_empty
notify_empty-IsRoom r h = ground arith

settle-IsRoom : (r : Room) → IsRoom r → IsRoom (settle r).0
unfolding settle
settle-IsRoom r h = ground arith

broadcast_events-IsTable :
    (grace : ℕ) (evs : List HitEvent) (ps : Players)
    → IsTable grace ps
    → IsTable grace (broadcast_events evs ps).0 × (length (broadcast_events evs ps).0 ≡ length ps)
unfolding broadcast_events
broadcast_events-IsTable grace [] ps t = (t, refl)
broadcast_events-IsTable grace (ev ∷ evs) ps t =
    let clear : Player → Player = λ p. record p { just_died = false } in
    let ps' : Players = modify ev.target clear ps in
    let t' : IsTable grace ps' =
      modify-IsTable grace ev.target clear ps (λ p. refl) (λ p k. ground arith) t in
    elim (Bool-cases (just_died (lookup ev.target ps))) [
      | inl e ↦
          let (u, l) = broadcast_events-IsTable grace evs ps' t' in
          rw (e, broadcast_events) (u, l ∙ length-modify ev.target clear ps)
      | inr e ↦ rw (e, broadcast_events) (broadcast_events-IsTable grace evs ps t)
    ]

broadcast_tick-IsRoom : (r : Room) → IsRoom r → IsRoom (broadcast_tick r).0
unfolding broadcast_tick
broadcast_tick-IsRoom r h =
    let (t, l) =
      broadcast_events-IsTable r.cfg.reconnect_grace_ticks r.pending_events r.players h.table in
    let r' : Room = record r {
      players = (broadcast_events r.pending_events r.players).0;
      pending_events = [];
    } in
    settle-IsRoom r' (IsRoom-of r r' h refl t (omega (arith, l)))

tick_offline_players-IsRoom : (r : Room) → IsRoom r → IsRoom (tick_offline_players r).0
unfolding tick_offline_players
tick_offline_players-IsRoom r h =
    let grace : ℕ = r.cfg.reconnect_grace_ticks in
    notify_empty-IsRoom _ (
      IsRoom-of r _ h refl (age_offline-IsTable grace r.players h.table)
        (length-age_offline grace r.players))

module _ (ops : FloatOps) where
  on_tick-IsRoom : (draws : ℕ → ℕ) (r : Room) → IsRoom r → IsRoom (on_tick ops draws r).0
  unfolding on_tick
  on_tick-IsRoom draws r h =
      let grace : ℕ = r.cfg.reconnect_grace_ticks in
      let ps : Players = tick_combat ops draws r.players in
      let r1 : Room = record r { tick = r.tick + 1; players = ps } in
      let h1 : IsRoom r1 =
        IsRoom-of r r1 h refl (tick_combat-IsTable ops grace draws r.players h.table)
          (omega (arith, length-tick_combat ops grace draws r.players)) in
      let h2 : IsRoom (tick_offline_players r1).0 = tick_offline_players-IsRoom r1 h1 in
      elim (Bool-cases (tick_offline_players r1).0.on_broadcast) [
        | inl e ↦ rw (e, on_tick) (broadcast_tick-IsRoom _ h2)
        | inr e ↦ rw (e, on_tick) h2
      ]

  -- No message takes a room out of order: its table has one entry for each id, at most as many as
  -- the settings allow and never more than eight, and every player keeps within the limits on
  -- health, cooldowns, charges and grace, dead exactly with no health left.
  pub step-IsRoom : (r : Room) (m : Msg) → IsRoom r → IsRoom (step ops r m).0
  unfolding step
  step-IsRoom r (ticks draws) h = on_tick-IsRoom draws r h
  step-IsRoom r (inputs uid report) h = elim (Option-cases (lookup uid r.players)) [
    | inl e ↦ unfold handle_input in rw (e, handle_input) h
    | inr (p, e) ↦
        unfold handle_input in rw (e, handle_input) (take_report-IsRoom ops uid p report r h e)
  ]
  step-IsRoom r snapshots h = h
  step-IsRoom r drains h = IsRoom-of r _ h refl h.table (omega arith)
  step-IsRoom r (joins uid draw) h = add_player-IsRoom ops uid draw r h
  step-IsRoom r (leaves uid) h =
      IsRoom-of r _ h refl
        (record {
          distinct = erase-IsMap uid r.players h.table.distinct;
          entries = All-erase (IsEntry r.cfg.reconnect_grace_ticks) uid r.players h.table.entries;
        })
        (length-erase uid r.players)
  step-IsRoom r (equips uid bonus) h =
      let top = ops.add base_block_max bonus in
      let f : Player → Player = λ p. record p { block_max = top; block = top } in
      unfold apply_equip in
      IsRoom-of r _ h refl
        (modify-IsTable _ uid f r.players (λ p. refl) (λ p k. ground arith) h.table)
        (omega (arith, length-modify uid f r.players))
  step-IsRoom r (sets_online uid b) h =
      IsRoom-of r _ h refl
        (modify-IsTable _ uid (put_online b) r.players (λ p. refl)
          (λ p k. ground (arith, h.some_grace)) h.table)
        (omega (arith, length-modify uid (put_online b) r.players))
  step-IsRoom r sets_broadcast h = IsRoom-of r _ h refl h.table (omega arith)
  step-IsRoom r sets_on_empty h = IsRoom-of r _ h refl h.table (omega arith)

  run-IsRoom : (r : Room) (ms : List Msg) → IsRoom r → IsRoom (run ops r ms).0
  unfolding run
  run-IsRoom r [] h = h
  run-IsRoom r (m ∷ ms) h = run-IsRoom (step ops r m).0 ms (step-IsRoom r m h)

  pub new_room-IsRoom : (id : List ℕ) (cfg : Config) → IsRoom (new_room id cfg)
  unfolding new_room
  new_room-IsRoom id cfg = record {
    some_places = ground arith;
    eight_places = ground arith;
    some_grace = ground arith;
    table = record { distinct = tt; entries = tt };
    capacity = omega arith;
  }

  -- So a new room is in order after any messages, with any settings.
  pub run-new_room-IsRoom :
      (id : List ℕ) (cfg : Config) (ms : List Msg) → IsRoom (run ops (new_room id cfg) ms).0
  run-new_room-IsRoom id cfg ms = run-IsRoom _ ms (new_room-IsRoom id cfg)
