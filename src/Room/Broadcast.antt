-- ===== src/Room/Broadcast.antt =====
-- internal/room/room.go: what a tick pushes to the gateway.
use lurkspire.Prelude.{
  ℕ, List, [], ◌∷◌, ◌++◌, map, Option, none, some, Bool, true, false, ◌&&◌, ◌||◌, not,
  if◌then◌else◌, ltb, leb, u16, lookup, modify, nat_key,
}
use lurkspire.Protocol.Battle.{
  PlayerState, HitEvent, SettleEntry, encode_state, encode_hit, encode_settle,
}
use lurkspire.Room.Player.{Player, Players, snapshot}
use lurkspire.Room.State.{Room, Out, broadcast}

abbrev pub msg_battle_state : ℕ
msg_battle_state = 320

abbrev pub msg_battle_hit : ℕ
msg_battle_hit = 330

abbrev pub msg_battle_death : ℕ
msg_battle_death = 331

abbrev pub msg_battle_settle : ℕ
msg_battle_settle = 340

abbrev pub snapshots_of : Players → List PlayerState
snapshots_of ps = map (λ kp. snapshot kp.1) ps

abbrev pub just_died : Option Player → Bool
just_died none = false
just_died (some p) = p.just_died

-- The loop of `broadcastTick` over the events.
unfoldable pub broadcast_events : List HitEvent → Players → Players × List Out
broadcast_events [] ps = (ps, [])
broadcast_events (ev ∷ evs) ps = elim (just_died (lookup ev.target ps)) [
  | true ↦
      let (ps', outs) =
        broadcast_events evs (modify ev.target (λ p. record p { just_died = false }) ps) in
      (
        ps',
        broadcast msg_battle_hit (encode_hit ev)
            ∷ broadcast msg_battle_death (encode_hit ev)
            ∷ outs,
      )
  | false ↦
      let (ps', outs) = broadcast_events evs ps in
      (ps', broadcast msg_battle_hit (encode_hit ev) ∷ outs)
]

abbrev pub any_score : ℕ → Players → Bool
any_score n [] = false
any_score n ((k, p) ∷ ps) = leb n p.score || any_score n ps

-- Whether `settleReason` is not the empty text.
unfoldable pub settles : Room → Bool
settles r =
    (ltb 0 r.cfg.settle_score && any_score r.cfg.settle_score r.players)
    || (ltb 0 r.cfg.settle_ticks && leb r.cfg.settle_ticks r.tick)

abbrev pub entries_of : Players → List SettleEntry
entries_of ps = map (λ kp. record { uid = kp.1.uid; score = u16 kp.1.score }) ps

-- The end of `broadcastTick`.
unfoldable pub settle : Room → Room × List Out
unfolding settles
settle r =
    if not r.settled && settles r
    then (
      record r { settled = true },
      broadcast msg_battle_settle (encode_settle (entries_of r.players)) ∷ [],
    )
    else (r, [])

unfoldable pub broadcast_tick : Room → Room × List Out
unfolding broadcast_events settle
broadcast_tick r =
    let state = broadcast msg_battle_state (encode_state (snapshots_of r.players)) in
    let (ps, hits) = broadcast_events r.pending_events r.players in
    let (r', end) = settle (record r { players = ps; pending_events = [] }) in
    (r', state ∷ (hits ++ end))
