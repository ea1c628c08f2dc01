-- ===== src/Room/Roster.antt =====
-- internal/room/room.go: joining, the grace of players who are offline, the notice of an empty room,
-- and equipment.
use lurkspire.Prelude.{
  ℕ, ◌+◌, List, [], ◌∷◌, none, some, Bool, true, false, ◌&&◌, not, if◌then◌else◌, leb, length,
  lookup, insert, modify, nat_key,
}
use lurkspire.Protocol.Battle.{F32}
use lurkspire.Room.Float.{FloatOps}
use lurkspire.Room.Player.{Player, Players, base_block_max}
use lurkspire.Room.State.{Room, Out, emptied_notice, new_player}

-- `p.Online = online; p.OfflineTicks = 0`
abbrev pub put_online : Bool → Player → Player
put_online b p = record p { online = b; offline_ticks = 0 }

-- `addPlayer`; the Boolean is whether it returned nil.
unfoldable pub add_player : ℕ → ℕ → Room → Room × Bool
unfolding new_player
add_player uid draw r = elim (lookup uid r.players) [
  | some p ↦ (record r { players = modify uid (put_online true) r.players }, true)
  | none ↦ if leb r.cfg.max_players (length r.players) then (r, false) else (
    record r {
      players = insert uid (new_player uid r.tick draw) r.players;
      had_players = true;
      emptied = false;
    },
    true,
  )
]

-- The loop of `tickOfflinePlayers`.
unfoldable pub age_offline : ℕ → Players → Players
age_offline grace [] = []
age_offline grace ((k, p) ∷ ps) =
    let rest = age_offline grace ps in
    let older = record p { offline_ticks = p.offline_ticks + 1 } in
    if p.online
    then (k, p) ∷ rest
    else if leb grace older.offline_ticks
    then rest
    else (k, older) ∷ rest

abbrev pub is_empty : Players → Bool
is_empty [] = true
is_empty (p ∷ ps) = false

-- The notice at the end of `tickOfflinePlayers`.
unfoldable pub notify_empty : Room → Room × List Out
notify_empty r =
    if is_empty r.players && (r.had_players && not r.emptied)
    then (record r { emptied = true }, if r.on_empty then emptied_notice r.id ∷ [] else [])
    else (r, [])

unfoldable pub tick_offline_players : Room → Room × List Out
unfolding age_offline notify_empty
tick_offline_players r =
    notify_empty (record r { players = age_offline r.cfg.reconnect_grace_ticks r.players })

-- `applyEquip`
unfoldable pub apply_equip : FloatOps → ℕ → F32 → Room → Room
apply_equip ops uid bonus r =
    let top = ops.add base_block_max bonus in
    record r { players = modify uid (λ p. record p { block_max = top; block = top }) r.players }
