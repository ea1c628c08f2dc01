-- ===== src/Room/Table.antt =====
-- The table of a room's players: sums over it, and assignments that keep it in order.
use lurkspire.Prelude.{
  ℕ, ◌+◌, ◌≡◌, ◌≢◌, sym, ◌∙◌, [], ◌∷◌, Option, none, some, false, arith, lookup, insert, nat_key,
  All-insert, insert-IsMap,
}
use lurkspire.Room.Player.{Player, Players, dead}
use lurkspire.Room.Invariant.{IsPlayer, IsEntry, IsTable}

-- A sum over the players.
abbrev pub total : (Player → ℕ) → Players → ℕ
total f [] = 0
total f ((k, p) ∷ ps) = f p + total f ps

pub total-insert :
    (f : Player → ℕ) (k : ℕ) (v w : Player) (ps : Players)
    → lookup k ps ≡ some w
    → total f (insert k v ps) + f w ≡ total f ps + f v
unfolding lookup insert
total-insert f k v w [] h = cc
total-insert f k v w ((i, u) ∷ ps) h = ground (arith, total-insert f k v w ps)

-- An assignment of a player that is in order, under its own id.
pub insert-IsTable :
    (grace k : ℕ) (p : Player) (ps : Players)
    → IsTable grace ps
    → p.uid ≡ k
    → IsPlayer grace p
    → IsTable grace (insert k p ps)
insert-IsTable grace k p ps t e h = record {
  distinct = insert-IsMap k p ps t.distinct;
  entries = All-insert (IsEntry grace) k p ps t.entries (λ j q. (e ∙ sym q, h));
}

-- What a search may return: nothing, or an entry with the property, not the shooter's and alive.
abbrev pub IsChosen : (ℕ × Player → Type 0) → ℕ → Option (ℕ × Player) → Type 0
IsChosen P sid none = Unit {0}
IsChosen P sid (some kp) = P kp × (kp.0 ≢ sid) × (dead kp.1 ≡ false)
