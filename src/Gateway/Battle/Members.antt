-- ===== src/Gateway/Battle/Members.antt =====
-- internal/gateway/hub.go, `roomSessions`: the keys of a room's map of sessions.
use lurkspire.Prelude.{
  ℕ, ◌≡◌, List, [], ◌∷◌, false, arith, ◌==◌, ==_iff, All, All-modify, modify, nat_key,
}
use lurkspire.Gateway.Friends.{contains_id}
use lurkspire.Gateway.Battle.{add_member, remove_member}

-- No session twice.
abbrev pub AreDistinct : List ℕ → Type 0
AreDistinct [] = Unit {0}
AreDistinct (x ∷ xs) = (contains_id x xs ≡ false) × AreDistinct xs

-- In no room.
abbrev pub AreApart : List (ℕ × List ℕ) → Type 0
AreApart rooms = All (λ e. AreDistinct e.1) rooms

contains_id-add_member :
    (x uid : ℕ) (us : List ℕ)
    → (x == uid) ≡ false
    → contains_id x us ≡ false
    → contains_id x (add_member uid us) ≡ false
contains_id-add_member x uid [] n h = ground (arith, ==_iff x uid, ==_iff uid x)
contains_id-add_member x uid (u ∷ us) n h = ground (arith, contains_id-add_member x uid us)

pub add_member-AreDistinct :
    (uid : ℕ) (us : List ℕ) → AreDistinct us → AreDistinct (add_member uid us)
add_member-AreDistinct uid [] h = (ground arith, tt)
add_member-AreDistinct uid (u ∷ us) h =
    let rest = add_member-AreDistinct uid us h.1 in
    ground (arith, contains_id-add_member u uid us, h, rest)

contains_id-remove_member :
    (x uid : ℕ) (us : List ℕ)
    → contains_id x us ≡ false
    → contains_id x (remove_member uid us) ≡ false
contains_id-remove_member x uid [] h = ground arith
contains_id-remove_member x uid (u ∷ us) h = ground (arith, contains_id-remove_member x uid us)

pub remove_member-AreDistinct :
    (uid : ℕ) (us : List ℕ) → AreDistinct us → AreDistinct (remove_member uid us)
remove_member-AreDistinct uid [] h = tt
remove_member-AreDistinct uid (u ∷ us) h =
    let rest = remove_member-AreDistinct uid us h.1 in
    ground (arith, contains_id-remove_member u uid us, h, rest)

-- A session that leaves a room.
pub drop_apart :
    (r uid : ℕ) (rooms : List (ℕ × List ℕ))
    → AreApart rooms
    → AreApart (modify r (remove_member uid) rooms)
drop_apart r uid rooms a =
    All-modify (λ e. AreDistinct e.1) r (remove_member uid) rooms a (remove_member-AreDistinct uid)
