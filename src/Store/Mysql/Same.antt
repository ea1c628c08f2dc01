-- ===== src/Store/Mysql/Same.antt =====
-- internal/store/store.go: what a statement of `MySQLStore` means, and what `MemStore` does.

use lurkspire.Prelude.{
  ℕ, ◌≤◌, ◌≡◌, refl, sym, ap, ◌∙◌, inl, inr, List, [], ◌∷◌, none, some, Option, Bool, true, false,
  arith, length, All, All-insert, All-erase, All-lookup, find, lookup, insert, erase, map,
  insert_same, Option-cases, Bool-cases, update_first, nat_key,
}
use lurkspire.Store.Users.{
  User, MemStore, not_found, returned, failed, fetch, create_user, set_equip, list_equipments,
  list_equipments_loop, get_equipment,
}
use lurkspire.Store.Users.Catalogue.{Equipment, catalogue}
use lurkspire.Store.Friends.{
  Friendships, pair_key, invite_friend, accept_friend, reject_friend, pending_friend_ids,
  friend_ids,
}
use lurkspire.Store.Friends.Changes.{has_status}
use lurkspire.Store.Mysql.{scan_row, read_rows, asks, are_friends}
use lurkspire.Store.Mysql.Meaning.{
  Tables, first_row, select_ids, enabled_of, equipment_of, all_rows, set_status, drop_request,
  add_request,
}

-- The rows that db/schema.sql seeds.
abbrev pub seeded : List (Equipment × Bool)
seeded = map (λ p. (p.1, true)) catalogue

-- The tables of a store in memory.
abbrev pub tables_of : MemStore → Tables
tables_of m = record {
  last_id = m.next_id;
  users = m.cells;
  friends = m.friends;
  equipments = seeded;
}

pub all_rows-read : {A : Type 0} (xs : List A) → read_rows (all_rows xs) ≡ returned xs
all_rows-read [] = refl
all_rows-read (x ∷ xs) = rw (all_rows-read xs) refl

pub select_ids-asks :
    (uid : ℕ) (fs : Friendships) → select_ids (asks uid) fs ≡ pending_friend_ids uid fs
unfolding pending_friend_ids
select_ids-asks uid [] = refl
select_ids-asks uid (((a, b), s) ∷ fs) = ground (arith, select_ids-asks uid fs)

pub select_ids-are_friends :
    (uid : ℕ) (fs : Friendships) → select_ids (are_friends uid uid uid) fs ≡ friend_ids uid fs
unfolding friend_ids
select_ids-are_friends uid [] = refl
select_ids-are_friends uid (((a, b), s) ∷ fs) = ground (arith, select_ids-are_friends uid fs)

pub add_request-same :
    (a b : ℕ) (fs : Friendships) → add_request (a, b) (lookup (a, b) fs) fs ≡ invite_friend a b fs
unfolding invite_friend
add_request-same a b fs = elim (Option-cases (lookup (a, b) fs)) [
  | inl e ↦ rw (e, invite_friend) refl
  | inr (s, e) ↦ rw (e, invite_friend) refl
]

-- The statuses of a table of friendships are 0 and 1.
abbrev pub AreStatuses : Friendships → Type 0
AreStatuses fs = All (λ p. p.1 ≤ 1) fs

pub set_status-same :
    (uid other : ℕ) (fs : Friendships)
    → AreStatuses fs
    → set_status (other, uid) (lookup (other, uid) fs) fs ≡ accept_friend uid other fs
unfolding accept_friend
set_status-same uid other fs a = elim (Option-cases (lookup (other, uid) fs)) [
  | inl e ↦ rw (e, accept_friend) refl
  | inr (s, e) ↦
      let small : s ≤ 1 = All-lookup (λ p. p.1 ≤ 1) (other, uid) s fs a e in
      let same : s ≡ 1 → insert (other, uid) 1 fs ≡ fs =
        λ q. insert_same (other, uid) 1 fs (ground (arith, e, q)) in
      rw (e, accept_friend) (ground (arith, small, same))
]

erase-absent : (k : ℕ × ℕ) (fs : Friendships) → lookup k fs ≡ none → erase k fs ≡ fs
unfolding lookup erase
erase-absent k [] h = refl
erase-absent k ((j, s) ∷ fs) h = ground (arith, erase-absent k fs)

pub drop_request-same :
    (uid other : ℕ) (fs : Friendships)
    → AreStatuses fs
    → has_status 1 other uid fs ≡ false
    → drop_request (other, uid) (lookup (other, uid) fs) fs ≡ reject_friend uid other fs
unfolding reject_friend
drop_request-same uid other fs a h = elim (Option-cases (lookup (other, uid) fs)) [
  | inl e ↦ rw e (sym (erase-absent (other, uid) fs e))
  | inr (s, e) ↦
      let small : s ≤ 1 = All-lookup (λ p. p.1 ≤ 1) (other, uid) s fs a e in
      rw e (ground (arith, small, h, e))
]

pub list_equipments-seeded :
    (m : MemStore) → m.equipments ≡ catalogue → list_equipments m ≡ enabled_of seeded
unfolding list_equipments list_equipments_loop lookup
list_equipments-seeded m e = ap (λ es. list_equipments_loop (length es) 0 es) e

first_row-scan :
    (o : Option Equipment)
    → scan_row (first_row o) ≡ (elim o [ none ↦ failed not_found | some e ↦ returned e ])
first_row-scan none = refl
first_row-scan (some e) = refl

pub get_equipment-seeded :
    (id : ℕ) (m : MemStore)
    → m.equipments ≡ catalogue
    → get_equipment id m ≡ scan_row (first_row (equipment_of id seeded))
unfolding get_equipment lookup
get_equipment-seeded id m e =
    ap (λ es. elim (lookup id es) [ none ↦ failed not_found | some e ↦ returned e ]) e
    ∙ sym (first_row-scan (equipment_of id seeded))

-- A search that compares texts byte by byte finds what the collation finds.
pub find-plain :
    (p q : User → Bool) (P : User → Type 0) (us : List User)
    → ((u : User) → P u → p u ≡ q u)
    → All P us
    → find p us ≡ find q us
find-plain p q P [] h a = refl
find-plain p q P (u ∷ us) h a = rw (h u a.0, find-plain p q P us h a.1) refl

pub fetch-first_row : (o : Option User) → scan_row (first_row o) ≡ fetch o
fetch-first_row none = refl
fetch-first_row (some u) = refl

-- A creation leaves the friendships and the equipment.
pub create_user-others :
    (u : User) (m : MemStore)
    → ((create_user u m).1.friends ≡ m.friends) × ((create_user u m).1.equipments ≡ m.equipments)
unfolding create_user
create_user-others u m = ground arith

pub set_equip-others :
    (id equip : ℕ) (m : MemStore)
    → ((set_equip id equip m).1.friends ≡ m.friends)
      × ((set_equip id equip m).1.equipments ≡ m.equipments)
unfolding set_equip
set_equip-others id equip m = ground arith

pub invite_friend-AreStatuses :
    (a b : ℕ) (fs : Friendships) → AreStatuses fs → AreStatuses (invite_friend a b fs)
unfolding invite_friend
invite_friend-AreStatuses a b fs h = elim (Option-cases (lookup (a, b) fs)) [
  | inl e ↦ rw (e, invite_friend) (All-insert (λ p. p.1 ≤ 1) (a, b) 0 fs h (λ j q. omega arith))
  | inr (s, e) ↦ rw (e, invite_friend) h
]

pub accept_friend-AreStatuses :
    (uid other : ℕ) (fs : Friendships) → AreStatuses fs → AreStatuses (accept_friend uid other fs)
unfolding accept_friend
accept_friend-AreStatuses uid other fs h = elim (Option-cases (lookup (other, uid) fs)) [
  | inl e ↦ rw (e, accept_friend) h
  | inr (s, e) ↦
      rw (e, accept_friend) (All-insert (λ p. p.1 ≤ 1) (other, uid) 1 fs h (λ j q. omega arith))
]

pub reject_friend-AreStatuses :
    (uid other : ℕ) (fs : Friendships) → AreStatuses fs → AreStatuses (reject_friend uid other fs)
unfolding reject_friend
reject_friend-AreStatuses uid other fs h = All-erase (λ p. p.1 ≤ 1) (other, uid) fs h

pub fetch_returned : (o : Option User) (u : User) → fetch o ≡ returned u → o ≡ some u
fetch_returned none u e = absurd (ground arith)
fetch_returned (some v) u e = ground arith

pub All-update_first :
    (p : User → Bool) (f : User → User) (P : User → Type 0) (us : List User)
    → ((u : User) → P u → P (f u))
    → All P us
    → All P (update_first p f us)
All-update_first p f P [] h a = tt
All-update_first p f P (u ∷ us) h a = elim (Bool-cases (p u)) [
  | inl t ↦ rw t (h u a.0, a.1)
  | inr t ↦ rw t (a.0, All-update_first p f P us h a.1)
]
