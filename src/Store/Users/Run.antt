-- ===== src/Store/Users/Run.antt =====
-- internal/store/store.go: whole runs of `MemStore`'s operations on users, against the table.
use lurkspire.Prelude.{ℕ, ◌+◌, ◌≤◌, ◌≡◌, refl, ap, List, [], ◌∷◌, arith, IsU32, length}
use lurkspire.Store.Users.Catalogue.{Text}
use lurkspire.Store.Users.{
  User, StoreError, MemStore, new_mem_store, create_user, get_user_by_account, get_user_by_nickname,
  get_user_by_id, set_equip, Returned,
}
use lurkspire.Store.Users.Table.{
  Table, new_table, has_account, has_nickname, has_id, create_row, select, update_equip,
}
use lurkspire.Store.Users.Refines.{
  view, IsStore, new_mem_store-IsStore, create_user-refines, get_user_by_account-refines,
  get_user_by_nickname-refines, get_user_by_id-refines, set_equip-refines,
}

pub data Call : Type 0 where
  creates : User → Call
  gets_by_account : Text → Call
  gets_by_nickname : Text → Call
  gets_by_id : ℕ → Call
  sets_equip : ℕ → ℕ → Call

pub data Answer : Type 0 where
  id_of : Returned StoreError ℕ → Answer
  user_of : Returned StoreError User → Answer
  done : Returned StoreError (Unit {0}) → Answer

-- One call of the store.
unfoldable pub call : Call → MemStore → Answer × MemStore
call (creates u) m = let (r, m') = create_user u m in (id_of r, m')
call (gets_by_account k) m = (user_of (get_user_by_account k m), m)
call (gets_by_nickname k) m = (user_of (get_user_by_nickname k m), m)
call (gets_by_id k) m = (user_of (get_user_by_id k m), m)
call (sets_equip id equip) m = let (r, m') = set_equip id equip m in (done r, m')

-- The same call of the table.
unfoldable pub query : Call → Table → Answer × Table
query (creates u) t = let (r, t') = create_row u t in (id_of r, t')
query (gets_by_account k) t = (user_of (select (has_account k) t), t)
query (gets_by_nickname k) t = (user_of (select (has_nickname k) t), t)
query (gets_by_id k) t = (user_of (select (has_id k) t), t)
query (sets_equip id equip) t = let (r, t') = update_equip id equip t in (done r, t')

unfoldable pub calls : List Call → MemStore → List Answer
calls [] m = []
calls (c ∷ cs) m = let (a, m') = call c m in a ∷ calls cs m'

unfoldable pub queries : List Call → Table → List Answer
queries [] t = []
queries (c ∷ cs) t = let (a, t') = query c t in a ∷ queries cs t'

call-refines :
    (c : Call) (m : MemStore)
    → IsStore m
    → IsU32 (m.next_id + 1)
    → ((call c m).0 ≡ (query c (view m)).0)
      × (view (call c m).1 ≡ (query c (view m)).1)
      × IsStore (call c m).1
unfolding call query
call-refines (creates u) m s h = let (a, b, k) = create_user-refines m s u h in (ap id_of a, b, k)
call-refines (gets_by_account k) m s h = (ap user_of (get_user_by_account-refines m s k), refl, s)
call-refines (gets_by_nickname k) m s h = (ap user_of (get_user_by_nickname-refines m s k), refl, s)
call-refines (gets_by_id k) m s h = (ap user_of (get_user_by_id-refines m s k), refl, s)
call-refines (sets_equip id equip) m s h =
    let (a, b, k) = set_equip-refines m s id equip in (ap done a, b, k)

-- An id is given out by a creation only.
next_id-call :
    (c : Call) (m : MemStore) → IsU32 (m.next_id + 1) → (call c m).1.next_id ≤ m.next_id + 1
unfolding call create_user set_equip
next_id-call (creates u) m h = ground arith
next_id-call (gets_by_account k) m h = omega arith
next_id-call (gets_by_nickname k) m h = omega arith
next_id-call (gets_by_id k) m h = omega arith
next_id-call (sets_equip id equip) m h = ground arith

calls-refines :
    (cs : List Call) (m : MemStore)
    → IsStore m
    → IsU32 (m.next_id + length cs)
    → calls cs m ≡ queries cs (view m)
unfolding calls queries
calls-refines [] m s h = refl
calls-refines (c ∷ cs) m s h =
    let (a, b, k) = call-refines c m s (omega (arith, h)) in
    let rest : calls cs (call c m).1 ≡ queries cs (view (call c m).1) =
      calls-refines cs (call c m).1 k (omega (arith, next_id-call c m (omega (arith, h)), h)) in
    rw (a, rest, b) refl

-- Fewer than 2^32 operations on a new store, in any order, whichever of the three maps they go
-- through, give the answers that the same operations on a new table give.
pub calls-new_mem_store :
    (cs : List Call) → IsU32 (length cs) → calls cs new_mem_store ≡ queries cs new_table
calls-new_mem_store cs h = calls-refines cs new_mem_store new_mem_store-IsStore (omega (arith, h))
