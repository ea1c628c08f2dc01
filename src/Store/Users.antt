-- ===== src/Store/Users.antt =====
-- internal/store/store.go: the users and the equipment of `MemStore`. Its three maps hold pointers
-- to the same users: a pointer is the index of a cell, and a user is written once, in its cell.
pub mod Catalogue
pub mod Table
pub mod Refines
pub mod Run
use mathlib.Core.Option
use lurkspire.Prelude.{
  ℕ, zero, suc, ◌+◌, List, [], ◌∷◌, ◌++◌, Option, none, some, Bool, u32, length, lookup, insert,
  nat_key, text_key, nth, nth_opt, update_at,
}
use lurkspire.Store.Friends.{Friendships}
use Catalogue.{Text, Equipment, catalogue}

pub record User : Type 0 where
  pub id : ℕ
  pub account : Text
  pub password_hash : Text
  pub nickname : Text
  pub equip_id : ℕ

-- The errors of the package, and those of a database driver, which the memory never returns.
pub data StoreError : Type 0 where
  account_exists nickname_exists not_found driver_error : StoreError

-- A Go pair of a value and an error.
pub data Returned {ℓ κ} (E : Type ℓ) (A : Type κ) : Type (ℓ ⊔ κ) where
  returned : A → Returned E A
  failed : E → Returned E A

pub record MemStore : Type 0 where
  pub next_id : ℕ
  pub cells : List User
  pub users : List (Text × ℕ)
  pub by_nick : List (Text × ℕ)
  pub by_id : List (ℕ × ℕ)
  pub friends : Friendships
  pub equipments : List (ℕ × Equipment)

abbrev pub new_mem_store : MemStore
new_mem_store = record {
  next_id = 0;
  cells = [];
  users = [];
  by_nick = [];
  by_id = [];
  friends = [];
  equipments = catalogue;
}

-- `CreateUser`; the caller's user gets the id that is returned.
unfoldable pub create_user : User → MemStore → Returned StoreError ℕ × MemStore
create_user u m = elim (lookup u.account m.users) [
  | some a ↦ (failed account_exists, m)
  | none ↦ elim (lookup u.nickname m.by_nick) [
    | some a ↦ (failed nickname_exists, m)
    | none ↦
        let id = u32 (m.next_id + 1) in
        let cp = length m.cells in
        (
          returned id,
          record m {
            next_id = id;
            cells = m.cells ++ (record u { id = id } ∷ []);
            users = insert u.account cp m.users;
            by_nick = insert u.nickname cp m.by_nick;
            by_id = insert id cp m.by_id;
          },
        )
  ]
]

-- `u, ok := m.x[key]`, and the copy of what it points to.
abbrev pub fetch : Option User → Returned StoreError User
fetch none = failed not_found
fetch (some u) = returned u

unfoldable pub get_user_by_account : Text → MemStore → Returned StoreError User
get_user_by_account account m = fetch (nth_opt (lookup account m.users) m.cells)

unfoldable pub get_user_by_nickname : Text → MemStore → Returned StoreError User
get_user_by_nickname nickname m = fetch (nth_opt (lookup nickname m.by_nick) m.cells)

unfoldable pub get_user_by_id : ℕ → MemStore → Returned StoreError User
get_user_by_id id m = fetch (nth_opt (lookup id m.by_id) m.cells)

-- `SetEquip`; `failed` is the error.
unfoldable pub set_equip : ℕ → ℕ → MemStore → Returned StoreError (Unit {0}) × MemStore
set_equip id equip m = elim (lookup id m.by_id) [
  | none ↦ (failed not_found, m)
  | some a ↦
      (returned tt, record m { cells = update_at a (λ u. record u { equip_id = equip }) m.cells })
]

-- `GetEquipment`
unfoldable pub get_equipment : ℕ → MemStore → Returned StoreError Equipment
get_equipment id m = elim (lookup id m.equipments) [ none ↦ failed not_found | some e ↦ returned e ]

-- The loop of `ListEquipments` for `n` more ids from `i` on.
unfoldable pub list_equipments_loop : ℕ → ℕ → List (ℕ × Equipment) → List Equipment
list_equipments_loop zero i es = []
list_equipments_loop (suc n) i es =
    let rest = list_equipments_loop n (i + 1) es in
    elim (lookup i es) [ none ↦ rest | some e ↦ e ∷ rest ]

unfoldable pub list_equipments : MemStore → List Equipment
list_equipments m = list_equipments_loop (length m.equipments) 0 m.equipments
