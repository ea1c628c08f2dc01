-- ===== src/Store/Users/Table.antt =====
-- What a store promises of its users: one table, in the order of creation, with the number of the
-- last id. A user is found by a search of the table.
use lurkspire.Prelude.{
  ℕ, ◌+◌, List, [], ◌∷◌, ◌++◌, none, some, Bool, ◌==◌, find, update_first, text_beq,
}
use lurkspire.Store.Users.Catalogue.{Text}
use lurkspire.Store.Users.{
  User, StoreError, account_exists, nickname_exists, not_found, Returned, returned, failed, fetch,
}

pub record Table : Type 0 where
  pub last_id : ℕ
  pub rows : List User

abbrev pub new_table : Table
new_table = record { last_id = 0; rows = [] }

abbrev pub has_account : Text → User → Bool
has_account account u = text_beq u.account account

abbrev pub has_nickname : Text → User → Bool
has_nickname nickname u = text_beq u.nickname nickname

abbrev pub has_id : ℕ → User → Bool
has_id id u = u.id == id

abbrev pub create_row : User → Table → Returned StoreError ℕ × Table
create_row u t = elim (find (has_account u.account) t.rows) [
  | some v ↦ (failed account_exists, t)
  | none ↦ elim (find (has_nickname u.nickname) t.rows) [
    | some v ↦ (failed nickname_exists, t)
    | none ↦ (
      returned (t.last_id + 1),
      record { last_id = t.last_id + 1; rows = t.rows ++ (record u { id = t.last_id + 1 } ∷ []) },
    )
  ]
]

abbrev pub select : (User → Bool) → Table → Returned StoreError User
select p t = fetch (find p t.rows)

abbrev pub update_equip : ℕ → ℕ → Table → Returned StoreError (Unit {0}) × Table
update_equip id equip t = elim (find (has_id id) t.rows) [
  | none ↦ (failed not_found, t)
  | some u ↦ (
    returned tt,
    record t { rows = update_first (has_id id) (λ u. record u { equip_id = equip }) t.rows },
  )
]
