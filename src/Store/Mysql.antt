-- ===== src/Store/Mysql.antt =====
-- internal/store/store.go: `MySQLStore`. The server and database/sql are a parameter: a statement of
-- the code is a constructor with its arguments in the order of its placeholders.
pub mod Meaning
pub mod Created
pub mod Same
pub mod Agrees
mod Friends
mod Users
pub mod Runs
pub mod Tests
use lurkspire.Prelude.{ℕ, List, [], ◌∷◌, Option, none, some, u32}
use lurkspire.Store.Users.{
  User, StoreError, account_exists, nickname_exists, not_found, driver_error, Returned, returned,
  failed,
}
use lurkspire.Store.Users.Catalogue.{Text, Equipment}
use lurkspire.Store.Interface.{Store}

-- The statements that change rows.
pub data Statement : Type 0 where
  -- INSERT INTO users (account, password_hash, nickname) VALUES (?,?,?)
  inserts_user : Text → Text → Text → Statement
  -- UPDATE users SET equip_id=? WHERE id=?
  updates_equip : ℕ → ℕ → Statement
  -- INSERT IGNORE INTO friends (user_a, user_b, status) VALUES (?,?,0)
  inserts_friend : ℕ → ℕ → Statement
  -- UPDATE friends SET status=1 WHERE user_a=? AND user_b=? AND status=0
  updates_friend : ℕ → ℕ → Statement
  -- DELETE FROM friends WHERE user_a=? AND user_b=? AND status=0
  deletes_friend : ℕ → ℕ → Statement

-- SELECT id, account, password_hash, nickname, equip_id FROM users WHERE ...
pub data UserQuery : Type 0 where
  by_account by_nickname : Text → UserQuery
  by_id : ℕ → UserQuery

-- The queries of ids from the table friends.
pub data FriendQuery : Type 0 where
  -- SELECT user_a FROM friends WHERE user_b=? AND status=0
  asks : ℕ → FriendQuery
  -- SELECT IF(user_a=?, user_b, user_a) FROM friends WHERE status=1 AND (user_a=? OR user_b=?)
  are_friends : ℕ → ℕ → ℕ → FriendQuery

-- `sql.ErrNoRows`, and every other error.
pub data SqlError : Type 0 where
  no_rows other_error : SqlError

-- What `Query` gives: the result of `Scan` for every row, and that of `Err` at the end.
pub record Rows (A : Type 0) : Type 0 where
  pub scanned : List (Returned SqlError A)
  pub err : Option SqlError

-- `*sql.DB`. The result of a statement is its `LastInsertId`.
pub record Database (D : Type 0) : Type 0 where
  pub exec : Statement → D → Returned SqlError ℕ × D
  pub user_row : UserQuery → D → Returned SqlError User
  pub equipment_row : ℕ → D → Returned SqlError Equipment
  pub equipment_rows : D → Returned SqlError (Rows Equipment)
  pub id_rows : FriendQuery → D → Returned SqlError (Rows ℕ)

-- `scanRow`, and the same two tests in `GetEquipment`.
abbrev pub scan_row : {A : Type 0} → Returned SqlError A → Returned StoreError A
scan_row (returned a) = returned a
scan_row (failed no_rows) = failed not_found
scan_row (failed other_error) = failed driver_error

-- `return out, rows.Err()`
abbrev pub end_rows : {A : Type 0} → List A → Option SqlError → Returned StoreError (List A)
end_rows out none = returned out
end_rows out (some e) = failed driver_error

-- What a row before them adds to the rows that follow.
abbrev pub put_row : {A : Type 0} → A → Returned StoreError (List A) → Returned StoreError (List A)
put_row a (returned out) = returned (a ∷ out)
put_row a (failed e) = failed e

-- The loop `for rows.Next()`.
abbrev pub scan_rows :
    {A : Type 0} → List (Returned SqlError A) → Option SqlError → Returned StoreError (List A)
scan_rows [] err = end_rows [] err
scan_rows (returned a ∷ rows) err = put_row a (scan_rows rows err)
scan_rows (failed e ∷ rows) err = failed driver_error

-- A query and its loop.
abbrev pub read_rows : {A : Type 0} → Returned SqlError (Rows A) → Returned StoreError (List A)
read_rows (failed e) = failed driver_error
read_rows (returned rows) = scan_rows rows.scanned rows.err

-- `_, err := m.db.Exec(...); return err`
abbrev pub only_error : {D : Type 0} → Returned SqlError ℕ × D → Returned StoreError (Unit {0}) × D
only_error (returned id, d) = (returned tt, d)
only_error (failed e, d) = (failed driver_error, d)

module _ {D : Type 0} (db : Database D) where
  unfoldable pub get_user_by_account : Text → D → Returned StoreError User
  get_user_by_account account d = scan_row (db.user_row (by_account account) d)

  unfoldable pub get_user_by_nickname : Text → D → Returned StoreError User
  get_user_by_nickname nickname d = scan_row (db.user_row (by_nickname nickname) d)

  unfoldable pub get_user_by_id : ℕ → D → Returned StoreError User
  get_user_by_id id d = scan_row (db.user_row (by_id id) d)

  -- The statement of `CreateUser`, and the id that it gives.
  unfoldable pub insert_user : User → D → Returned StoreError ℕ × D
  insert_user u d =
      let (r, d') = db.exec (inserts_user u.account u.password_hash u.nickname) d in
      elim r [ returned id ↦ (returned (u32 id), d') | failed e ↦ (failed driver_error, d') ]

  -- `CreateUser`; the two searches also go on to the statement when they fail.
  unfoldable pub create_user : User → D → Returned StoreError ℕ × D
  unfolding insert_user
  create_user u d = elim (get_user_by_account u.account d) [
    | returned v ↦ (failed account_exists, d)
    | failed e ↦ elim (get_user_by_nickname u.nickname d) [
      | returned v ↦ (failed nickname_exists, d)
      | failed e ↦ insert_user u d
    ]
  ]

  unfoldable pub set_equip : ℕ → ℕ → D → Returned StoreError (Unit {0}) × D
  set_equip id equip d = only_error (db.exec (updates_equip equip id) d)

  unfoldable pub list_equipments : D → Returned StoreError (List Equipment)
  list_equipments d = read_rows (db.equipment_rows d)

  unfoldable pub get_equipment : ℕ → D → Returned StoreError Equipment
  get_equipment id d = scan_row (db.equipment_row id d)

  unfoldable pub invite_friend : ℕ → ℕ → D → Returned StoreError (Unit {0}) × D
  invite_friend a b d = only_error (db.exec (inserts_friend a b) d)

  unfoldable pub pending_friend_ids : ℕ → D → Returned StoreError (List ℕ)
  pending_friend_ids uid d = read_rows (db.id_rows (asks uid) d)

  unfoldable pub accept_friend : ℕ → ℕ → D → Returned StoreError (Unit {0}) × D
  accept_friend uid other d = only_error (db.exec (updates_friend other uid) d)

  unfoldable pub reject_friend : ℕ → ℕ → D → Returned StoreError (Unit {0}) × D
  reject_friend uid other d = only_error (db.exec (deletes_friend other uid) d)

  unfoldable pub friend_ids : ℕ → D → Returned StoreError (List ℕ)
  friend_ids uid d = read_rows (db.id_rows (are_friends uid uid uid) d)

  abbrev pub mysql_store : Store D
  mysql_store = record {
    create_user = create_user;
    get_user_by_account = get_user_by_account;
    get_user_by_nickname = get_user_by_nickname;
    get_user_by_id = get_user_by_id;
    set_equip = set_equip;
    list_equipments = list_equipments;
    get_equipment = get_equipment;
    invite_friend = invite_friend;
    pending_friend_ids = pending_friend_ids;
    accept_friend = accept_friend;
    reject_friend = reject_friend;
    friend_ids = friend_ids;
  }
