-- ===== src/Store/Mysql/Meaning.antt =====
-- The tables of db/schema.sql, and what the statements of `MySQLStore` mean for them by the manual of
-- MySQL. These are what is supposed of the server, not code of the repository.
use mathlib.Core.List.{Perm}
use lurkspire.Prelude.{
  ℕ, ◌+◌, ◌≤◌, ◌≡◌, List, [], ◌∷◌, ◌++◌, Option, none, some, Bool, true, false, not, ◌&&◌, ◌||◌,
  if◌then◌else◌, ◌==◌, ltb, length, map, find, update_first, lookup, insert, erase,
}
use lurkspire.Store.Users.{User, Returned, returned, failed}
use lurkspire.Store.Users.Catalogue.{Text, Equipment}
use lurkspire.Store.Users.Table.{has_id}
use lurkspire.Store.Friends.{Friendships, pair_key}
use lurkspire.Store.Mysql.{
  Statement, inserts_user, updates_equip, inserts_friend, updates_friend, deletes_friend, UserQuery,
  by_account, by_nickname, by_id, FriendQuery, asks, are_friends, SqlError, no_rows, other_error,
  Rows, Database,
}

-- What the character set utf8mb4 of a column decides: which bytes are a text in it, which texts are
-- the same for its collation, and which fit in a VARCHAR of a length.
pub record Charset : Type 0 where
  pub encodes : Text → Bool
  pub same : Text → Text → Bool
  pub fits : ℕ → Text → Bool

-- Of bytes that are a text: it is the same as itself, and no longer in characters than in bytes.
pub record IsCharset (c : Charset) : Type 0 where
  pub same_refl : (t : Text) → c.encodes t ≡ true → c.same t t ≡ true
  pub fits_short : (n : ℕ) (t : Text) → c.encodes t ≡ true → length t ≤ n → c.fits n t ≡ true

-- The rows; those of `equipments` by sort_order and id, with `enabled`.
pub record Tables : Type 0 where
  pub last_id : ℕ
  pub users : List User
  pub friends : Friendships
  pub equipments : List (Equipment × Bool)

-- The row that INSERT makes of its values and the defaults.
abbrev pub user_of : ℕ → Text → Text → Text → User
user_of id account hash nickname = record {
  id = id;
  account = account;
  password_hash = hash;
  nickname = nickname;
  equip_id = 0;
}

abbrev pub is_some_user : Option User → Bool
is_some_user none = false
is_some_user (some u) = true

-- Whether the two unique keys let a row in, and the last number of an INT UNSIGNED.
abbrev pub lets_in : Charset → Text → Text → Tables → Bool
lets_in c account nickname t =
    not (is_some_user (find (λ v. c.same v.account account) t.users))
    && (not (is_some_user (find (λ v. c.same v.nickname nickname) t.users))
        && ltb (t.last_id + 1) 4294967296)

-- A text that a VARCHAR of this length takes as it is.
abbrev pub is_stored : Charset → ℕ → Text → Bool
is_stored c n t = c.encodes t && c.fits n t

-- The statements whose effect is stated here: their values are of the types of the columns. What the
-- server makes of other bytes or of longer texts, which it refuses or cuts, is left open.
abbrev pub is_clear : Charset → Statement → Bool
is_clear c (inserts_user account hash nickname) =
    is_stored c 64 account && (is_stored c 100 hash && is_stored c 32 nickname)
is_clear c (updates_equip equip id) = true
is_clear c (inserts_friend a b) = ltb a 4294967296 && ltb b 4294967296
is_clear c (updates_friend a b) = true
is_clear c (deletes_friend a b) = true

abbrev pub set_status : ℕ × ℕ → Option ℕ → Friendships → Friendships
set_status k none fs = fs
set_status k (some s) fs = if s == 0 then insert k 1 fs else fs

abbrev pub drop_request : ℕ × ℕ → Option ℕ → Friendships → Friendships
drop_request k none fs = fs
drop_request k (some s) fs = if s == 0 then erase k fs else fs

abbrev pub add_request : ℕ × ℕ → Option ℕ → Friendships → Friendships
add_request k none fs = insert k 0 fs
add_request k (some s) fs = fs

-- The tables after a statement that the server carries out; it refuses the others.
unfoldable pub run_statement : Charset → Statement → Tables → Option Tables
run_statement c (inserts_user account hash nickname) t =
    if lets_in c account nickname t
    then some (record t {
      last_id = t.last_id + 1;
      users = t.users ++ (user_of (t.last_id + 1) account hash nickname ∷ []);
    })
    else none
run_statement c (updates_equip equip id) t = elim (find (has_id id) t.users) [
  | none ↦ some t
  | some v ↦
      if ltb equip 2147483648
      then some (record t {
        users = update_first (has_id id) (λ u. record u { equip_id = equip }) t.users;
      })
      else none
]
run_statement c (inserts_friend a b) t =
    some (record t { friends = add_request (a, b) (lookup (a, b) t.friends) t.friends })
run_statement c (updates_friend a b) t =
    some (record t { friends = set_status (a, b) (lookup (a, b) t.friends) t.friends })
run_statement c (deletes_friend a b) t =
    some (record t { friends = drop_request (a, b) (lookup (a, b) t.friends) t.friends })

-- What `LastInsertId` says of a new user; of the other statements, whose ids the code does not read,
-- it says anything.
abbrev pub IsAnswer : Statement → ℕ → Tables → Type 0
IsAnswer (inserts_user account hash nickname) id t = id ≡ t.last_id
IsAnswer (updates_equip equip k) id t = Unit {0}
IsAnswer (inserts_friend a b) id t = Unit {0}
IsAnswer (updates_friend a b) id t = Unit {0}
IsAnswer (deletes_friend a b) id t = Unit {0}

-- A refused statement leaves the rows; a refused INSERT may have used up numbers of AUTO_INCREMENT.
pub record IsKept (t t' : Tables) : Type 0 where
  pub users : t'.users ≡ t.users
  pub friends : t'.friends ≡ t.friends
  pub equipments : t'.equipments ≡ t.equipments
  pub last_id : t.last_id ≤ t'.last_id

-- The searches by a text are stated for bytes that are one.
abbrev pub is_clear_query : Charset → UserQuery → Bool
is_clear_query c (by_account account) = c.encodes account
is_clear_query c (by_nickname nickname) = c.encodes nickname
is_clear_query c (by_id id) = true

abbrev pub is_meant : Charset → UserQuery → User → Bool
is_meant c (by_account account) u = c.same u.account account
is_meant c (by_nickname nickname) u = c.same u.nickname nickname
is_meant c (by_id id) u = has_id id u

-- `QueryRow`: the first row, or `ErrNoRows`.
abbrev pub first_row : {A : Type 0} → Option A → Returned SqlError A
first_row none = failed no_rows
first_row (some a) = returned a

abbrev pub enabled_of : List (Equipment × Bool) → List Equipment
enabled_of [] = []
enabled_of ((e, b) ∷ rows) = if b then e ∷ enabled_of rows else enabled_of rows

abbrev pub equipment_of : ℕ → List (Equipment × Bool) → Option Equipment
equipment_of id [] = none
equipment_of id ((e, b) ∷ rows) = if e.id == id then some e else equipment_of id rows

-- The WHERE of a query of ids, and the value that it selects.
abbrev pub is_asked : FriendQuery → (ℕ × ℕ) × ℕ → Bool
is_asked (asks uid) ((a, b), s) = b == uid && s == 0
is_asked (are_friends x y z) ((a, b), s) = s == 1 && (a == y || b == z)

abbrev pub selected : FriendQuery → (ℕ × ℕ) × ℕ → ℕ
selected (asks uid) ((a, b), s) = a
selected (are_friends x y z) ((a, b), s) = if a == x then b else a

abbrev pub select_ids : FriendQuery → Friendships → List ℕ
select_ids q [] = []
select_ids q (row ∷ rows) =
    let rest = select_ids q rows in if is_asked q row then selected q row ∷ rest else rest

-- Rows that are all read without an error.
abbrev pub all_rows : {A : Type 0} → List A → Returned SqlError (Rows A)
all_rows xs = returned (record { scanned = map returned xs; err = none })

-- A server that is reached and in strict mode, with AUTO_INCREMENT in steps of 1. The ids that a
-- query selects come in any order, since the code asks for none.
pub record IsDatabase {D : Type 0} (db : Database D) (c : Charset) (tables : D → Tables)
    : Type 0 where
  pub done :
      (s : Statement) (d : D) (t : Tables)
      → is_clear c s ≡ true
      → run_statement c s (tables d) ≡ some t
      → (id : ℕ) × ((db.exec s d).0 ≡ returned id) × (tables (db.exec s d).1 ≡ t) × IsAnswer s id t
  pub refused :
      (s : Statement) (d : D)
      → is_clear c s ≡ true
      → run_statement c s (tables d) ≡ none
      → ((db.exec s d).0 ≡ failed other_error) × IsKept (tables d) (tables (db.exec s d).1)
  pub user_row :
      (q : UserQuery) (d : D)
      → is_clear_query c q ≡ true
      → db.user_row q d ≡ first_row (find (is_meant c q) (tables d).users)
  pub equipment_row :
      (id : ℕ) (d : D) → db.equipment_row id d ≡ first_row (equipment_of id (tables d).equipments)
  pub equipment_rows : (d : D) → db.equipment_rows d ≡ all_rows (enabled_of (tables d).equipments)
  pub id_rows :
      (q : FriendQuery) (d : D)
      → (ids : List ℕ) × (db.id_rows q d ≡ all_rows ids)
        × Perm ids (select_ids q (tables d).friends)
