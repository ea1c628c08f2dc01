-- ===== src/Store/Mysql/Agrees.antt =====
-- internal/store/store.go: when `MySQLStore` and `MemStore` hold the same, and which calls they answer alike.

use lurkspire.Prelude.{
  ℕ, ◌<◌, ◌≡◌, refl, ap, ◌∙◌, List, some, true, IsU32, [], ◌∷◌, false, All, find, text_beq, nat_key,
}
use lurkspire.Store.Users.{User, MemStore, returned, get_user_by_id}
use lurkspire.Store.Users.Catalogue.{Text, catalogue}
use lurkspire.Store.Users.Table.{has_account, has_nickname, has_id, select}
use lurkspire.Store.Users.Refines.{view, IsStore}
use lurkspire.Store.Friends.{Friendships, pair_key}
use lurkspire.Store.Friends.Changes.{has_status}
use lurkspire.Store.Interface.{mem_store}
use lurkspire.Store.Interface.Run.{
  StoreCall, creates_user, gets_user_by_account, gets_user_by_nickname, gets_user_by_id, sets_equip,
  lists_equipments, gets_equipment, invites_friend, accepts_friend, rejects_friend,
  asks_pending_ids, asks_friend_ids, store_call, IsSameAnswer,
}
use lurkspire.Store.Mysql.{
  Database, scan_row, scan_rows, read_rows, mysql_store, asks, are_friends, Statement, SqlError,
  inserts_user, updates_equip, inserts_friend, updates_friend, deletes_friend, insert_user,
  only_error,
}
use lurkspire.Store.Mysql as M
use lurkspire.Store.Mysql.Meaning.{
  Charset, IsCharset, Tables, first_row, is_clear, run_statement, IsAnswer, IsDatabase,
}
use lurkspire.Store.Mysql.Created.{
  IsStorable, get_user_by_account_lem, get_user_by_nickname_lem, get_user_by_id_lem,
}
use lurkspire.Store.Mysql.Same.{tables_of, AreStatuses, find-plain, fetch-first_row}

-- Texts of the character set that the collation takes for the same only if their bytes are.
pub record IsPlain (c : Charset) (P : Text → Type 0) : Type 0 where
  pub same : (a b : Text) → P a → P b → c.same a b ≡ text_beq a b
  pub encoded : (t : Text) → P t → c.encodes t ≡ true

-- The calls that the two stores answer alike. The texts of an account and a nickname are plain, and
-- short enough for their columns; a new user has no equipment; the user whose equipment changes is
-- there; the ids of a request are of 32 bits; what is rejected was not accepted before.
abbrev pub IsCommon : Charset → (Text → Type 0) → StoreCall → MemStore → Type 0
IsCommon c P (creates_user u) m = (P u.account × P u.nickname) × (u.equip_id ≡ 0) × IsStorable c u
IsCommon c P (gets_user_by_account k) m = P k
IsCommon c P (gets_user_by_nickname k) m = P k
IsCommon c P (gets_user_by_id id) m = Unit {0}
IsCommon c P (sets_equip id equip) m =
    (equip < 2147483648) × ((u : User) × (get_user_by_id id m ≡ returned u))
IsCommon c P lists_equipments m = Unit {0}
IsCommon c P (gets_equipment id) m = Unit {0}
IsCommon c P (invites_friend a b) m = IsU32 a × IsU32 b
IsCommon c P (accepts_friend uid other) m = Unit {0}
IsCommon c P (rejects_friend uid other) m = has_status 1 other uid m.friends ≡ false
IsCommon c P (asks_pending_ids uid) m = Unit {0}
IsCommon c P (asks_friend_ids uid) m = Unit {0}

-- Every call of a run is common in the state that the calls before it lead to.
abbrev pub AreCommon : Charset → (Text → Type 0) → List StoreCall → MemStore → Type 0
AreCommon c P [] m = Unit {0}
AreCommon c P (x ∷ xs) m = IsCommon c P x m × AreCommon c P xs (store_call mem_store x m).1

module _ {D : Type 0} (db : Database D) (c : Charset) (ch : IsCharset c) (tables : D → Tables)
    (laws : IsDatabase db c tables) (P : Text → Type 0) (plain : IsPlain c P) where
  -- The tables hold what the store in memory holds.
  pub record Agrees (m : MemStore) (d : D) : Type 0 where
    pub store : IsStore m
    pub texts : All (λ u. P u.account × P u.nickname) m.cells
    pub statuses : AreStatuses m.friends
    pub equipped : m.equipments ≡ catalogue
    pub same : tables d ≡ tables_of m

  -- A statement that leads both to the same tables.
  pub same_done :
      (s : Statement) (m m' : MemStore) (d : D)
      → tables d ≡ tables_of m
      → is_clear c s ≡ true
      → run_statement c s (tables_of m) ≡ some (tables_of m')
      → (id : ℕ) × ((db.exec s d).0 ≡ returned id)
        × (tables (db.exec s d).1 ≡ tables_of m')
        × IsAnswer s id (tables_of m')
  same_done s m m' d e clear e' =
      laws.done s d (tables_of m') clear (ap (λ t. run_statement c s t) e ∙ e')

  pub account_same :
      (k : Text) (m : MemStore) (d : D)
      → Agrees m d
      → P k
      → M.get_user_by_account db k d ≡ select (has_account k) (view m)
  account_same k m d a p =
      get_user_by_account_lem db c ch tables laws k d (plain.encoded k p)
      ∙ (ap (λ (t : Tables). scan_row (first_row (find (λ u. c.same u.account k) t.users))) a.same
          ∙ (ap (λ o. scan_row (first_row o))
                (find-plain (λ u. c.same u.account k) (has_account k)
                  (λ u. P u.account × P u.nickname) m.cells (λ u q. plain.same u.account k q.0 p)
                  a.texts)
              ∙ fetch-first_row (find (has_account k) m.cells)))

  pub nickname_same :
      (k : Text) (m : MemStore) (d : D)
      → Agrees m d
      → P k
      → M.get_user_by_nickname db k d ≡ select (has_nickname k) (view m)
  nickname_same k m d a p =
      get_user_by_nickname_lem db c ch tables laws k d (plain.encoded k p)
      ∙ (ap (λ (t : Tables). scan_row (first_row (find (λ u. c.same u.nickname k) t.users))) a.same
          ∙ (ap (λ o. scan_row (first_row o))
                (find-plain (λ u. c.same u.nickname k) (has_nickname k)
                  (λ u. P u.account × P u.nickname) m.cells (λ u q. plain.same u.nickname k q.1 p)
                  a.texts)
              ∙ fetch-first_row (find (has_nickname k) m.cells)))

  pub id_same :
      (k : ℕ) (m : MemStore) (d : D)
      → Agrees m d
      → M.get_user_by_id db k d ≡ select (has_id k) (view m)
  id_same k m d a =
      get_user_by_id_lem db c ch tables laws k d
      ∙ (ap (λ (t : Tables). scan_row (first_row (find (has_id k) t.users))) a.same
          ∙ fetch-first_row (find (has_id k) m.cells))

  -- A call on the two stores, its answers and what it leads to.
  unfoldable pub AreAlike : StoreCall → MemStore → D → Type 0
  AreAlike x m d =
      IsSameAnswer (store_call mem_store x m).0 (store_call (mysql_store db) x d).0
      × Agrees (store_call mem_store x m).1 (store_call (mysql_store db) x d).1

  -- A statement whose result the store does not read.
  pub befriended :
      (fs : Friendships) (s : Statement) (m : MemStore) (d : D)
      → Agrees m d
      → AreStatuses fs
      → is_clear c s ≡ true
      → run_statement c s (tables_of m) ≡ some (tables_of (record m { friends = fs }))
      → (only_error (db.exec s d) ≡ (returned tt, (db.exec s d).1))
        × Agrees (record m { friends = fs }) (db.exec s d).1
  befriended fs s m d a h clear e =
      let (id, answer, rows, said) = same_done s m (record m { friends = fs }) d a.same clear e in
      (
        rw answer refl,
        record {
          store = record {
            by_account = a.store.by_account;
            by_nickname = a.store.by_nickname;
            by_id = a.store.by_id;
            ids = a.store.ids;
          };
          texts = a.texts;
          statuses = h;
          equipped = a.equipped;
          same = rows;
        },
      )
