-- ===== src/Store/Mysql/Runs.antt =====
-- internal/store/store.go: whole runs of calls on `MySQLStore` and on `MemStore`.

use lurkspire.Prelude.{
  ◌+◌, ◌≤◌, ◌≡◌, refl, sym, ap, ◌∙◌, List, [], ◌∷◌, arith, IsU32, length, nat_key,
}
use lurkspire.Store.Users.{MemStore, new_mem_store, returned, create_user, set_equip}
use lurkspire.Store.Users.Catalogue.{Text}
use lurkspire.Store.Users.Refines.{
  new_mem_store-IsStore, get_user_by_account-refines, get_user_by_nickname-refines,
  get_user_by_id-refines,
}
use lurkspire.Store.Friends.{pair_key}
use lurkspire.Store.Interface.{mem_store}
use lurkspire.Store.Interface.Run.{
  StoreCall, creates_user, gets_user_by_account, gets_user_by_nickname, gets_user_by_id, sets_equip,
  lists_equipments, gets_equipment, invites_friend, accepts_friend, rejects_friend,
  asks_pending_ids, asks_friend_ids, StoreAnswer, id_of, done, equipments_of, ids_of, store_call,
  store_answers, IsSameAnswer, equal, reordered, AreSameAnswers,
}
use lurkspire.Store.Mysql.{
  Database, scan_row, scan_rows, read_rows, mysql_store, asks, are_friends, Statement, SqlError,
  inserts_user, updates_equip, inserts_friend, updates_friend, deletes_friend, insert_user,
  only_error,
}
use lurkspire.Store.Mysql as M
use lurkspire.Store.Interface.Run as R
use lurkspire.Store.Mysql.Meaning.{
  Charset, IsCharset, Tables, first_row, enabled_of, equipment_of, all_rows, IsDatabase,
}
use lurkspire.Store.Mysql.Same.{
  seeded, tables_of, all_rows-read, list_equipments-seeded, get_equipment-seeded,
}
use lurkspire.Store.Mysql.Agrees.{
  IsPlain, IsCommon, AreCommon, Agrees, account_same, nickname_same, id_same, AreAlike,
}
use lurkspire.Store.Mysql.Friends.{
  invites_alike, accepts_alike, rejects_alike, pending_alike, friends_alike,
}
use lurkspire.Store.Mysql.Users.{creates_alike, equips_alike}

-- An id is given out by a creation only.
next_id-store_call :
    (x : StoreCall) (m : MemStore)
    → IsU32 (m.next_id + 1)
    → (store_call mem_store x m).1.next_id ≤ m.next_id + 1
unfolding store_call create_user set_equip
next_id-store_call (creates_user u) m h = ground arith
next_id-store_call (gets_user_by_account k) m h = omega arith
next_id-store_call (gets_user_by_nickname k) m h = omega arith
next_id-store_call (gets_user_by_id k) m h = omega arith
next_id-store_call (sets_equip id equip) m h = ground arith
next_id-store_call lists_equipments m h = omega arith
next_id-store_call (gets_equipment id) m h = omega arith
next_id-store_call (invites_friend x y) m h = omega arith
next_id-store_call (accepts_friend x y) m h = omega arith
next_id-store_call (rejects_friend x y) m h = omega arith
next_id-store_call (asks_pending_ids x) m h = omega arith
next_id-store_call (asks_friend_ids x) m h = omega arith

module _ {D : Type 0} (db : Database D) (c : Charset) (ch : IsCharset c) (tables : D → Tables)
    (laws : IsDatabase db c tables) (P : Text → Type 0) (plain : IsPlain c P) where
  alike :
      (x : StoreCall) (m : MemStore) (d : D)
      → Agrees db c ch tables laws P plain m d
      → IsU32 (m.next_id + 1)
      → IsCommon c P x m
      → AreAlike db c ch tables laws P plain x m d
  unfolding AreAlike store_call M.list_equipments M.get_equipment
  alike (creates_user u) m d a h o = creates_alike db c ch tables laws P plain u m d a h o
  alike (gets_user_by_account k) m d a h o = (
    equal (
        ap R.user_of (
          get_user_by_account-refines m a.store k
          ∙ sym (account_same db c ch tables laws P plain k m d a o))),
    a,
  )
  alike (gets_user_by_nickname k) m d a h o = (
    equal (
        ap R.user_of (
          get_user_by_nickname-refines m a.store k
          ∙ sym (nickname_same db c ch tables laws P plain k m d a o))),
    a,
  )
  alike (gets_user_by_id id) m d a h o = (
    equal (
        ap R.user_of (
          get_user_by_id-refines m a.store id
          ∙ sym (id_same db c ch tables laws P plain id m d a))),
    a,
  )
  alike (sets_equip id equip) m d a h o = equips_alike db c ch tables laws P plain id equip m d a o
  alike lists_equipments m d a h o =
      let rows : read_rows (db.equipment_rows d) ≡ returned (enabled_of seeded) =
        ap read_rows (laws.equipment_rows d)
        ∙ (ap (λ (t : Tables). read_rows (all_rows (enabled_of t.equipments))) a.same
            ∙ all_rows-read (enabled_of seeded)) in
      (equal (ap equipments_of (ap returned (list_equipments-seeded m a.equipped) ∙ sym rows)), a)
  alike (gets_equipment id) m d a h o =
      let row : scan_row (db.equipment_row id d) ≡ scan_row (first_row (equipment_of id seeded)) =
        ap scan_row (laws.equipment_row id d)
        ∙ ap (λ (t : Tables). scan_row (first_row (equipment_of id t.equipments))) a.same in
      (equal (ap R.equipment_of (get_equipment-seeded id m a.equipped ∙ sym row)), a)
  alike (invites_friend x y) m d a h o = invites_alike db c ch tables laws P plain x y m d a o
  alike (accepts_friend x y) m d a h o = accepts_alike db c ch tables laws P plain x y m d a
  alike (rejects_friend x y) m d a h o = rejects_alike db c ch tables laws P plain x y m d a o
  alike (asks_pending_ids x) m d a h o = pending_alike db c ch tables laws P plain x m d a
  alike (asks_friend_ids x) m d a h o = friends_alike db c ch tables laws P plain x m d a

  answers_alike :
      (xs : List StoreCall) (m : MemStore) (d : D)
      → Agrees db c ch tables laws P plain m d
      → IsU32 (m.next_id + length xs)
      → AreCommon c P xs m
      → AreSameAnswers (store_answers mem_store xs m) (store_answers (mysql_store db) xs d)
  unfolding store_answers AreAlike
  answers_alike [] m d a h o = tt
  answers_alike (x ∷ xs) m d a h (here, later) =
      let (same, a') = alike x m d a (omega (arith, h)) here in
      (
        same,
        answers_alike xs (store_call mem_store x m).1 (store_call (mysql_store db) x d).1 a'
            (omega (arith, h, next_id-store_call x m (omega (arith, h)))) later,
      )

-- A server that carries out the statements by their meaning, whose tables begin as the schema seeds
-- them, and a new store in memory give the same answers to every run of fewer than 2^32 calls, in any
-- order, but for the order of the ids in a list. Condition: accounts and nicknames in the run, and
-- the hashes of new users, are texts of the server's character set, in which a text is the same as
-- itself and no longer in characters than in bytes; the collation takes accounts and
-- nicknames for the same only if they have the same bytes; a new user's account, hash and nickname
-- have at most 64, 100 and 32 bytes, and it has no equipment; equipment is below 2^31 and put on a
-- user who is there; the ids of a friend request are below 2^32; what is rejected was not accepted
-- before.
pub mysql_store-agrees :
    {D : Type 0} (db : Database D) (c : Charset)
    → IsCharset c
    → (tables : D → Tables) → IsDatabase db c tables
    → (P : Text → Type 0) → IsPlain c P
    → (d : D) → tables d ≡ tables_of new_mem_store
    → (xs : List StoreCall) → IsU32 (length xs)
    → AreCommon c P xs new_mem_store
    → AreSameAnswers
        (store_answers mem_store xs new_mem_store)
        (store_answers (mysql_store db) xs d)
mysql_store-agrees db c ch tables laws P plain d e xs h o =
    answers_alike db c ch tables laws P plain xs new_mem_store d
      record { store = new_mem_store-IsStore; texts = tt; statuses = tt; equipped = refl; same = e }
      (omega (arith, h)) o
