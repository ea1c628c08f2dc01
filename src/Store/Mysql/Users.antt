-- ===== src/Store/Mysql/Users.antt =====
-- internal/store/store.go: calls that change users, on `MySQLStore` and `MemStore`.

use lurkspire.Prelude.{
  ℕ, ◌+◌, ◌≡◌, refl, sym, ap, ◌∙◌, subst, inl, inr, List, [], ◌∷◌, ◌++◌, none, some, Bool, true,
  false, arith, IsU32, u32, All, All-append, find, Option-cases, ltb, update_first, nat_key,
}
use lurkspire.Store.Users.{
  User, StoreError, account_exists, nickname_exists, MemStore, not_found, Returned, returned,
  failed, fetch, create_user, set_equip,
}
use lurkspire.Store.Users.Catalogue.{Text}
use lurkspire.Store.Users.Table.{has_account, has_nickname, has_id, Table, create_row, update_equip}
use lurkspire.Store.Users.Refines.{
  view, create_user-refines, get_user_by_id-refines, set_equip-refines,
}
use lurkspire.Store.Friends.{pair_key}
use lurkspire.Store.Interface.Run.{creates_user, sets_equip, id_of, done, store_call, equal}
use lurkspire.Store.Mysql.{
  Database, scan_row, scan_rows, read_rows, mysql_store, asks, are_friends, Statement, SqlError,
  inserts_user, updates_equip, inserts_friend, updates_friend, deletes_friend, insert_user,
  only_error,
}
use lurkspire.Store.Mysql as M
use lurkspire.Store.Mysql.Meaning.{
  Charset, IsCharset, lets_in, is_some_user, user_of, Tables, run_statement, IsDatabase,
}
use lurkspire.Store.Mysql.Same.{
  tables_of, AreStatuses, find-plain, fetch_returned, All-update_first, create_user-others,
  set_equip-others,
}
use lurkspire.Store.Mysql.Created.{inserts_user-clear}
use lurkspire.Store.Mysql.Agrees.{
  IsPlain, IsCommon, Agrees, same_done, account_same, nickname_same, AreAlike,
}

module _ {D : Type 0} (db : Database D) (c : Charset) (ch : IsCharset c) (tables : D → Tables)
    (laws : IsDatabase db c tables) (P : Text → Type 0) (plain : IsPlain c P) where
  -- A creation that leads the table in memory and the tables of the server to the same rows.
  both_created :
      (u : User) (m : MemStore) (d d' : D) (t' : Table) (r : Returned StoreError ℕ)
      → Agrees db c ch tables laws P plain m d
      → IsU32 (m.next_id + 1)
      → create_row u (view m) ≡ (r, t')
      → M.create_user db u d ≡ (r, d')
      → All (λ u. P u.account × P u.nickname) t'.rows
      → tables d' ≡ record (tables_of m) { last_id = t'.last_id; users = t'.rows }
      → AreAlike db c ch tables laws P plain (creates_user u) m d
  unfolding AreAlike store_call
  both_created u m d d' t' r a h row made plain_rows e =
      let (ans, v, k) = create_user-refines m a.store u h in
      let (f, q) = create_user-others u m in
      let m' : MemStore = (create_user u m).1 in
      let full : view m' ≡ t' = v ∙ ap (λ x. x.1) row in
      let rows : m'.cells ≡ t'.rows = ap (λ (t : Table). t.rows) full in
      let last : m'.next_id ≡ t'.last_id = ap (λ (t : Table). t.last_id) full in
      rw made (
        equal (ap id_of (ans ∙ ap (λ x. x.0) row)),
        record {
          store = k;
          texts = subst (λ us. All (λ u. P u.account × P u.nickname) us) (sym rows) plain_rows;
          statuses = subst AreStatuses (sym f) a.statuses;
          equipped = q ∙ a.equipped;
          same = e ∙ sym (rw (rows, last, f) refl);
        },
      )

  free_row :
      (p q : User → Bool) (m : MemStore)
      → ((u : User) → P u.account × P u.nickname → p u ≡ q u)
      → All (λ u. P u.account × P u.nickname) m.cells
      → find q m.cells ≡ none
      → is_some_user (find p m.cells) ≡ false
  free_row p q m h a e =
      ap is_some_user (find-plain p q (λ u. P u.account × P u.nickname) m.cells h a ∙ e)

  creates_new :
      (u : User) (m : MemStore) (d : D)
      → Agrees db c ch tables laws P plain m d
      → IsU32 (m.next_id + 1)
      → IsCommon c P (creates_user u) m
      → find (has_account u.account) m.cells ≡ none
      → find (has_nickname u.nickname) m.cells ≡ none
      → M.create_user db u d ≡ M.insert_user db u d
      → AreAlike db c ch tables laws P plain (creates_user u) m d
  unfolding M.insert_user run_statement
  creates_new u m d a h (p, bare, st) e e' inserts =
      let s = inserts_user u.account u.password_hash u.nickname in
      let n : ℕ = m.next_id + 1 in
      let v : User = user_of n u.account u.password_hash u.nickname in
      let v_same : v ≡ record u { id = n } = ap (λ k. record v { equip_id = k }) (sym bare) in
      let lets : lets_in c u.account u.nickname (tables_of m) ≡ true = ground (
        arith,
        h,
        free_row (λ w. c.same w.account u.account) (has_account u.account) m
            (λ w q. plain.same w.account u.account q.0 p.0) a.texts e,
        free_row (λ w. c.same w.nickname u.nickname) (has_nickname u.nickname) m
            (λ w q. plain.same w.nickname u.nickname q.1 p.1) a.texts e',
      ) in
      let after : Tables = record (tables_of m) { last_id = n; users = m.cells ++ (v ∷ []) } in
      let goes : run_statement c s (tables d) ≡ some after =
        ap (λ t. run_statement c s t) a.same ∙ (rw lets refl) in
      let (k, answer, led, said) = laws.done s d after (inserts_user-clear c ch u st) goes in
      let d' : D = (db.exec s d).1 in
      let wrap : u32 k ≡ n = omega (arith, h, said) in
      let ins : M.insert_user db u d ≡ (returned n, d') =
        rw (answer, M.insert_user) (rw wrap refl) in
      both_created u m d d' (record { last_id = n; rows = m.cells ++ (record u { id = n } ∷ []) })
        (returned n) a h (rw (e, e') refl) (inserts ∙ ins)
        (All-append (λ w. P w.account × P w.nickname) m.cells (record u { id = n } ∷ []) a.texts
          (p, tt))
        (led ∙ ap (λ w. record (tables_of m) { last_id = n; users = m.cells ++ (w ∷ []) }) v_same)

  pub creates_alike :
      (u : User) (m : MemStore) (d : D)
      → Agrees db c ch tables laws P plain m d
      → IsU32 (m.next_id + 1)
      → IsCommon c P (creates_user u) m
      → AreAlike db c ch tables laws P plain (creates_user u) m d
  unfolding M.create_user
  creates_alike u m d a h common =
      let p = common.0 in
      let by_account = account_same db c ch tables laws P plain u.account m d a p.0 in
      let by_nickname = nickname_same db c ch tables laws P plain u.nickname m d a p.1 in
      elim (Option-cases (find (has_account u.account) m.cells)) [
        | inr (v, e) ↦
            let taken : M.get_user_by_account db u.account d ≡ returned v =
              by_account ∙ ap fetch e in
            both_created u m d d (view m) (failed account_exists) a h (rw e refl)
              (rw (taken, M.create_user) refl) a.texts a.same
        | inl e ↦
            let free : M.get_user_by_account db u.account d ≡ failed not_found =
              by_account ∙ ap fetch e in
            elim (Option-cases (find (has_nickname u.nickname) m.cells)) [
              | inr (v, e') ↦
                  let taken : M.get_user_by_nickname db u.nickname d ≡ returned v =
                    by_nickname ∙ ap fetch e' in
                  both_created u m d d (view m) (failed nickname_exists) a h (rw e (rw e' refl))
                    (rw (free, taken, M.create_user) refl) a.texts a.same
              | inl e' ↦
                  let free' : M.get_user_by_nickname db u.nickname d ≡ failed not_found =
                    by_nickname ∙ ap fetch e' in
                  creates_new u m d a h common e e' (rw (free, free', M.create_user) refl)
            ]
      ]

  -- An equipment of a user who is there.
  pub equips_alike :
      (id equip : ℕ) (m : MemStore) (d : D)
      → Agrees db c ch tables laws P plain m d
      → IsCommon c P (sets_equip id equip) m
      → AreAlike db c ch tables laws P plain (sets_equip id equip) m d
  unfolding AreAlike store_call M.set_equip run_statement
  equips_alike id equip m d a (small, (u, e)) =
      let s = updates_equip equip id in
      let (ans, v, k) = set_equip-refines m a.store id equip in
      let (f, q) = set_equip-others id equip m in
      let there : find (has_id id) m.cells ≡ some u =
        fetch_returned (find (has_id id) m.cells) u
          (sym (get_user_by_id-refines m a.store id) ∙ e) in
      let m' : MemStore = (set_equip id equip m).1 in
      let rows : List User =
        update_first (has_id id) (λ u. record u { equip_id = equip }) m.cells in
      let below : ltb equip 2147483648 ≡ true = ground (arith, small) in
      let goes : run_statement c s (tables_of m) ≡ some (record (tables_of m) { users = rows }) =
        rw there (rw below refl) in
      let row : update_equip id equip (view m)
          ≡ (returned tt, record { last_id = m.next_id; rows = rows }) =
        rw there refl in
      let full : view m' ≡ record { last_id = m.next_id; rows = rows } = v ∙ ap (λ x. x.1) row in
      let cells : m'.cells ≡ rows = ap (λ (t : Table). t.rows) full in
      let last : m'.next_id ≡ m.next_id = ap (λ (t : Table). t.last_id) full in
      let end : record (tables_of m) { users = rows } ≡ tables_of m' =
        sym (rw (cells, last, f) refl) in
      let (k', answer, led, said) =
        same_done db c ch tables laws P plain s m m' d a.same refl (goes ∙ ap (λ t. some t) end) in
      let exec_done : only_error (db.exec s d) ≡ (returned tt, (db.exec s d).1) = rw answer refl in
      rw exec_done (
        equal (ap done (ans ∙ ap (λ x. x.0) row)),
        record {
          store = k;
          texts =
              subst (λ us. All (λ u. P u.account × P u.nickname) us) (sym cells)
                (All-update_first (has_id id) (λ w. record w { equip_id = equip })
                  (λ w. P w.account × P w.nickname) m.cells (λ w r. r) a.texts);
          statuses = subst AreStatuses (sym f) a.statuses;
          equipped = q ∙ a.equipped;
          same = led;
        },
      )
