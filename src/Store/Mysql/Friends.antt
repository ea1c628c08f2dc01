-- ===== src/Store/Mysql/Friends.antt =====
-- internal/store/store.go: calls on friends, on `MySQLStore` and `MemStore`.
use mathlib.Core.List.{Perm}
use mathlib.Core.List.Perm
use lurkspire.Prelude.{ℕ, ◌≡◌, refl, ap, some, arith, IsU32, ◌∙◌, subst, false, nat_key}
use lurkspire.Store.Users.{MemStore}
use lurkspire.Store.Users.Catalogue.{Text}
use lurkspire.Store.Friends.{
  Friendships, pair_key, invite_friend, accept_friend, reject_friend, pending_friend_ids,
  friend_ids,
}
use lurkspire.Store.Friends.Changes.{has_status}
use lurkspire.Store.Interface.Run.{
  invites_friend, accepts_friend, rejects_friend, asks_pending_ids, asks_friend_ids, ids_of,
  store_call, equal, reordered,
}
use lurkspire.Store.Mysql.{
  Database, scan_row, scan_rows, read_rows, mysql_store, asks, are_friends, Statement, SqlError,
  inserts_user, updates_equip, inserts_friend, updates_friend, deletes_friend, insert_user,
  only_error,
}
use lurkspire.Store.Mysql as M
use lurkspire.Store.Mysql.Meaning.{
  Charset, IsCharset, Tables, select_ids, run_statement, IsDatabase,
}
use lurkspire.Store.Mysql.Same.{
  tables_of, all_rows-read, select_ids-asks, select_ids-are_friends, add_request-same, AreStatuses,
  set_status-same, drop_request-same, invite_friend-AreStatuses, accept_friend-AreStatuses,
  reject_friend-AreStatuses,
}
use lurkspire.Store.Mysql.Agrees.{IsPlain, Agrees, befriended, AreAlike}

module _ {D : Type 0} (db : Database D) (c : Charset) (ch : IsCharset c) (tables : D → Tables)
    (laws : IsDatabase db c tables) (P : Text → Type 0) (plain : IsPlain c P) where
  pub invites_alike :
      (x y : ℕ) (m : MemStore) (d : D)
      → Agrees db c ch tables laws P plain m d
      → IsU32 x × IsU32 y
      → AreAlike db c ch tables laws P plain (invites_friend x y) m d
  unfolding AreAlike store_call M.invite_friend run_statement
  invites_alike x y m d a small =
      let s = inserts_friend x y in
      let fs : Friendships = invite_friend x y m.friends in
      let h : AreStatuses fs = invite_friend-AreStatuses x y m.friends a.statuses in
      let e : run_statement c s (tables_of m) ≡ some (tables_of (record m { friends = fs })) =
        ap (λ fs. some (record (tables_of m) { friends = fs })) (add_request-same x y m.friends) in
      let (answer, agrees) =
        befriended db c ch tables laws P plain fs s m d a h (ground (arith, small.0, small.1)) e in
      rw answer (equal refl, agrees)

  pub accepts_alike :
      (x y : ℕ) (m : MemStore) (d : D)
      → Agrees db c ch tables laws P plain m d
      → AreAlike db c ch tables laws P plain (accepts_friend x y) m d
  unfolding AreAlike store_call M.accept_friend run_statement
  accepts_alike x y m d a =
      let s = updates_friend y x in
      let fs : Friendships = accept_friend x y m.friends in
      let h : AreStatuses fs = accept_friend-AreStatuses x y m.friends a.statuses in
      let e : run_statement c s (tables_of m) ≡ some (tables_of (record m { friends = fs })) =
        ap (λ fs. some (record (tables_of m) { friends = fs }))
          (set_status-same x y m.friends a.statuses) in
      let (answer, agrees) = befriended db c ch tables laws P plain fs s m d a h refl e in
      rw answer (equal refl, agrees)

  pub rejects_alike :
      (x y : ℕ) (m : MemStore) (d : D)
      → Agrees db c ch tables laws P plain m d
      → has_status 1 y x m.friends ≡ false
      → AreAlike db c ch tables laws P plain (rejects_friend x y) m d
  unfolding AreAlike store_call M.reject_friend run_statement
  rejects_alike x y m d a n =
      let s = deletes_friend y x in
      let fs : Friendships = reject_friend x y m.friends in
      let h : AreStatuses fs = reject_friend-AreStatuses x y m.friends a.statuses in
      let e : run_statement c s (tables_of m) ≡ some (tables_of (record m { friends = fs })) =
        ap (λ fs. some (record (tables_of m) { friends = fs }))
          (drop_request-same x y m.friends a.statuses n) in
      let (answer, agrees) = befriended db c ch tables laws P plain fs s m d a h refl e in
      rw answer (equal refl, agrees)

  pub pending_alike :
      (x : ℕ) (m : MemStore) (d : D)
      → Agrees db c ch tables laws P plain m d
      → AreAlike db c ch tables laws P plain (asks_pending_ids x) m d
  unfolding AreAlike store_call M.pending_friend_ids
  pending_alike x m d a =
      let (ids, e, p) = laws.id_rows (asks x) d in
      let here : select_ids (asks x) (tables d).friends ≡ pending_friend_ids x m.friends =
        ap (λ (t : Tables). select_ids (asks x) t.friends) a.same ∙ select_ids-asks x m.friends in
      (
        reordered (pending_friend_ids x m.friends) ids refl
            (ap (λ r. ids_of (read_rows r)) e ∙ ap ids_of (all_rows-read ids))
            (Perm.symm (subst (λ xs. Perm ids xs) here p)),
        a,
      )

  pub friends_alike :
      (x : ℕ) (m : MemStore) (d : D)
      → Agrees db c ch tables laws P plain m d
      → AreAlike db c ch tables laws P plain (asks_friend_ids x) m d
  unfolding AreAlike store_call M.friend_ids
  friends_alike x m d a =
      let (ids, e, p) = laws.id_rows (are_friends x x x) d in
      let here : select_ids (are_friends x x x) (tables d).friends ≡ friend_ids x m.friends =
        ap (λ (t : Tables). select_ids (are_friends x x x) t.friends) a.same
        ∙ select_ids-are_friends x m.friends in
      (
        reordered (friend_ids x m.friends) ids refl
            (ap (λ r. ids_of (read_rows r)) e ∙ ap ids_of (all_rows-read ids))
            (Perm.symm (subst (λ xs. Perm ids xs) here p)),
        a,
      )
