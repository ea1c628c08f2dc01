-- ===== src/Store/Mysql/Created.antt =====
-- internal/store/store.go: `MySQLStore.CreateUser`, and the searches after it.
use lurkspire.Prelude.{
  ℕ, Option, update_first, ◌+◌, ◌≤◌, ◌<◌, ◌≡◌, refl, sym, ap, subst, ◌∙◌, inl, inr, List, [], ◌∷◌,
  ◌++◌, none, some, Bool, true, not, arith, IsU32, u32, All, All-append, length, ltb, find,
  Option-cases, Bool-cases, ==_iff,
}
use lurkspire.Store.Users.{User, StoreError, driver_error, Returned, returned, failed}
use lurkspire.Lobby.Token.{Returned-cases}
use lurkspire.Store.Users.Catalogue.{Text}
use lurkspire.Store.Users.Table.{has_id}
use lurkspire.Store.Interface.Laws.{find-append, find-above}
use lurkspire.Store.Users.Refines.{All-weaken}
use lurkspire.Store.Mysql.Same.{All-update_first}
use lurkspire.Store.Mysql.{
  Statement, updates_equip, inserts_friend, updates_friend, deletes_friend, Database, inserts_user,
  by_account, by_nickname, by_id, scan_row, get_user_by_account, get_user_by_nickname,
  get_user_by_id, insert_user, create_user,
}
use lurkspire.Store.Mysql.Meaning.{
  Charset, IsCharset, Tables, is_some_user, lets_in, is_clear, user_of, run_statement, first_row,
  IsDatabase,
}

-- A user whose account, hash and nickname are texts, and short enough for their columns.
pub record IsStorable (c : Charset) (u : User) : Type 0 where
  pub account : c.encodes u.account ≡ true
  pub hash : c.encodes u.password_hash ≡ true
  pub nickname : c.encodes u.nickname ≡ true
  pub account_length : length u.account ≤ 64
  pub hash_length : length u.password_hash ≤ 100
  pub nickname_length : length u.nickname ≤ 32

pub inserts_user-clear :
    (c : Charset)
    → IsCharset c
    → (u : User) → IsStorable c u
    → is_clear c (inserts_user u.account u.password_hash u.nickname) ≡ true
inserts_user-clear c ch u h = ground (
  arith,
  h.account,
  h.hash,
  h.nickname,
  ch.fits_short 64 u.account h.account h.account_length,
  ch.fits_short 100 u.password_hash h.hash h.hash_length,
  ch.fits_short 32 u.nickname h.nickname h.nickname_length,
)

-- Ids that were given out in turn.
abbrev pub IsNumbered : Tables → Type 0
IsNumbered t = All (λ u. u.id ≤ t.last_id) t.users

run_statement-IsNumbered :
    (c : Charset) (s : Statement) (t t' : Tables)
    → IsNumbered t
    → run_statement c s t ≡ some t'
    → IsNumbered t'
unfolding run_statement
run_statement-IsNumbered c (inserts_user account hash nickname) t t' h e =
    let end : Tables = record t {
      last_id = t.last_id + 1;
      users = t.users ++ (user_of (t.last_id + 1) account hash nickname ∷ []);
    } in
    elim (Bool-cases (lets_in c account nickname t)) [
      | inl b ↦
          let same : end ≡ t' = ground (arith, b, e) in
          subst (λ x. IsNumbered x) same
            (All-append (λ u. u.id ≤ t.last_id + 1) t.users
              (user_of (t.last_id + 1) account hash nickname ∷ [])
              (All-weaken t.last_id (t.last_id + 1) t.users (omega arith) h) (omega arith, tt))
      | inr b ↦ absurd (ground (arith, b, e))
    ]
run_statement-IsNumbered c (updates_equip equip id) t t' h e =
    let end : Tables = record t {
      users = update_first (has_id id) (λ u. record u { equip_id = equip }) t.users;
    } in
    elim (Option-cases (find (has_id id) t.users)) [
      | inl q ↦ let same : t ≡ t' = ground (arith, q, e) in subst (λ x. IsNumbered x) same h
      | inr (v, q) ↦ elim (Bool-cases (ltb equip 2147483648)) [
        | inl b ↦
            let same : end ≡ t' = ground (arith, q, b, e) in
            subst (λ x. IsNumbered x) same
              (All-update_first (has_id id) (λ u. record u { equip_id = equip })
                (λ u. u.id ≤ t.last_id) t.users (λ u q. q) h)
        | inr b ↦ absurd (ground (arith, q, b, e))
      ]
    ]
run_statement-IsNumbered c (inserts_friend a b) t t' h e =
    subst (λ (x : Option Tables). elim x [ none ↦ Unit {0} | some y ↦ IsNumbered y ]) e h
run_statement-IsNumbered c (updates_friend a b) t t' h e =
    subst (λ (x : Option Tables). elim x [ none ↦ Unit {0} | some y ↦ IsNumbered y ]) e h
run_statement-IsNumbered c (deletes_friend a b) t t' h e =
    subst (λ (x : Option Tables). elim x [ none ↦ Unit {0} | some y ↦ IsNumbered y ]) e h

module _ {D : Type 0} (db : Database D) (c : Charset) (ch : IsCharset c) (tables : D → Tables)
    (laws : IsDatabase db c tables) where
  pub get_user_by_account_lem :
      (k : Text) (d : D)
      → c.encodes k ≡ true
      → get_user_by_account db k d
        ≡ scan_row (first_row (find (λ u. c.same u.account k) (tables d).users))
  unfolding get_user_by_account
  get_user_by_account_lem k d e = ap scan_row (laws.user_row (by_account k) d e)

  pub get_user_by_nickname_lem :
      (k : Text) (d : D)
      → c.encodes k ≡ true
      → get_user_by_nickname db k d
        ≡ scan_row (first_row (find (λ u. c.same u.nickname k) (tables d).users))
  unfolding get_user_by_nickname
  get_user_by_nickname_lem k d e = ap scan_row (laws.user_row (by_nickname k) d e)

  pub get_user_by_id_lem :
      (k : ℕ) (d : D)
      → get_user_by_id db k d ≡ scan_row (first_row (find (has_id k) (tables d).users))
  unfolding get_user_by_id
  get_user_by_id_lem k d = ap scan_row (laws.user_row (by_id k) d refl)

  -- A statement that puts a user in has found both keys free.
  insert_user_lem :
      (u : User) (id : ℕ) (d d' : D)
      → IsStorable c u
      → insert_user db u d ≡ (returned id, d')
      → (lets_in c u.account u.nickname (tables d) ≡ true)
        × IsU32 id
        × (tables d' ≡ record (tables d) {
          last_id = id;
          users = (tables d).users ++ (user_of id u.account u.password_hash u.nickname ∷ []);
        })
        × (id ≡ (tables d).last_id + 1)
  unfolding insert_user run_statement
  insert_user_lem u id d d' st e =
      let s = inserts_user u.account u.password_hash u.nickname in
      let clear : is_clear c s ≡ true = inserts_user-clear c ch u st in
      let after : ℕ → Tables = λ k. record (tables d) {
        last_id = k;
        users = (tables d).users ++ (user_of k u.account u.password_hash u.nickname ∷ []);
      } in
      let n : ℕ = (tables d).last_id + 1 in
      elim (Bool-cases (lets_in c u.account u.nickname (tables d))) [
        | inr b ↦
            let (answer, kept) = laws.refused s d clear (rw b refl) in
            let made : insert_user db u d ≡ (failed driver_error, (db.exec s d).1) =
              rw (answer, insert_user) refl in
            absurd (ground (arith, sym made ∙ e))
        | inl b ↦
            let (k, answer, rows, said) = laws.done s d (after n) clear (rw b refl) in
            let made : insert_user db u d ≡ (returned (u32 k), (db.exec s d).1) =
              rw (answer, insert_user) refl in
            let made_of : Returned StoreError ℕ × D = (returned (u32 k), (db.exec s d).1) in
            let both : made_of ≡ (returned id, d') = sym made ∙ e in
            let small : n < 4294967296 = ground (arith, b) in
            let ids : id ≡ n = ground (arith, both, small, said) in
            let last : tables (db.exec s d).1 ≡ tables d' = ap (λ r. tables r.1) both in
            (b, omega (arith, ids, small), sym last ∙ (rows ∙ ap after (sym ids)), ids)
      ]

  create_user_lem :
      (u : User) (id : ℕ) (d d' : D)
      → create_user db u d ≡ (returned id, d')
      → insert_user db u d ≡ (returned id, d')
  unfolding create_user
  create_user_lem u id d d' e = elim (Returned-cases (get_user_by_account db u.account d)) [
    | inl (v, q) ↦ absurd (ground arith)
    | inr (x, q) ↦ elim (Returned-cases (get_user_by_nickname db u.nickname d)) [
      | inl (v, q') ↦ absurd (ground arith)
      | inr (x', q') ↦ ground arith
    ]
  ]

  free :
      (p : User → Bool) (us : List User) → not (is_some_user (find p us)) ≡ true → find p us ≡ none
  free p us e = elim (Option-cases (find p us)) [ inl q ↦ q | inr (v, q) ↦ absurd (ground arith) ]

  -- Over a server that carries out the statements by their meaning, and whose character set takes a
  -- text for the same as itself and for no longer in characters than in bytes, in tables whose ids
  -- are at most the last one that was given: a user with no equipment, whose account, hash and nickname are texts
  -- of at most 64, 100 and 32 bytes in the character set, and whom `MySQLStore` has created, is found
  -- by the account, by the nickname and by the id that was returned. The id is below 2^32, and the
  -- ids are still at most the last one.
  pub created_found :
      (u : User) (id : ℕ) (d d' : D)
      → IsNumbered (tables d)
      → IsStorable c u
      → u.equip_id ≡ 0
      → create_user db u d ≡ (returned id, d')
      → (get_user_by_account db u.account d' ≡ returned (record u { id = id }))
        × (get_user_by_nickname db u.nickname d' ≡ returned (record u { id = id }))
        × (get_user_by_id db id d' ≡ returned (record u { id = id }))
        × IsU32 id
        × IsNumbered (tables d')
  created_found u id d d' h st bare e =
      let (b, small, full, n) = insert_user_lem u id d d' st (create_user_lem u id d d' e) in
      let v : User = user_of id u.account u.password_hash u.nickname in
      let same : v ≡ record u { id = id } = ap (λ k. record v { equip_id = k }) (sym bare) in
      let by : (p : User → Bool)
          → find p (tables d).users ≡ none
          → p v ≡ true
          → scan_row (first_row (find p (tables d').users)) ≡ returned (record u { id = id }) =
        λ p q t.
          ap (λ (t : Tables). scan_row (first_row (find p t.users))) full
          ∙ (ap (λ o. scan_row (first_row o)) (find-append p (tables d).users v q t)
              ∙ ap returned same) in
      (
        get_user_by_account_lem u.account d' st.account
            ∙ by (λ w. c.same w.account u.account)
                (free (λ w. c.same w.account u.account) (tables d).users (ground (arith, b)))
                (ch.same_refl u.account st.account),
        get_user_by_nickname_lem u.nickname d' st.nickname
            ∙ by (λ w. c.same w.nickname u.nickname)
                (free (λ w. c.same w.nickname u.nickname) (tables d).users (ground (arith, b)))
                (ch.same_refl u.nickname st.nickname),
        get_user_by_id_lem id d'
            ∙ by (has_id id)
                (find-above (tables d).last_id id (tables d).users h (omega (arith, n)))
                ((==_iff id id).1 refl),
        small,
        subst (λ t. IsNumbered t) (sym full)
            (All-append (λ w. w.id ≤ id) (tables d).users (v ∷ [])
              (All-weaken (tables d).last_id id (tables d).users (omega (arith, n)) h)
              (omega arith, tt)),
      )

  -- No statement that is clear takes the ids out of their order.
  exec-IsNumbered :
      (s : Statement) (d : D)
      → is_clear c s ≡ true
      → IsNumbered (tables d)
      → IsNumbered (tables (db.exec s d).1)
  exec-IsNumbered s d clear h = elim (Option-cases (run_statement c s (tables d))) [
    | inl q ↦
        let (answer, kept) = laws.refused s d clear q in
        subst (λ us. All (λ u. u.id ≤ (tables (db.exec s d).1).last_id) us) (sym kept.users)
          (All-weaken (tables d).last_id (tables (db.exec s d).1).last_id (tables d).users
            kept.last_id h)
    | inr (t, q) ↦
        let (k, answer, rows, said) = laws.done s d t clear q in
        subst (λ x. IsNumbered x) (sym rows) (run_statement-IsNumbered c s (tables d) t h q)
  ]
