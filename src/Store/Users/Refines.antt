-- ===== src/Store/Users/Refines.antt =====
-- internal/store/store.go: `MemStore`, one operation after the other, against the table of users.

use lurkspire.Prelude.{
  ℕ, zero, suc, ◌+◌, ◌≤◌, ◌<◌, ◌≡◌, refl, sym, ap, ◌∙◌, inl, inr, List, [], ◌∷◌, ◌++◌, none, some,
  Bool, arith, u32, IsU32, length, lookup, insert, nat_key, text_key, nth_opt, update_at, find,
  index_of, All, All-append, lookup-insert, nth_opt-index_of, index_of-append, index_of-update_at,
  update_at-index_of, Option-cases, Key, Bool-cases,
}
use lurkspire.Store.Users.Catalogue.{Text}
use lurkspire.Store.Users.{
  User, MemStore, new_mem_store, create_user, fetch, get_user_by_account, get_user_by_nickname,
  get_user_by_id, set_equip,
}
use lurkspire.Store.Users.Table.{
  Table, has_account, has_nickname, has_id, create_row, select, update_equip,
}

abbrev pub view : MemStore → Table
view m = record { last_id = m.next_id; rows = m.cells }

-- Every map finds the cell that a search of the cells finds; the ids are at most the last one.
pub record IsStore (m : MemStore) : Type 0 where
  pub by_account : (k : Text) → lookup k m.users ≡ index_of (has_account k) m.cells
  pub by_nickname : (k : Text) → lookup k m.by_nick ≡ index_of (has_nickname k) m.cells
  pub by_id : (k : ℕ) → lookup k m.by_id ≡ index_of (has_id k) m.cells
  pub ids : All (λ u. u.id ≤ m.next_id) m.cells

pub new_mem_store-IsStore : IsStore new_mem_store
unfolding lookup
new_mem_store-IsStore = record {
  by_account = λ k. refl;
  by_nickname = λ k. refl;
  by_id = λ k. refl;
  ids = tt;
}

-- Only an empty search finds no cell.
index_of-find : (p : User → Bool) (us : List User) → index_of p us ≡ none → find p us ≡ none
index_of-find p us e = sym (nth_opt-index_of p us) ∙ ap (λ o. nth_opt o us) e

index_of-find-some :
    (p : User → Bool) (us : List User) (i : ℕ)
    → index_of p us ≡ some i
    → (u : User) × (find p us ≡ some u)
index_of-find-some p [] i e = absurd (ground arith)
index_of-find-some p (u ∷ us) i e = elim (Bool-cases (p u)) [
  | inl t ↦ (u, ground arith)
  | inr t ↦ elim (Option-cases (index_of p us)) [
    | inl n ↦ absurd (ground arith)
    | inr (j, n) ↦ let (v, q) = index_of-find-some p us j n in (v, ground arith)
  ]
]

index_of-above :
    (n k : ℕ) (us : List User) → All (λ u. u.id ≤ n) us → n < k → index_of (has_id k) us ≡ none
index_of-above n k [] a h = refl
index_of-above n k (u ∷ us) a h = ground (arith, index_of-above n k us)

pub All-weaken :
    (m n : ℕ) (us : List User) → m ≤ n → All (λ u. u.id ≤ m) us → All (λ u. u.id ≤ n) us
All-weaken m n [] h a = tt
All-weaken m n (u ∷ us) h a = (omega (arith, a.0), All-weaken m n us h a.1)

All-update_at :
    (n : ℕ) (f : User → User) (i : ℕ) (us : List User)
    → ((u : User) → (f u).id ≡ u.id)
    → All (λ u. u.id ≤ n) us
    → All (λ u. u.id ≤ n) (update_at i f us)
All-update_at n f i [] h a = tt
All-update_at n f zero (u ∷ us) h a = (omega (arith, h u, a.0), a.1)
All-update_at n f (suc i) (u ∷ us) h a = (a.0, All-update_at n f i us h a.1)

-- A key that is not in an index yet, set to a new cell.
append-index :
    {K : Type 0} ⦃e : Key K⦄ (field : User → K) (key k : K) (index : List (K × ℕ)) (us : List User)
    (u : User)
    → ((j : K) → lookup j index ≡ index_of (λ v. e.beq (field v) j) us)
    → lookup key index ≡ none
    → field u ≡ key
    → lookup k (insert key (length us) index) ≡ index_of (λ v. e.beq (field v) k) (us ++ (u ∷ []))
append-index ⦃e⦄ field key k index us u h none_yet same =
    let p : User → Bool = λ v. e.beq (field v) k in
    ground (
      arith,
      lookup-insert key k (length us) index,
      index_of-append p us u,
      h k,
      e.beq_iff key k,
      same,
    )

-- The store with one user more.
abbrev pub added : User → ℕ → MemStore → MemStore
added u id m = record m {
  next_id = id;
  cells = m.cells ++ (record u { id = id } ∷ []);
  users = insert u.account (length m.cells) m.users;
  by_nick = insert u.nickname (length m.cells) m.by_nick;
  by_id = insert id (length m.cells) m.by_id;
}

module _ (m : MemStore) (s : IsStore m) where
  added-IsStore :
      (u : User)
      → lookup u.account m.users ≡ none
      → lookup u.nickname m.by_nick ≡ none
      → IsStore (added u (m.next_id + 1) m)
  added-IsStore u e e' =
      let id : ℕ = m.next_id + 1 in
      let v : User = record u { id = id } in
      let fresh : lookup id m.by_id ≡ none =
        s.by_id id ∙ index_of-above m.next_id id m.cells s.ids (omega arith) in
      record {
        by_account =
            λ k. append-index (λ w. w.account) u.account k m.users m.cells v s.by_account e refl;
        by_nickname = λ k.
            append-index (λ w. w.nickname) u.nickname k m.by_nick m.cells v s.by_nickname e' refl;
        by_id = λ k. append-index (λ w. w.id) id k m.by_id m.cells v s.by_id fresh refl;
        ids =
            All-append (λ w. w.id ≤ id) m.cells (v ∷ [])
              (All-weaken m.next_id id m.cells (omega arith) s.ids) (omega arith, tt);
      }

  -- A new user has a place of its own in the maps and in the table.
  pub create_user-refines :
      (u : User)
      → IsU32 (m.next_id + 1)
      → ((create_user u m).0 ≡ (create_row u (view m)).0)
        × (view (create_user u m).1 ≡ (create_row u (view m)).1)
        × IsStore (create_user u m).1
  unfolding create_user
  create_user-refines u h = elim (Option-cases (lookup u.account m.users)) [
    | inr (a, e) ↦
        let (v, q) =
          index_of-find-some (has_account u.account) m.cells a (sym (s.by_account u.account) ∙ e) in
        rw (e, create_user) (rw q (refl, refl, s))
    | inl e ↦
        let q = index_of-find (has_account u.account) m.cells (sym (s.by_account u.account) ∙ e) in
        elim (Option-cases (lookup u.nickname m.by_nick)) [
          | inr (a, e') ↦
              let (v, q') =
                index_of-find-some (has_nickname u.nickname) m.cells a
                  (sym (s.by_nickname u.nickname) ∙ e') in
              rw (e, e', create_user) (rw (q, q') (refl, refl, s))
          | inl e' ↦
              let q' =
                index_of-find (has_nickname u.nickname) m.cells
                  (sym (s.by_nickname u.nickname) ∙ e') in
              let wrap : u32 (m.next_id + 1) ≡ m.next_id + 1 = omega arith in
              rw (e, e', wrap, create_user) (rw (q, q') (refl, refl, added-IsStore u e e'))
        ]
  ]

  pub get_user_by_account-refines :
      (k : Text) → get_user_by_account k m ≡ select (has_account k) (view m)
  unfolding get_user_by_account
  get_user_by_account-refines k =
      ap (λ o. fetch (nth_opt o m.cells)) (s.by_account k)
      ∙ ap fetch (nth_opt-index_of (has_account k) m.cells)

  pub get_user_by_nickname-refines :
      (k : Text) → get_user_by_nickname k m ≡ select (has_nickname k) (view m)
  unfolding get_user_by_nickname
  get_user_by_nickname-refines k =
      ap (λ o. fetch (nth_opt o m.cells)) (s.by_nickname k)
      ∙ ap fetch (nth_opt-index_of (has_nickname k) m.cells)

  pub get_user_by_id-refines : (k : ℕ) → get_user_by_id k m ≡ select (has_id k) (view m)
  unfolding get_user_by_id
  get_user_by_id-refines k =
      ap (λ o. fetch (nth_opt o m.cells)) (s.by_id k)
      ∙ ap fetch (nth_opt-index_of (has_id k) m.cells)

  -- A write through the pointer that one map holds is seen through the others.
  pub set_equip-refines :
      (id equip : ℕ)
      → ((set_equip id equip m).0 ≡ (update_equip id equip (view m)).0)
        × (view (set_equip id equip m).1 ≡ (update_equip id equip (view m)).1)
        × IsStore (set_equip id equip m).1
  unfolding set_equip
  set_equip-refines id equip = elim (Option-cases (lookup id m.by_id)) [
    | inl e ↦
        let q = index_of-find (has_id id) m.cells (sym (s.by_id id) ∙ e) in
        rw (e, set_equip) (rw q (refl, refl, s))
    | inr (a, e) ↦
        let i : index_of (has_id id) m.cells ≡ some a = sym (s.by_id id) ∙ e in
        let (v, q) = index_of-find-some (has_id id) m.cells a i in
        let f : User → User = λ u. record u { equip_id = equip } in
        rw (e, set_equip)
          (rw q (
            refl,
            ap (λ rows. record { last_id = m.next_id; rows = rows })
                (update_at-index_of (has_id id) f a m.cells i),
            record {
              by_account = λ k.
                  s.by_account k ∙ sym (index_of-update_at (has_account k) f a m.cells (λ u. refl));
              by_nickname = λ k.
                  s.by_nickname k
                  ∙ sym (index_of-update_at (has_nickname k) f a m.cells (λ u. refl));
              by_id = λ k. s.by_id k ∙ sym (index_of-update_at (has_id k) f a m.cells (λ u. refl));
              ids = All-update_at m.next_id f a m.cells (λ u. refl) s.ids;
            },
          ))
  ]
