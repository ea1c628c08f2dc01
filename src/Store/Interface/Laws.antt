-- ===== src/Store/Interface/Laws.antt =====
-- internal/store/store.go: what the accounts' service relies on in a store, and `MemStore` as one.
use lurkspire.Prelude.{
  ℕ, ◌+◌, ◌≤◌, ◌<◌, Bool, ◌≡◌, refl, sym, ap, subst, ◌∙◌, inl, inr, List, [], ◌∷◌, ◌++◌, some, none,
  true, arith, IsU32, All, find, Option-cases, ==_iff, text_beq_iff,
}
use lurkspire.Store.Users.{
  User, returned, fetch, MemStore, create_user, get_user_by_account, get_user_by_id,
}
use lurkspire.Store.Users.Table.{Table, has_account, has_id, create_row, select, has_nickname}
use lurkspire.Store.Users.Refines.{
  view, IsStore, create_user-refines, get_user_by_account-refines, get_user_by_id-refines,
}
use lurkspire.Store.Interface.{Store, mem_store}

-- In the states that are valid, a user that was created with no equipment is found by its account and by its id.
pub record IsLawful {S : Type 0} (store : Store S) (IsValid : S → Type 0) : Type 0 where
  pub created_account :
      (u : User) (id : ℕ) (s s' : S)
      → IsValid s
      → u.equip_id ≡ 0
      → store.create_user u s ≡ (returned id, s')
      → store.get_user_by_account u.account s' ≡ returned (record u { id = id })
  pub created_id :
      (u : User) (id : ℕ) (s s' : S)
      → IsValid s
      → u.equip_id ≡ 0
      → store.create_user u s ≡ (returned id, s')
      → IsU32 id × (store.get_user_by_id id s' ≡ returned (record u { id = id }))

-- A store that has not used up its ids.
abbrev pub IsValidStore : MemStore → Type 0
IsValidStore m = IsStore m × IsU32 (m.next_id + 1)

pub find-append :
    (p : User → Bool) (us : List User) (u : User)
    → find p us ≡ none
    → p u ≡ true
    → find p (us ++ (u ∷ [])) ≡ some u
find-append p [] u e t = ground arith
find-append p (v ∷ us) u e t = ground (arith, find-append p us u)

pub find-above :
    (n k : ℕ) (us : List User) → All (λ u. u.id ≤ n) us → n < k → find (has_id k) us ≡ none
find-above n k [] a h = refl
find-above n k (u ∷ us) a h = ground (arith, find-above n k us)

-- The row of a user that the table has taken.
create_row-found :
    (u : User) (id : ℕ) (t t' : Table)
    → All (λ v. v.id ≤ t.last_id) t.rows
    → (create_row u t).0 ≡ returned id
    → (create_row u t).1 ≡ t'
    → (select (has_account u.account) t' ≡ returned (record u { id = id }))
      × (select (has_id id) t' ≡ returned (record u { id = id }))
      × (id ≡ t.last_id + 1)
create_row-found u id t t' a e e' = elim (Option-cases (find (has_account u.account) t.rows)) [
  | inr (v, q) ↦ absurd (ground arith)
  | inl q ↦ elim (Option-cases (find (has_nickname u.nickname) t.rows)) [
    | inr (v, q') ↦ absurd (ground arith)
    | inl q' ↦
        let n : ℕ = t.last_id + 1 in
        let v : User = record u { id = n } in
        let end : Table = record { last_id = n; rows = t.rows ++ (v ∷ []) } in
        let ids : id ≡ n = ground arith in
        let tables : end ≡ t' = ground arith in
        let by_account : find (has_account u.account) end.rows ≡ some v =
          find-append (has_account u.account) t.rows v q
            ((text_beq_iff u.account u.account).1 refl) in
        let by_id : find (has_id n) end.rows ≡ some v =
          find-append (has_id n) t.rows v (find-above t.last_id n t.rows a (omega arith))
            ((==_iff n n).1 refl) in
        rw (ids, ← tables) (ap fetch by_account, ap fetch by_id, refl)
  ]
]

mem_store-created :
    (u : User) (id : ℕ) (s s' : MemStore)
    → IsValidStore s
    → create_user u s ≡ (returned id, s')
    → (get_user_by_account u.account s' ≡ returned (record u { id = id }))
      × (get_user_by_id id s' ≡ returned (record u { id = id }))
      × IsU32 id
mem_store-created u id s s' h e =
    let (a, b, k) = create_user-refines s h.0 u h.1 in
    let k' : IsStore s' = subst IsStore (ap (λ r. r.1) e) k in
    let (p, q, n) =
      create_row-found u id (view s) (view s') h.0.ids (sym a ∙ ap (λ r. r.0) e)
        (sym b ∙ ap (λ r. view r.1) e) in
    (
      get_user_by_account-refines s' k' u.account ∙ p,
      get_user_by_id-refines s' k' id ∙ q,
      omega (arith, n, h.1),
    )

pub mem_store-IsLawful : IsLawful mem_store IsValidStore
mem_store-IsLawful = record {
  created_account = λ u id s s' h bare e. (mem_store-created u id s s' h e).0;
  created_id = λ u id s s' h bare e. let (p, q, r) = mem_store-created u id s s' h e in (r, q);
}
