-- ===== src/Store/Friends/Answered.antt =====
-- internal/store/store.go: a request and its answer.
use lurkspire.Prelude.{
  ℕ, ◌≤◌, ◌≡◌, inl, inr, sym, ◌∙◌, true, false, ◌||◌, arith, if◌then◌else◌, lookup, IsMap,
  lookup-insert, Option-cases, Bool-cases, All, All-lookup,
}
use lurkspire.Store.Friends.{
  pair_beq_iff, pair_key, Friendships, invite_friend, pending_friend_ids, accept_friend, friend_ids,
}
use lurkspire.Store.Friends.Changes.{
  is_in, has_status, is_in-friend_ids, is_in-pending_friend_ids, invite_friend-IsMap,
  accept_friend-IsMap, friend_ids-accept_friend,
}

has_status-accept_friend :
    (uid other c d : ℕ) (fs : Friendships)
    → has_status 1 c d fs ≡ true
    → has_status 1 c d (accept_friend uid other fs) ≡ true
unfolding accept_friend
has_status-accept_friend uid other c d fs h = elim (Option-cases (lookup (other, uid) fs)) [
  | inl e ↦ rw (e, accept_friend) h
  | inr (s, e) ↦ rw (e, accept_friend) (ground (arith, lookup-insert (other, uid) (c, d) 1 fs, h))
]

-- Friends stay friends, whatever one of them accepts.
still_friends :
    (uid other : ℕ) (fs : Friendships)
    → IsMap fs
    → is_in other (friend_ids uid fs) ≡ true
    → (is_in other (friend_ids uid (accept_friend uid other fs)) ≡ true)
      × (is_in uid (friend_ids other (accept_friend uid other fs)) ≡ true)
still_friends uid other fs h f =
    let fs' : Friendships = accept_friend uid other fs in
    let h' : IsMap fs' = accept_friend-IsMap uid other fs h in
    let before : (has_status 1 other uid fs || has_status 1 uid other fs) ≡ true =
      sym (is_in-friend_ids other uid fs h) ∙ f in
    (
      ground (
        arith,
        before,
        is_in-friend_ids other uid fs' h',
        has_status-accept_friend uid other other uid fs,
        has_status-accept_friend uid other uid other fs,
      ),
      ground (
        arith,
        before,
        is_in-friend_ids uid other fs' h',
        has_status-accept_friend uid other other uid fs,
        has_status-accept_friend uid other uid other fs,
      ),
    )

-- A request to somebody who is no friend waits for its answer.
asked :
    (a b : ℕ) (fs : Friendships)
    → IsMap fs
    → All (λ p. p.1 ≤ 1) fs
    → is_in b (friend_ids a fs) ≡ false
    → is_in a (pending_friend_ids b (invite_friend a b fs)) ≡ true
unfolding invite_friend
asked a b fs h small n =
    let none_yet : (has_status 1 b a fs || has_status 1 a b fs) ≡ false =
      sym (is_in-friend_ids b a fs h) ∙ n in
    is_in-pending_friend_ids a b (invite_friend a b fs) (invite_friend-IsMap a b fs h)
    ∙ elim (Option-cases (lookup (a, b) fs)) [
      | inl e ↦
          rw (e, invite_friend)
            (ground (arith, lookup-insert (a, b) (a, b) 0 fs, pair_beq_iff (a, b) (a, b)))
      | inr (s, e) ↦
          let low : s ≤ 1 = All-lookup (λ p. p.1 ≤ 1) (a, b) s fs small e in
          rw (e, invite_friend) (ground (arith, none_yet, low, e))
    ]

-- The friendships behind a request of `a` to `b`, which the hub passes on only if they are no friends.
abbrev pub requested : ℕ → ℕ → Friendships → Friendships
requested a b fs = if is_in b (friend_ids a fs) then fs else invite_friend a b fs

pub requested-accepted :
    (a b : ℕ) (fs : Friendships)
    → IsMap fs
    → All (λ p. p.1 ≤ 1) fs
    → (is_in a (friend_ids b (accept_friend b a (requested a b fs))) ≡ true)
      × (is_in b (friend_ids a (accept_friend b a (requested a b fs))) ≡ true)
requested-accepted a b fs h small = elim (Bool-cases (is_in b (friend_ids a fs))) [
  | inl t ↦
      let back : is_in a (friend_ids b fs) ≡ true =
        ground (arith, is_in-friend_ids b a fs h, is_in-friend_ids a b fs h, t) in
      rw t (still_friends b a fs h back)
  | inr t ↦
      let (p, q, r) =
        friend_ids-accept_friend b a (invite_friend a b fs) (invite_friend-IsMap a b fs h)
          (asked a b fs h small t) in
      rw t (p, q)
]
