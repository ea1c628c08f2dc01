-- ===== src/Store/Friends/Changes.antt =====
-- internal/store/store.go: who is whose friend, and what the operations change.
use lurkspire.Prelude.{
  ℕ, ◌≡◌, inl, inr, refl, sym, ◌∙◌, List, [], ◌∷◌, none, some, Bool, true, false, ◌||◌, arith,
  if◌then◌else◌, ◌==◌, ==_iff, lookup, erase, IsMap, lookup-insert, lookup-erase, insert-IsMap,
  erase-IsMap, Option-cases,
}
use lurkspire.Store.Friends.{
  pair_beq, pair_beq_iff, pair_key, Friendships, invite_friend, pending_friend_ids, accept_friend,
  reject_friend, friend_ids,
}

abbrev pub is_in : ℕ → List ℕ → Bool
is_in x [] = false
is_in x (y ∷ ys) = y == x || is_in x ys

-- Whether an entry with a status is filed under two ids.
abbrev pub has_status : ℕ → ℕ → ℕ → Friendships → Bool
has_status status a b fs = elim (lookup (a, b) fs) [ none ↦ false | some s ↦ s == status ]

-- Two users are friends exactly if one of them has accepted what the other asked.
pub is_in-friend_ids :
    (a b : ℕ) (fs : Friendships)
    → IsMap fs
    → is_in a (friend_ids b fs) ≡ (has_status 1 a b fs || has_status 1 b a fs)
unfolding friend_ids lookup
is_in-friend_ids a b [] h = refl
is_in-friend_ids a b (((x, y), s) ∷ fs) h =
    ground (arith, ==_iff x a, ==_iff y b, ==_iff x b, ==_iff y a, is_in-friend_ids a b fs h.1)

-- A user's requests are the users who have asked it and have not been answered.
pub is_in-pending_friend_ids :
    (a b : ℕ) (fs : Friendships)
    → IsMap fs
    → is_in a (pending_friend_ids b fs) ≡ has_status 0 a b fs
unfolding pending_friend_ids lookup
is_in-pending_friend_ids a b [] h = refl
is_in-pending_friend_ids a b (((x, y), s) ∷ fs) h =
    ground (arith, ==_iff x a, ==_iff y b, is_in-pending_friend_ids a b fs h.1)

pub invite_friend-IsMap : (a b : ℕ) (fs : Friendships) → IsMap fs → IsMap (invite_friend a b fs)
unfolding invite_friend
invite_friend-IsMap a b fs h = elim (Option-cases (lookup (a, b) fs)) [
  | inl e ↦ rw (e, invite_friend) (insert-IsMap (a, b) 0 fs h)
  | inr (s, e) ↦ rw (e, invite_friend) h
]

pub accept_friend-IsMap :
    (uid other : ℕ) (fs : Friendships) → IsMap fs → IsMap (accept_friend uid other fs)
unfolding accept_friend
accept_friend-IsMap uid other fs h = elim (Option-cases (lookup (other, uid) fs)) [
  | inl e ↦ rw (e, accept_friend) h
  | inr (s, e) ↦ rw (e, accept_friend) (insert-IsMap (other, uid) 1 fs h)
]

lookup-accept_friend :
    (uid other : ℕ) (k : ℕ × ℕ) (fs : Friendships)
    → has_status 0 other uid fs ≡ true
    → lookup k (accept_friend uid other fs)
      ≡ (if pair_beq (other, uid) k then some 1 else lookup k fs)
unfolding accept_friend
lookup-accept_friend uid other k fs r = elim (Option-cases (lookup (other, uid) fs)) [
  | inl e ↦ absurd (ground arith)
  | inr (s, e) ↦ rw (e, accept_friend) (lookup-insert (other, uid) k 1 fs)
]

-- In a table of friendships, accepting a request that has not been answered makes the two users
-- friends of each other and takes the request off the list of requests.
pub friend_ids-accept_friend :
    (uid other : ℕ) (fs : Friendships)
    → IsMap fs
    → is_in other (pending_friend_ids uid fs) ≡ true
    → (is_in other (friend_ids uid (accept_friend uid other fs)) ≡ true)
      × (is_in uid (friend_ids other (accept_friend uid other fs)) ≡ true)
      × (is_in other (pending_friend_ids uid (accept_friend uid other fs)) ≡ false)
friend_ids-accept_friend uid other fs h r =
    let fs' : Friendships = accept_friend uid other fs in
    let h' : IsMap fs' = accept_friend-IsMap uid other fs h in
    let asked : has_status 0 other uid fs ≡ true =
      sym (is_in-pending_friend_ids other uid fs h) ∙ r in
    let now : lookup (other, uid) fs' ≡ some 1 = ground (
      arith,
      ==_iff other other,
      ==_iff uid uid,
      lookup-accept_friend uid other (other, uid) fs asked,
    ) in
    (
      ground (arith, is_in-friend_ids other uid fs' h'),
      ground (arith, is_in-friend_ids uid other fs' h'),
      ground (arith, is_in-pending_friend_ids other uid fs' h'),
    )

has_status-invite_friend :
    (a b c d : ℕ) (fs : Friendships) → has_status 1 c d (invite_friend a b fs) ≡ has_status 1 c d fs
unfolding invite_friend
has_status-invite_friend a b c d fs = elim (Option-cases (lookup (a, b) fs)) [
  | inl e ↦
      rw (e, invite_friend)
        (ground (
          arith,
          lookup-insert (a, b) (c, d) 0 fs,
          pair_beq_iff (a, b) (c, d),
          e,
          ==_iff a c,
          ==_iff b d,
        ))
  | inr (s, e) ↦ rw (e, invite_friend) refl
]

-- In a table of friendships, asking anybody changes nobody's friends.
pub friend_ids-invite_friend :
    (a b c d : ℕ) (fs : Friendships)
    → IsMap fs
    → is_in c (friend_ids d (invite_friend a b fs)) ≡ is_in c (friend_ids d fs)
friend_ids-invite_friend a b c d fs h = ground (
  arith,
  is_in-friend_ids c d (invite_friend a b fs) (invite_friend-IsMap a b fs h),
  is_in-friend_ids c d fs h,
  has_status-invite_friend a b c d fs,
  has_status-invite_friend a b d c fs,
)

-- In a table of friendships, rejecting a user who was accepted before, and who was not asked the
-- other way round, ends the friendship.
pub friend_ids-reject_friend :
    (uid other : ℕ) (fs : Friendships)
    → IsMap fs
    → is_in other (friend_ids uid fs) ≡ true
    → lookup (uid, other) fs ≡ none
    → is_in other (friend_ids uid (reject_friend uid other fs)) ≡ false
unfolding reject_friend
friend_ids-reject_friend uid other fs h f none_back = ground (
  arith,
  ==_iff other other,
  ==_iff uid uid,
  is_in-friend_ids other uid (erase (other, uid) fs) (erase-IsMap (other, uid) fs h),
  lookup-erase (other, uid) (other, uid) fs h,
  lookup-erase (other, uid) (uid, other) fs h,
)
