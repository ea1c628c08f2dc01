-- ===== src/Store/Friends.antt =====
-- internal/store/store.go: the friendships of `MemStore`. A key that `fkey` prints and Sscanf reads
-- back is the pair of its two ids.
pub mod Changes
pub mod Answered
use lurkspire.Prelude.{
  ℕ, ◌≡◌, ◌↔◌, refl, List, [], ◌∷◌, none, some, Bool, true, false, ◌&&◌, arith, if◌then◌else◌, ◌==◌,
  ==_iff, Key, lookup, insert, erase,
}

abbrev pub pair_beq : ℕ × ℕ → ℕ × ℕ → Bool
pair_beq p q = p.0 == q.0 && p.1 == q.1

pub pair_beq_iff : (p q : ℕ × ℕ) → (pair_beq p q ≡ true) ↔ (p ≡ q)
pair_beq_iff p q = ground (arith, ==_iff p.0 q.0, ==_iff p.1 q.1)

instance abbrev pub pair_key : Key (ℕ × ℕ)
pair_key = record { beq = pair_beq; beq_iff = pair_beq_iff }

-- The user who asked, the user who was asked, and the status: 0 for a request, 1 for a friendship.
abbrev pub Friendships : Type 0
Friendships = List ((ℕ × ℕ) × ℕ)

-- `InviteFriend`
unfoldable pub invite_friend : ℕ → ℕ → Friendships → Friendships
invite_friend a b fs = elim (lookup (a, b) fs) [ some status ↦ fs | none ↦ insert (a, b) 0 fs ]

-- `PendingFriendIDs`
unfoldable pub pending_friend_ids : ℕ → Friendships → List ℕ
pending_friend_ids uid [] = []
pending_friend_ids uid (((a, b), status) ∷ fs) =
    let rest = pending_friend_ids uid fs in if status == 0 && b == uid then a ∷ rest else rest

-- `AcceptFriend`: `uid` accepts what `other` asked.
unfoldable pub accept_friend : ℕ → ℕ → Friendships → Friendships
accept_friend uid other fs = elim (lookup (other, uid) fs) [
  | some status ↦ insert (other, uid) 1 fs
  | none ↦ fs
]

-- `RejectFriend`
unfoldable pub reject_friend : ℕ → ℕ → Friendships → Friendships
reject_friend uid other fs = erase (other, uid) fs

-- `FriendIDs`
unfoldable pub friend_ids : ℕ → Friendships → List ℕ
friend_ids uid [] = []
friend_ids uid (((a, b), status) ∷ fs) =
    let rest = friend_ids uid fs in
    if status == 1
    then (if a == uid then b ∷ rest else if b == uid then a ∷ rest else rest)
    else rest
