-- ===== src/Gateway/Invariant.antt =====
-- internal/gateway: what is true of the process between two events.
pub mod Login
pub mod Close
pub mod Events
pub mod Closed
pub mod Entered
pub mod Emptied
pub mod Delivered
pub mod Joins
pub mod Befriends
use lurkspire.Prelude.{
  ℕ, ◌+◌, ◌≤◌, ◌≡◌, refl, sym, subst, inl, inr, List, [], ◌∷◌, Option, none, some, Bool, true,
  false, arith, All, All-map2, All-lookup, if◌then◌else◌, Option-cases, Bool-cases, length, ◌==◌,
  lookup, insert, erase, modify, nat_key, IsMap, lookup-modify, ==_iff,
}
use mathlib.Core.Option
use lurkspire.Gateway.State.{Session, World, new_world}
use lurkspire.Gateway.Steady.{Steady, tag, tags, IsQueued}
use lurkspire.Gateway.Battle.Members.{AreApart}
use lurkspire.Gateway.Registry.Running.{IsManager}

-- The entry of a user who is online: an open session, logged in as this user.
abbrev pub IsOnline : List (ℕ × (ℕ × (Bool × Bool))) → ℕ × ℕ → Type 0
IsOnline ts e = lookup e.1 ts ≡ some (e.0, (true, false))

abbrev pub IsBelow : ℕ → ℕ × (ℕ × (Bool × Bool)) → Type 0
IsBelow n e = e.0 ≤ n

-- A process that has made at most `n` sessions, numbered in turn: a user is online with one session,
-- which is open and logged in as this user; every room is in order and every name of the manager
-- leads to a running room of this name, and so does every name of the room list; no queue is over its
-- channel, and no session is in a room's map twice.
pub record IsWorld {S : Type 0} (n : ℕ) (w : World S) : Type 0 where
  pub some_sessions : w.seq ≤ n
  pub numbered : All (IsBelow w.seq) (tags w.sessions)
  pub distinct : IsMap w.online
  pub online : All (IsOnline (tags w.sessions)) w.online
  pub orderly : IsManager w.manager w.rooms w.next_room w.metas
  pub queued : All IsQueued w.sessions
  pub apart : AreApart w.room_sessions

pub lookup-tags :
    (u : ℕ) (ss : List (ℕ × Session)) → lookup u (tags ss) ≡ Option.map tag (lookup u ss)
unfolding lookup
lookup-tags u [] = refl
lookup-tags u ((i, s) ∷ ss) = ground (arith, lookup-tags u ss)

pub tags-modify_with :
    (uid : ℕ) (f : Session → Session) (g : ℕ × (Bool × Bool) → ℕ × (Bool × Bool))
    (ss : List (ℕ × Session))
    → ((s : Session) → tag (f s) ≡ g (tag s))
    → tags (modify uid f ss) ≡ modify uid g (tags ss)
unfolding modify
tags-modify_with uid f g [] h = refl
tags-modify_with uid f g ((i, s) ∷ ss) h = ground (arith, h s, tags-modify_with uid f g ss h)

-- A change of a session that is not online.
pub IsOnline-modify :
    (uid : ℕ) (g : ℕ × (Bool × Bool) → ℕ × (Bool × Bool)) (ts : List (ℕ × (ℕ × (Bool × Bool))))
    (online : List (ℕ × ℕ))
    → ((k : ℕ) → lookup uid ts ≡ some (k, (true, false)) → All (λ e. (e.0 == k) ≡ false) online)
    → All (IsOnline ts) online
    → All (IsOnline (modify uid g ts)) online
IsOnline-modify uid g ts [] h a = tt
IsOnline-modify uid g ts ((k, u) ∷ online) h a =
    let rest = IsOnline-modify uid g ts online (λ j q. (h j q).1) a.1 in
    elim (Bool-cases (uid == u)) [
      | inl e ↦
          let same : uid ≡ u = (==_iff uid u).0 e in
          let here : lookup uid ts ≡ some (k, (true, false)) =
            subst (λ (x : ℕ). lookup x ts ≡ some (k, (true, false))) (sym same) a.0 in
          absurd (ground (arith, (h k here).0, ==_iff k k))
      | inr e ↦ (ground (arith, lookup-modify uid u g ts, a.0), rest)
    ]

module _ {S : Type 0} (n : ℕ) where
  pub IsWorld-Steady : (start w : World S) → IsWorld n start → Steady start w → IsWorld n w
  IsWorld-Steady start w h k = record {
    some_sessions = ground (arith, h.some_sessions, k.same_seq);
    numbered = rw (k.same_seq, k.same_tags) h.numbered;
    distinct = rw k.same_online h.distinct;
    online = rw (k.same_online, k.same_tags) h.online;
    orderly = k.orderly;
    queued = k.queued;
    apart = k.apart;
  }

  pub Steady-start : (w : World S) → IsWorld n w → Steady w w
  Steady-start w h = record {
    same_online = refl;
    same_seq = refl;
    same_tags = refl;
    orderly = h.orderly;
    queued = h.queued;
    apart = h.apart;
  }

pub IsWorld-new_world : {S : Type 0} (s : S) → IsWorld 0 (new_world s)
IsWorld-new_world s = record {
  some_sessions = omega arith;
  numbered = tt;
  distinct = tt;
  online = tt;
  orderly = record {
    orderly = tt;
    older = tt;
    distinct = tt;
    names = tt;
    running = tt;
    listed = tt;
    shown = tt;
  };
  queued = tt;
  apart = tt;
}
