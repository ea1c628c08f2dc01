-- ===== src/Gateway/Invariant/Close.antt =====
-- internal/gateway/session.go, hub.go: what closing a session does to the process.
use lurkspire.Prelude.{
  ℕ, ◌≡◌, refl, sym, ap, ◌∙◌, subst, inl, inr, List, [], ◌∷◌, none, some, Bool, true, false, arith,
  All, All-modify, All-erase, All-erase_other, Option-cases, Bool-cases, ◌==◌, lookup, erase,
  modify, nat_key, erase-IsMap, lookup-modify, ==_iff,
}
use mathlib.Core.Option
use lurkspire.Room.State.{sets_online}
use lurkspire.Gateway.Presence.{broadcast_online}
use lurkspire.Gateway.State.{Env, Session, World}
use lurkspire.Gateway.Send.{session_of}
use lurkspire.Gateway.Battle.{room_call, set_room}
use lurkspire.Gateway.Server.{go_offline, on_disconnect, close, close_all}
use lurkspire.Gateway.Battle.Members.{drop_apart}
use lurkspire.Gateway.Steady.{
  Steady, Steady-option, Steady-put_rooms, Steady-set_room, tag, tags, IsQueued,
}
use lurkspire.Gateway.Steady.Rooms.{Steady-room_call}
use lurkspire.Gateway.Steady.Lists.{Steady-broadcast_online}
use lurkspire.Gateway.Invariant.{
  IsWorld, IsOnline, IsBelow, IsWorld-Steady, lookup-tags, tags-modify_with, IsOnline-modify,
}

abbrev pub shut : ℕ × (Bool × Bool) → ℕ × (Bool × Bool)
shut t = (t.0, (t.1.0, true))

module _ {S : Type 0} where
  pub Steady-go_offline :
      (start : World S) (env : Env S) (uid : ℕ) (w : World S)
      → Steady start w
      → Steady start (go_offline env uid w)
  unfolding go_offline
  Steady-go_offline start env uid w h = Steady-option start (session_of uid w).room h (λ r.
      let m = sets_online (session_of uid w).login_uid false in
      Steady-put_rooms start (room_call env r m (set_room uid none w)).0 _ refl refl refl refl
        (drop_apart r uid _)
        (Steady-room_call start env r m _ (Steady-set_room start uid none w h)))

module _ {S : Type 0} (n : ℕ) (env : Env S) (uid : ℕ) (w : World S) (h : IsWorld n w) where
  -- The world in which the session is closed, and nothing else has happened.
  abbrev pub shut_world : World S
  shut_world = record w { sessions = modify uid (λ s. record s { closed = true }) w.sessions }

  tags-shut_world : tags shut_world.sessions ≡ modify uid shut (tags w.sessions)
  tags-shut_world =
      tags-modify_with uid (λ s. record s { closed = true }) shut w.sessions (λ s. refl)

  shut_world-IsQueued : All IsQueued shut_world.sessions
  shut_world-IsQueued =
      All-modify IsQueued uid (λ s. record s { closed = true }) w.sessions h.queued (λ s k. k)

  shut_world-Steady : Steady shut_world shut_world
  shut_world-Steady = record {
    same_online = refl;
    same_seq = refl;
    same_tags = refl;
    orderly = h.orderly;
    queued = shut_world-IsQueued;
    apart = h.apart;
  }

  -- The online entries that are left are of other sessions.
  shut_world-IsOnline :
      (online : List (ℕ × ℕ))
      → ((k : ℕ)
          → lookup uid (tags w.sessions) ≡ some (k, (true, false))
          → All (λ e. (e.0 == k) ≡ false) online)
      → All (IsOnline (tags w.sessions)) online
      → All (IsOnline (tags shut_world.sessions)) online
  shut_world-IsOnline online f a =
      rw tags-shut_world (IsOnline-modify uid shut (tags w.sessions) online f a)

  -- The user whose entry leads to the session.
  shut_user :
      (k : ℕ)
      → lookup uid (tags w.sessions) ≡ some (k, (true, false))
      → ((session_of uid shut_world).logged_in ≡ true) × ((session_of uid shut_world).login_uid ≡ k)
  shut_user k q = elim (Option-cases (lookup uid w.sessions)) [
    | inl e ↦ absurd (ground (arith, lookup-tags uid w.sessions))
    | inr (s, e) ↦
        let found : lookup uid shut_world.sessions ≡ some (record s { closed = true }) = ground (
          arith,
          lookup-modify uid uid (λ (s : Session). record s { closed = true }) w.sessions,
          ==_iff uid uid,
        ) in
        let t : some (tag s) ≡ some (k, (true, false)) =
          sym (ap (Option.map tag) e) ∙ (sym (lookup-tags uid w.sessions) ∙ q) in
        rw found (ground arith)
  ]

  -- A session that nobody is logged in with.
  shut_guest-IsWorld : (session_of uid shut_world).logged_in ≡ false → IsWorld n shut_world
  shut_guest-IsWorld e = record {
    some_sessions = h.some_sessions;
    numbered =
        rw tags-shut_world
          (All-modify (IsBelow w.seq) uid shut (tags w.sessions) h.numbered (λ t k. k));
    distinct = h.distinct;
    online =
        shut_world-IsOnline w.online (λ k q. absurd (ground (arith, e, (shut_user k q).0)))
          h.online;
    orderly = h.orderly;
    queued = shut_world-IsQueued;
    apart = h.apart;
  }

  -- A session with a user, whose entry is removed.
  shut_user-IsWorld :
      IsWorld n
        (record shut_world { online = erase (session_of uid shut_world).login_uid w.online })
  shut_user-IsWorld =
      let k = (session_of uid shut_world).login_uid in
      let others = All-erase_other k w.online h.distinct in
      record {
        some_sessions = h.some_sessions;
        numbered =
            rw tags-shut_world
              (All-modify (IsBelow w.seq) uid shut (tags w.sessions) h.numbered (λ t k. k));
        distinct = erase-IsMap k w.online h.distinct;
        online =
            shut_world-IsOnline (erase k w.online)
              (λ j q.
                subst (λ (x : ℕ). All (λ e. (e.0 == x) ≡ false) (erase k w.online))
                  (shut_user j q).1 others)
              (All-erase (IsOnline (tags w.sessions)) k w.online h.online);
        orderly = h.orderly;
        queued = shut_world-IsQueued;
        apart = h.apart;
      }

  -- The world after the room has been told, and after the user has left the table too.
  abbrev offline_world : World S
  offline_world = go_offline env uid shut_world

  abbrev erased_world : World S
  erased_world = record offline_world {
    online = erase (session_of uid shut_world).login_uid offline_world.online;
  }

  offline-Steady : Steady shut_world offline_world
  offline-Steady = Steady-go_offline shut_world env uid shut_world shut_world-Steady

  erased-Steady :
      Steady erased_world
        (broadcast_online env (session_of uid shut_world).login_uid false erased_world)
  erased-Steady =
      Steady-broadcast_online erased_world env (session_of uid shut_world).login_uid false
        erased_world
        (record {
          same_online = refl;
          same_seq = refl;
          same_tags = refl;
          orderly = offline-Steady.orderly;
          queued = offline-Steady.queued;
          apart = offline-Steady.apart;
        })

  -- Behind the closing of a session nothing is changed about the others.
  pub tags-on_disconnect :
      tags (on_disconnect env uid shut_world).sessions ≡ modify uid shut (tags w.sessions)
  unfolding on_disconnect
  tags-on_disconnect =
      let same = offline-Steady.same_tags ∙ tags-shut_world in
      elim (Bool-cases (session_of uid shut_world).logged_in) [
        | inr e ↦ rw (e, on_disconnect) same
        | inl e ↦ rw (e, on_disconnect) (erased-Steady.same_tags ∙ same)
      ]

  -- A user whose session is closed is offline, whatever session the entry has led to.
  pub online-on_disconnect :
      (session_of uid shut_world).logged_in ≡ true
      → (on_disconnect env uid shut_world).online
        ≡ erase (session_of uid shut_world).login_uid w.online
  unfolding on_disconnect
  online-on_disconnect e =
      rw (e, on_disconnect)
        (erased-Steady.same_online
          ∙ ap (erase (session_of uid shut_world).login_uid) offline-Steady.same_online)

  on_disconnect-IsWorld : IsWorld n (on_disconnect env uid shut_world)
  unfolding on_disconnect
  on_disconnect-IsWorld = elim (Bool-cases (session_of uid shut_world).logged_in) [
    | inr e ↦
        rw (e, on_disconnect)
          (IsWorld-Steady n shut_world offline_world (shut_guest-IsWorld e) offline-Steady)
    | inl e ↦
        let k = (session_of uid shut_world).login_uid in
        let start : World S = record shut_world { online = erase k w.online } in
        let same : Steady start (broadcast_online env k false erased_world) = record {
          same_online = erased-Steady.same_online ∙ ap (erase k) offline-Steady.same_online;
          same_seq = erased-Steady.same_seq ∙ offline-Steady.same_seq;
          same_tags = erased-Steady.same_tags ∙ offline-Steady.same_tags;
          orderly = erased-Steady.orderly;
          queued = erased-Steady.queued;
          apart = erased-Steady.apart;
        } in
        rw (e, on_disconnect) (IsWorld-Steady n start _ shut_user-IsWorld same)
  ]

  pub close-IsWorld : IsWorld n (close env uid w)
  unfolding close
  close-IsWorld = elim (Bool-cases (session_of uid w).closed) [
    | inl e ↦ rw (e, close) h
    | inr e ↦ rw (e, close) on_disconnect-IsWorld
  ]

pub close_all-IsWorld :
    {S : Type 0} (n : ℕ) (env : Env S) (uids : List ℕ) (w : World S)
    → IsWorld n w
    → IsWorld n (close_all env uids w)
unfolding close_all
close_all-IsWorld n env [] w h = h
close_all-IsWorld n env (uid ∷ uids) w h =
    close_all-IsWorld n env uids (close env uid w) (close-IsWorld n env uid w h)
