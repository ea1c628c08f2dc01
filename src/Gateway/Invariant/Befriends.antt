-- ===== src/Gateway/Invariant/Befriends.antt =====
-- internal/gateway/hub.go, internal/store/store.go: from an invitation to a friendship, by two messages.
use lurkspire.Prelude.{
  ℕ, ◌≤◌, ◌≡◌, refl, sym, ap, ◌∙◌, inl, inr, List, [], ◌∷◌, Option, none, some, true, false, ◌==◌,
  arith, Bool-cases, Option-cases, lookup, nat_key, u32_at, byte_at, put_at, be32-u32, IsU32, IsMap,
  All,
}
use mathlib.Core.Option
use lurkspire.Protocol.Lobby.{encode_uid, decode_uid}
use lurkspire.Protocol.Numbers.{msg_friend_invite, msg_friend_accept}
use lurkspire.Store.Users.{MemStore, StoreError, Returned, returned, failed}
use lurkspire.Store.Friends.{pair_key, Friendships, invite_friend, accept_friend, friend_ids}
use lurkspire.Store.Friends.Changes.{is_in}
use lurkspire.Store.Friends.Answered.{requested, requested-accepted}
use lurkspire.Store.Interface.{mem_store}
use lurkspire.Gateway.State.{Env, World}
use lurkspire.Gateway.Send.{session_of}
use lurkspire.Gateway.Presence.{online_session, send_infos, send_friend_list}
use lurkspire.Gateway.Friends.{
  contains_id, handle_friend_invite, invite, notify_invited, handle_friend_accept, accept_invite,
  refresh_other,
}
use lurkspire.Gateway.Bag.{handle_lobby}
use lurkspire.Gateway.Session.{handle, handle_authed}
use lurkspire.Gateway.Steady.{tag, tags}
use lurkspire.Gateway.Steady.Handlers.{Steady-handle_authed}
use lurkspire.Gateway.Invariant.{IsWorld, Steady-start, lookup-tags}

decode_uid-encode_uid : (id : ℕ) → IsU32 id → decode_uid (encode_uid id) ≡ some id
unfolding decode_uid encode_uid u32_at byte_at put_at
decode_uid-encode_uid id h = ap some (be32-u32 id h)

contains_id-is_in : (x : ℕ) (ys : List ℕ) → contains_id x ys ≡ is_in x ys
contains_id-is_in x [] = refl
contains_id-is_in x (y ∷ ys) = ground (arith, contains_id-is_in x ys)

module _ {S : Type 0} where
  store-send_infos :
      (env : Env S) (uid id : ℕ) (r : Returned StoreError (List ℕ)) (w : World S)
      → (send_infos env uid id r w).store ≡ w.store
  store-send_infos env uid id (returned ids) w = refl
  store-send_infos env uid id (failed e) w = refl

  store-send_friend_list :
      (env : Env S) (uid : ℕ) (w : World S) → (send_friend_list env uid w).store ≡ w.store
  unfolding send_friend_list
  store-send_friend_list env uid w = store-send_infos env uid _ _ w

  store-refresh_other :
      (env : Env S) (o : Option ℕ) (w : World S) → (refresh_other env o w).store ≡ w.store
  store-refresh_other env none w = refl
  store-refresh_other env (some os) w = store-send_friend_list env os w

  store-notify_invited :
      (env : Env S) (id : ℕ) (o : Option ℕ) (w : World S)
      → (notify_invited env id o w).store ≡ w.store
  store-notify_invited env id none w = refl
  store-notify_invited env id (some ts) w = refl

  -- The session is open and logged in as the user.
  abbrev pub IsLoggedIn : ℕ → ℕ → World S → Type 0
  IsLoggedIn uid id w = lookup uid (tags w.sessions) ≡ some (id, (true, false))

  logged_in :
      (uid id : ℕ) (w : World S)
      → IsLoggedIn uid id w
      → ((session_of uid w).logged_in ≡ true) × ((session_of uid w).login_uid ≡ id)
  logged_in uid id w h = elim (Option-cases (lookup uid w.sessions)) [
    | inl e ↦ absurd (ground (arith, lookup-tags uid w.sessions))
    | inr (s, e) ↦
        let t : some (tag s) ≡ some (id, (true, false)) =
          sym (ap (Option.map tag) e) ∙ (sym (lookup-tags uid w.sessions) ∙ h) in
        rw e (ground arith)
  ]

module _ (base : Env MemStore) where
  abbrev env : Env MemStore
  env = record base { store = mem_store }

  module _ (uid id : ℕ) (w : World MemStore) (h : IsLoggedIn uid id w) (other : ℕ)
      (small : IsU32 other) where
    invited :
        (other == id) ≡ false
        → (handle_friend_invite env uid (encode_uid other) w).store.friends
          ≡ requested id other w.store.friends
    unfolding handle_friend_invite invite
    invited n =
        let m : (session_of uid w).login_uid ≡ id = (logged_in uid id w h).1 in
        let step : handle_friend_invite env uid (encode_uid other) w ≡ invite env uid other w =
          rw (decode_uid-encode_uid other small, handle_friend_invite) (rw (m, n) refl) in
        let fs : Friendships = w.store.friends in
        let same = contains_id-is_in other (friend_ids id fs) in
        ap (λ (v : World MemStore). v.store.friends) step
        ∙ elim (Bool-cases (is_in other (friend_ids id fs))) [
          | inl t ↦
              let c : contains_id other (friend_ids id fs) ≡ true = same ∙ t in
              rw (t, m, invite) (rw c refl)
          | inr t ↦
              let c : contains_id other (friend_ids id fs) ≡ false = same ∙ t in
              let v : World MemStore = record w {
                store = record w.store { friends = invite_friend id other fs };
              } in
              rw (t, m, invite)
                (rw c (
                  ap (λ (x : MemStore). x.friends)
                    (store-notify_invited env id (online_session other v) v)))
        ]

    accepted :
        (handle_friend_accept env uid (encode_uid other) w).store.friends
        ≡ accept_friend id other w.store.friends
    unfolding handle_friend_accept accept_invite
    accepted =
        let m : (session_of uid w).login_uid ≡ id = (logged_in uid id w h).1 in
        let v : World MemStore = record w {
          store = record w.store { friends = accept_friend id other w.store.friends };
        } in
        let v' : World MemStore = send_friend_list env uid v in
        let step : handle_friend_accept env uid (encode_uid other) w
            ≡ refresh_other env (online_session other v') v' =
          rw (decode_uid-encode_uid other small, handle_friend_accept)
            (rw (m, accept_invite) refl) in
        ap (λ (x : World MemStore). x.store.friends) step
        ∙ ap (λ (x : MemStore). x.friends)
            (store-refresh_other env (online_session other v') v'
              ∙ store-send_friend_list env uid v)

    handles_invite :
        (now draw seq : ℕ)
        → handle env now draw uid
            (record { msg_id = msg_friend_invite; seq = seq; body = encode_uid other })
            w
          ≡ handle_friend_invite env uid (encode_uid other) w
    unfolding handle handle_authed handle_lobby
    handles_invite now draw seq = rw (logged_in uid id w h).0 refl

    handles_accept :
        (now draw seq : ℕ)
        → handle env now draw uid
            (record { msg_id = msg_friend_accept; seq = seq; body = encode_uid other })
            w
          ≡ handle_friend_accept env uid (encode_uid other) w
    unfolding handle handle_authed handle_lobby
    handles_accept now draw seq = rw (logged_in uid id w h).0 refl

    -- The message leaves every session its user.
    tags-invite :
        (n now draw seq : ℕ)
        → IsWorld n w
        → tags
            (handle env now draw uid
              (record { msg_id = msg_friend_invite; seq = seq; body = encode_uid other })
              w).sessions
          ≡ tags w.sessions
    unfolding handle
    tags-invite n now draw seq k =
        let t =
          Steady-handle_authed w env draw uid msg_friend_invite (encode_uid other) w
            (Steady-start n w k) in
        rw (logged_in uid id w h).0 t.same_tags

  -- In a process that is in order, over the store in memory, with a table of friendships of statuses
  -- 0 and 1: when an open session of one user sends an invitation of another user, and then an open
  -- session of this other user accepts it, each is among the friends of the other, whatever they were
  -- before.
  pub invite-accept :
      (n now draw seq now' draw' seq' ua ub a b : ℕ) (w : World MemStore)
      → IsWorld n w
      → IsMap w.store.friends
      → All (λ p. p.1 ≤ 1) w.store.friends
      → IsLoggedIn ua a w
      → IsLoggedIn ub b w
      → IsU32 a
      → IsU32 b
      → (b == a) ≡ false
      → let w1 =
          handle env now draw ua
            (record { msg_id = msg_friend_invite; seq = seq; body = encode_uid b })
            w in
        let w2 =
          handle env now' draw' ub
            (record { msg_id = msg_friend_accept; seq = seq'; body = encode_uid a })
            w1 in
        (is_in a (friend_ids b w2.store.friends) ≡ true)
        × (is_in b (friend_ids a w2.store.friends) ≡ true)
  invite-accept n now draw seq now' draw' seq' ua ub a b w k map small la lb sa sb ne =
      let w1 : World MemStore =
        handle env now draw ua
          (record { msg_id = msg_friend_invite; seq = seq; body = encode_uid b }) w in
      let w2 : World MemStore =
        handle env now' draw' ub
          (record { msg_id = msg_friend_accept; seq = seq'; body = encode_uid a }) w1 in
      let there : IsLoggedIn ub b w1 =
        ap (lookup ub) (tags-invite ua a w la b sb n now draw seq k) ∙ lb in
      let first : w1.store.friends ≡ requested a b w.store.friends =
        ap (λ (x : World MemStore). x.store.friends) (handles_invite ua a w la b sb now draw seq)
        ∙ invited ua a w la b sb ne in
      let second : w2.store.friends ≡ accept_friend b a (requested a b w.store.friends) =
        ap (λ (x : World MemStore). x.store.friends)
          (handles_accept ub b w1 there a sa now' draw' seq')
        ∙ (accepted ub b w1 there a sa ∙ ap (accept_friend b a) first) in
      let (p, q) = requested-accepted a b w.store.friends map small in rw second (p, q)
