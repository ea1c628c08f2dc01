-- ===== src/Gateway/Invariant/Login.antt =====
-- internal/gateway/session.go, hub.go: the frames of a session, before and after its login.
use lurkspire.Prelude.{
  ℕ, ◌≡◌, refl, sym, ap, ◌∙◌, inl, inr, List, [], Option, none, some, Bool, true, false, arith,
  All-modify, All-insert, if◌then◌else◌, Option-cases, lookup, insert, modify, nat_key,
  lookup-modify, lookup-insert, insert-IsMap, ==_iff,
}
use lurkspire.Protocol.Frame.{Frame, encode}
use lurkspire.Protocol.Lobby.{decode_login, decode_reconnect, encode_login_resp}
use lurkspire.Protocol.Numbers.{
  lobby_ok, lobby_err_bad_input, lobby_err_token, msg_heartbeat, msg_login_resp,
}
use lurkspire.Store.Users.{Returned, returned, failed}
use lurkspire.Store.Users.Catalogue.{Text}
use lurkspire.Lobby.{login, verify}
use lurkspire.Gateway.State.{Env, Session, World}
use lurkspire.Gateway.Send.{frame, send, send_err, session_of, session_or}
use lurkspire.Gateway.Registry.{is_some, text_or_empty, nick_of}
use lurkspire.Gateway.Presence.{online_session, on_login}
use lurkspire.Gateway.Session.{
  login_error, identify, enter, handle_login, take_token, handle_reconnect, handle,
}
use lurkspire.Gateway.Steady.{Steady, Steady-if, Steady-send, tags, IsQueued}
use lurkspire.Gateway.Steady.Lists.{
  Steady-broadcast_online, Steady-send_pending_list, Steady-send_friend_list, Steady-send_room_list,
  Steady-send_bag_list,
}
use lurkspire.Gateway.Steady.Handlers.{Steady-handle_reg, Steady-handle_authed}
use lurkspire.Gateway.Invariant.{
  IsWorld, IsOnline, IsBelow, IsWorld-Steady, Steady-start, lookup-tags, tags-modify_with,
  IsOnline-modify,
}

module _ {S : Type 0} (n : ℕ) where
  pub IsWorld-if :
      (b : Bool) {v w : World S}
      → IsWorld n v
      → (b ≡ false → IsWorld n w)
      → IsWorld n (if b then v else w)
  IsWorld-if true h k = h
  IsWorld-if false h k = k refl

  pub IsWorld-choice :
      (b : Bool) {v w : World S} → IsWorld n v → IsWorld n w → IsWorld n (if b then v else w)
  IsWorld-choice true h k = h
  IsWorld-choice false h k = k

  pub IsWorld-option :
      {A : Type 0} (x : Option A) {v : World S} {f : A → World S}
      → IsWorld n v
      → ((a : A) → IsWorld n (f a))
      → IsWorld n (elim x [ none ↦ v | some a ↦ f a ])
  IsWorld-option none h k = h
  IsWorld-option (some a) h k = k a

  IsWorld-returned :
      {E A : Type 0} (x : Returned E A) {g : E → World S} {f : A → World S}
      → ((e : E) → IsWorld n (g e))
      → ((a : A) → IsWorld n (f a))
      → IsWorld n (elim x [ failed e ↦ g e | returned a ↦ f a ])
  IsWorld-returned (failed e) h k = h e
  IsWorld-returned (returned a) h k = k a

  pub IsWorld-send : (uid : ℕ) (b : List ℕ) (w : World S) → IsWorld n w → IsWorld n (send uid b w)
  IsWorld-send uid b w h = IsWorld-Steady n w _ h (Steady-send w uid b w (Steady-start n w h))

  -- `OnLogin` for a session that has its user: after the entry is made, lists and notices are sent.
  pub Steady-on_login :
      (env : Env S) (uid id : ℕ) (w : World S)
      → IsWorld n w
      → lookup uid (tags w.sessions) ≡ some (id, (true, false))
      → Steady (record w { online = insert id uid w.online }) (on_login env uid w)
  unfolding on_login
  Steady-on_login env uid id w h e =
      let login_uid = (session_of uid w).login_uid in
      let mine : login_uid ≡ id = elim (Option-cases (lookup uid w.sessions)) [
        | inl q ↦ absurd (ground (arith, lookup-tags uid w.sessions))
        | inr (s, q) ↦ rw q (ground (arith, lookup-tags uid w.sessions))
      ] in
      let v : World S = record w { online = insert login_uid uid w.online } in
      let k : Steady v v = record {
        same_online = refl;
        same_seq = refl;
        same_tags = refl;
        orderly = h.orderly;
        queued = h.queued;
        apart = h.apart;
      } in
      let b = is_some (online_session login_uid w) in
      let k2 = Steady-if v b k (Steady-broadcast_online v env login_uid true v k) in
      let last = Steady-send_bag_list v env uid _ (
        Steady-send_room_list v env uid _
          (Steady-send_friend_list v env uid _ (Steady-send_pending_list v env uid _ k2))) in
      record {
        same_online = last.same_online ∙ ap (λ k. insert k uid w.online) mine;
        same_seq = last.same_seq;
        same_tags = last.same_tags;
        orderly = last.orderly;
        queued = last.queued;
        apart = last.apart;
      }

  on_login-IsWorld :
      (env : Env S) (uid id : ℕ) (w : World S)
      → IsWorld n w
      → lookup uid (tags w.sessions) ≡ some (id, (true, false))
      → IsWorld n (on_login env uid w)
  on_login-IsWorld env uid id w h e =
      let hv : IsWorld n (record w { online = insert id uid w.online }) = record {
        some_sessions = h.some_sessions;
        numbered = h.numbered;
        distinct = insert-IsMap id uid w.online h.distinct;
        online =
            All-insert (IsOnline (tags w.sessions)) id uid w.online h.online
              (λ j q. ground (arith, e, q));
        orderly = h.orderly;
        queued = h.queued;
        apart = h.apart;
      } in
      IsWorld-Steady n _ _ hv (Steady-on_login env uid id w h e)

  -- The world in which a session has taken the identity of a user and has its answer.
  module _ (env : Env S) (uid : ℕ) (token : Text) (id : ℕ) (s : Session) (w : World S)
      (h : IsWorld n w) (e : lookup uid w.sessions ≡ some s) (guest : s.logged_in ≡ false)
      (opened : s.closed ≡ false) where
    abbrev own : ℕ × (Bool × Bool) → ℕ × (Bool × Bool)
    own t = (id, (true, t.1.1))

    abbrev named : World S
    named = record w {
      sessions = modify uid (identify id (text_or_empty (nick_of env id w))) w.sessions;
    }

    old_tag : lookup uid (tags w.sessions) ≡ some (s.login_uid, (false, false))
    old_tag = ground (arith, lookup-tags uid w.sessions, guest, opened, e)

    named_tags : tags named.sessions ≡ modify uid own (tags w.sessions)
    named_tags =
        tags-modify_with uid (identify id (text_or_empty (nick_of env id w))) own w.sessions
          (λ s. refl)

    named-IsWorld : IsWorld n named
    named-IsWorld = record {
      some_sessions = h.some_sessions;
      numbered =
          rw named_tags
            (All-modify (IsBelow w.seq) uid own (tags w.sessions) h.numbered (λ t k. k));
      distinct = h.distinct;
      online = rw named_tags (
          IsOnline-modify uid own (tags w.sessions) w.online
            (λ k q. absurd (ground (arith, old_tag, q))) h.online);
      orderly = h.orderly;
      queued =
          All-modify IsQueued uid (identify id (text_or_empty (nick_of env id w))) w.sessions
            h.queued (λ s k. k);
      apart = h.apart;
    }

    abbrev answered : World S
    answered =
        let nick = text_or_empty (nick_of env id w) in
        send uid (frame msg_login_resp (encode_login_resp lobby_ok token id nick)) named

    answered-Steady : Steady named answered
    answered-Steady = Steady-send named uid _ named (Steady-start n named named-IsWorld)

    answered-IsWorld : IsWorld n answered
    answered-IsWorld = IsWorld-Steady n named answered named-IsWorld answered-Steady

    new_tag : lookup uid (tags answered.sessions) ≡ some (id, (true, false))
    new_tag =
        let made : lookup uid (tags named.sessions) ≡ some (id, (true, false)) =
          rw named_tags (
            ground (arith, lookup-modify uid uid own (tags w.sessions), old_tag, ==_iff uid uid)) in
        ap (lookup uid) answered-Steady.same_tags ∙ made

    enter-IsWorld : IsWorld n (enter env uid token id w)
    unfolding enter
    enter-IsWorld = on_login-IsWorld env uid id answered answered-IsWorld new_tag

    -- The session is logged in as the user, and the user is online with it.
    pub enter_entered :
        (lookup uid (tags (enter env uid token id w).sessions) ≡ some (id, (true, false)))
        × (lookup id (enter env uid token id w).online ≡ some uid)
    unfolding enter
    enter_entered =
        let k = Steady-on_login env uid id answered answered-IsWorld new_tag in
        (
          ap (lookup uid) k.same_tags ∙ new_tag,
          ap (lookup id) k.same_online
              ∙ (lookup-insert id id uid w.online ∙ ground (arith, ==_iff id id)),
        )

  module _ (env : Env S) (now draw uid : ℕ) (s : Session) (w : World S) (h : IsWorld n w)
      (e : lookup uid w.sessions ≡ some s) (opened : s.closed ≡ false) where
    err-IsWorld : (err_code : ℕ) → IsWorld n (send_err uid err_code w)
    err-IsWorld err_code = IsWorld-send uid _ w h

    guest : (session_of uid w).logged_in ≡ false → s.logged_in ≡ false
    guest q = ap (λ x. (session_or x).logged_in) (sym e) ∙ q

    handle_login-IsWorld : (body : List ℕ) → IsWorld n (handle_login env now uid body w)
    unfolding handle_login
    handle_login-IsWorld body = IsWorld-if _ (err-IsWorld lobby_err_bad_input) (λ q.
        IsWorld-option (decode_login body) (err-IsWorld lobby_err_bad_input) (λ ap.
          IsWorld-returned (login env.store env.crypto env.secret now ap.0 ap.1 w.store)
            (λ x. err-IsWorld (login_error x))
            (λ token. enter-IsWorld env uid token _ s w h e (guest q) opened)))

    handle_reconnect-IsWorld : (body : List ℕ) → IsWorld n (handle_reconnect env now uid body w)
    unfolding handle_reconnect take_token
    handle_reconnect-IsWorld body = IsWorld-if _ (err-IsWorld lobby_err_bad_input) (λ q.
        IsWorld-option (decode_reconnect body) (err-IsWorld lobby_err_bad_input) (λ token.
          IsWorld-if _ (err-IsWorld lobby_err_bad_input) (λ r.
            IsWorld-returned (verify env.store env.crypto env.secret now token w.store)
              (λ x. err-IsWorld lobby_err_token)
              (λ id. enter-IsWorld env uid token id s w h e (guest q) opened))))

    -- `handle`, in every case.
    pub handle-IsWorld : (f : Frame) → IsWorld n (handle env now draw uid f w)
    unfolding handle
    handle-IsWorld f =
        let k : Steady w w = Steady-start n w h in
        let beat = encode (record { msg_id = msg_heartbeat; seq = f.seq; body = [] }) in
        IsWorld-choice _ (IsWorld-send uid beat w h) (
          IsWorld-choice _ (IsWorld-Steady n w _ h (Steady-handle_reg w env draw uid f.body w k)) (
            IsWorld-choice _ (handle_login-IsWorld f.body) (
              IsWorld-choice _ (handle_reconnect-IsWorld f.body) (
                IsWorld-choice _ (err-IsWorld lobby_err_token) (
                  IsWorld-Steady n w _ h
                    (Steady-handle_authed w env draw uid f.msg_id f.body w k))))))
