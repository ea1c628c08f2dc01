-- ===== src/Gateway/Session/Guest.antt =====
-- internal/gateway/session.go: what a session can do before it is logged in.
use lurkspire.Prelude.{
  ℕ, ◌≡◌, refl, List, [], ◌∷◌, Option, none, some, Bool, true, false, not, if◌then◌else◌, insert,
  nat_key,
}
use lurkspire.Protocol.Frame.{Frame, encode}
use lurkspire.Protocol.Lobby.{decode_reg, decode_login, decode_reconnect, encode_online_push}
use lurkspire.Protocol.Numbers.{
  msg_heartbeat, lobby_err_bad_input, lobby_err_token, msg_friend_online, msg_friend_list,
  msg_friend_pending_list,
}
use lurkspire.Store.Users.{StoreError, Returned, returned, failed}
use lurkspire.Store.Users.Catalogue.{Text}
use lurkspire.Lobby.{register, login, verify}
use lurkspire.Room.State.{Room}
use lurkspire.Gateway.State.{Env, World, RoomMeta}
use lurkspire.Gateway.Send.{frame, send, send_err, session_of}
use lurkspire.Gateway.Presence.{
  online_session, push_online, broadcast_online, send_infos, send_pending_list, send_friend_list,
  send_bag_list, on_login,
}
use lurkspire.Gateway.Registry.{is_some, send_room_list}
use lurkspire.Gateway.Session.{
  login_error, handle_reg, enter, handle_login, take_token, handle_reconnect, handle,
}

-- Everything about rooms: the manager, the rooms, who is in them, their descriptions, and the
-- goroutines that wait for one.
abbrev pub battle_part :
    {S : Type 0}
    → World S
    → List (Text × ℕ)
      × List (ℕ × Room)
      × ℕ
      × List (ℕ × List ℕ)
      × List (Text × RoomMeta)
      × List (ℕ × Text)
battle_part w = (w.manager, w.rooms, w.next_room, w.room_sessions, w.metas, w.cleanups)

record Untouched {S : Type 0} (start w : World S) : Type 0 where
  same : battle_part w ≡ battle_part start

module _ {S : Type 0} (start : World S) where
  Untouched-if :
      (b : Bool) {v w : World S}
      → Untouched start v
      → Untouched start w
      → Untouched start (if b then v else w)
  Untouched-if true h k = h
  Untouched-if false h k = k

  Untouched-option :
      {A : Type 0} (x : Option A) {v : World S} {f : A → World S}
      → Untouched start v
      → ((a : A) → Untouched start (f a))
      → Untouched start (elim x [ none ↦ v | some a ↦ f a ])
  Untouched-option none h k = h
  Untouched-option (some a) h k = k a

  Untouched-returned :
      {E A : Type 0} (x : Returned E A) {g : E → World S} {f : A → World S}
      → ((e : E) → Untouched start (g e))
      → ((a : A) → Untouched start (f a))
      → Untouched start (elim x [ failed e ↦ g e | returned a ↦ f a ])
  Untouched-returned (failed e) h k = h e
  Untouched-returned (returned a) h k = k a

  Untouched-push_online :
      (fs : List ℕ) (b : List ℕ) (w : World S)
      → Untouched start w
      → Untouched start (push_online fs b w)
  unfolding push_online
  Untouched-push_online [] b w h = h
  Untouched-push_online (f ∷ fs) b w h =
      Untouched-option (online_session f w) (Untouched-push_online fs b w h)
        (λ s. Untouched-push_online fs b (send s b w) (record { same = h.same }))

  Untouched-broadcast_online :
      (env : Env S) (uid : ℕ) (b : Bool) (w : World S)
      → Untouched start w
      → Untouched start (broadcast_online env uid b w)
  unfolding broadcast_online
  Untouched-broadcast_online env uid b w h =
      Untouched-returned (env.store.friend_ids uid w.store) (λ e. h)
        (λ fs. Untouched-push_online fs (frame msg_friend_online (encode_online_push uid b)) w h)

  Untouched-send_infos :
      (env : Env S) (uid id : ℕ) (r : Returned StoreError (List ℕ)) (w : World S)
      → Untouched start w
      → Untouched start (send_infos env uid id r w)
  Untouched-send_infos env uid id (failed e) w h = h
  Untouched-send_infos env uid id (returned ids) w h = record { same = h.same }

  Untouched-on_login :
      (env : Env S) (uid : ℕ) (w : World S)
      → Untouched start w
      → Untouched start (on_login env uid w)
  unfolding on_login send_pending_list send_friend_list send_room_list send_bag_list
  Untouched-on_login env uid w h =
      let login_uid = (session_of uid w).login_uid in
      let v : World S = record w { online = insert login_uid uid w.online } in
      let hv : Untouched start v = record { same = h.same } in
      let b = is_some (online_session login_uid w) in
      let u : World S = if b then v else broadcast_online env login_uid true v in
      let k : Untouched start u =
        Untouched-if b hv (Untouched-broadcast_online env login_uid true v hv) in
      let pending = env.store.pending_friend_ids (session_of uid u).login_uid u.store in
      let u2 : World S = send_infos env uid msg_friend_pending_list pending u in
      let ids = env.store.friend_ids (session_of uid u2).login_uid u2.store in
      let last =
        Untouched-send_infos env uid msg_friend_list ids u2
          (Untouched-send_infos env uid msg_friend_pending_list pending u k) in
      record { same = last.same }

  Untouched-enter :
      (env : Env S) (uid : ℕ) (token : Text) (id : ℕ) (w : World S)
      → Untouched start w
      → Untouched start (enter env uid token id w)
  unfolding enter
  Untouched-enter env uid token id w h = Untouched-on_login env uid _ (record { same = h.same })

module _ {S : Type 0} (env : Env S) (now draw uid : ℕ) (w : World S) where
  -- Where the world is only sent something, or its store is another.
  here : Untouched w w
  here = record { same = refl }

  refused : (err_code : ℕ) → Untouched w (send_err uid err_code w)
  refused err_code = record { same = refl }

  beaten :
      (seq : ℕ)
      → Untouched w (send uid (encode (record { msg_id = msg_heartbeat; seq = seq; body = [] })) w)
  beaten seq = record { same = refl }

  Untouched-handle_reg : (body : List ℕ) → Untouched w (handle_reg env draw uid body w)
  unfolding handle_reg
  Untouched-handle_reg body =
      Untouched-option w (decode_reg body) (refused lobby_err_bad_input) (λ apn.
        Untouched-returned w
          (register env.store env.crypto env.secret draw apn.0 apn.1 apn.2 w.store).0
          (λ e. record { same = refl }) (λ id. record { same = refl }))

  Untouched-handle_login : (body : List ℕ) → Untouched w (handle_login env now uid body w)
  unfolding handle_login
  Untouched-handle_login body = Untouched-if w _ (refused lobby_err_bad_input) (
      Untouched-option w (decode_login body) (refused lobby_err_bad_input) (λ ap.
        Untouched-returned w (login env.store env.crypto env.secret now ap.0 ap.1 w.store)
          (λ e. refused (login_error e)) (λ token. Untouched-enter w env uid token _ w here)))

  Untouched-handle_reconnect : (body : List ℕ) → Untouched w (handle_reconnect env now uid body w)
  unfolding handle_reconnect take_token
  Untouched-handle_reconnect body = Untouched-if w _ (refused lobby_err_bad_input) (
      Untouched-option w (decode_reconnect body) (refused lobby_err_bad_input) (λ token.
        Untouched-if w _ (refused lobby_err_bad_input) (
          Untouched-returned w (verify env.store env.crypto env.secret now token w.store)
            (λ e. refused lobby_err_token) (λ id. Untouched-enter w env uid token id w here))))

  Untouched-guard :
      (b : Bool) (u : World S) {v : World S}
      → b ≡ false
      → Untouched w v
      → Untouched w (if not b then v else u)
  Untouched-guard true u e k = cc
  Untouched-guard false u e k = k

  -- A frame of a session that is not logged in, whatever it is, changes nothing about rooms: not the
  -- rooms, their players, their sessions or their descriptions.
  pub handle_guest :
      (f : Frame)
      → (session_of uid w).logged_in ≡ false
      → battle_part (handle env now draw uid f w) ≡ battle_part w
  unfolding handle
  handle_guest f guest =
      (Untouched-if w _ (beaten f.seq) (
        Untouched-if w _ (Untouched-handle_reg f.body) (
          Untouched-if w _ (Untouched-handle_login f.body) (
            Untouched-if w _ (Untouched-handle_reconnect f.body)
              (Untouched-guard _ _ guest (refused lobby_err_token)))))).same
