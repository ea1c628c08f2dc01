-- ===== src/Gateway/Steady/Handlers.antt =====
-- internal/gateway/hub.go, session.go: the handlers of the lobby's messages, and of every message
-- after the login.
use lurkspire.Prelude.{ℕ, List, [], Option, none, some, refl, nat_key}
use lurkspire.Protocol.Lobby.{decode_room_op, decode_uid, decode_bag_equip, decode_reg}
use lurkspire.Protocol.Battle.{decode_input}
use lurkspire.Protocol.Numbers.{
  lobby_err_bad_input, lobby_err_not_friend, lobby_err_self, lobby_err_equip, msg_room_leave,
}
use lurkspire.Store.Users.{User, Returned, returned, failed}
use lurkspire.Lobby.{LobbyError, search_by_nickname, register}
use lurkspire.Room.State.{inputs, equips}
use lurkspire.Gateway.State.{Env, World}
use lurkspire.Gateway.Send.{frame, session_of}
use lurkspire.Gateway.Presence.{online_session, send_friend_list}
use lurkspire.Gateway.Battle.{bonus_of}
use lurkspire.Gateway.Friends.{
  found, handle_friend_search, notify_invited, invite, handle_friend_invite, refresh_other,
  accept_invite, handle_friend_accept, handle_friend_reject,
}
use lurkspire.Gateway.Bag.{equip_in_room, put_on, handle_bag_equip, handle_lobby}
use lurkspire.Gateway.Session.{reg_error, handle_reg, handle_authed}
use lurkspire.Gateway.Steady.{
  Steady, Steady-if, Steady-option, Steady-returned, Steady-send, Steady-put_rooms,
}
use lurkspire.Gateway.Steady.Rooms.{Steady-room_call}
use lurkspire.Gateway.Steady.Lists.{
  Steady-send_friend_list, Steady-send_bag_list, Steady-send_room_list,
}
use lurkspire.Gateway.Steady.Battle.{
  Steady-send_err, Steady-leave, Steady-handle_room_create, Steady-handle_room_join,
  Steady-handle_battle_join,
}

module _ {S : Type 0} (start : World S) where
  Steady-put_store : (s : S) (w : World S) → Steady start w → Steady start (record w { store = s })
  Steady-put_store s w h = Steady-put_rooms start w _ refl refl refl refl (λ a. a) h

  Steady-found :
      (uid : ℕ) (r : Returned LobbyError User) (w : World S)
      → Steady start w
      → Steady start (found uid r w)
  Steady-found uid (failed e) w h = Steady-send_err start uid lobby_err_not_friend w h
  Steady-found uid (returned u) w h =
      Steady-if start _ (Steady-send_err start uid lobby_err_self w h) (Steady-send start uid _ w h)

  Steady-handle_friend_search :
      (env : Env S) (uid : ℕ) (body : List ℕ) (w : World S)
      → Steady start w
      → Steady start (handle_friend_search env uid body w)
  unfolding handle_friend_search
  Steady-handle_friend_search env uid body w h =
      let bad = Steady-send_err start uid lobby_err_bad_input w h in
      Steady-option start (decode_room_op body) bad (λ nn.
        Steady-if start _ bad
          (Steady-found uid (search_by_nickname env.store env.crypto env.secret nn.0 w.store) w h))

  Steady-notify_invited :
      (env : Env S) (login_uid : ℕ) (x : Option ℕ) (w : World S)
      → Steady start w
      → Steady start (notify_invited env login_uid x w)
  Steady-notify_invited env login_uid none w h = h
  Steady-notify_invited env login_uid (some ts) w h = Steady-send start ts _ w h

  Steady-invite :
      (env : Env S) (uid target : ℕ) (w : World S)
      → Steady start w
      → Steady start (invite env uid target w)
  unfolding invite
  Steady-invite env uid target w h =
      let login_uid = (session_of uid w).login_uid in
      let answer = env.store.invite_friend login_uid target w.store in
      let v : World S = record w { store = answer.1 } in
      let k : Steady start v = Steady-put_store answer.1 w h in
      Steady-if start _ (Steady-send_err start uid lobby_err_not_friend w h) (
        Steady-returned start answer.0 (λ e. Steady-send_err start uid lobby_err_bad_input v k)
          (λ u. Steady-notify_invited env login_uid (online_session target v) v k))

  Steady-handle_friend_invite :
      (env : Env S) (uid : ℕ) (body : List ℕ) (w : World S)
      → Steady start w
      → Steady start (handle_friend_invite env uid body w)
  unfolding handle_friend_invite
  Steady-handle_friend_invite env uid body w h =
      let bad = Steady-send_err start uid lobby_err_self w h in
      Steady-option start (decode_uid body) bad
        (λ target. Steady-if start _ bad (Steady-invite env uid target w h))

  Steady-refresh_other :
      (env : Env S) (x : Option ℕ) (w : World S)
      → Steady start w
      → Steady start (refresh_other env x w)
  Steady-refresh_other env none w h = h
  Steady-refresh_other env (some os) w h = Steady-send_friend_list start env os w h

  Steady-handle_friend_accept :
      (env : Env S) (uid : ℕ) (body : List ℕ) (w : World S)
      → Steady start w
      → Steady start (handle_friend_accept env uid body w)
  unfolding handle_friend_accept accept_invite
  Steady-handle_friend_accept env uid body w h =
      Steady-option start (decode_uid body) (Steady-send_err start uid lobby_err_bad_input w h)
        (λ other.
          let answer = env.store.accept_friend (session_of uid w).login_uid other w.store in
          let v : World S = record w { store = answer.1 } in
          let k : Steady start v = Steady-put_store answer.1 w h in
          Steady-returned start answer.0 (λ e. Steady-send_err start uid lobby_err_bad_input v k)
            (λ u.
              Steady-refresh_other env (online_session other (send_friend_list env uid v)) _
                (Steady-send_friend_list start env uid v k)))

  Steady-handle_friend_reject :
      (env : Env S) (uid : ℕ) (body : List ℕ) (w : World S)
      → Steady start w
      → Steady start (handle_friend_reject env uid body w)
  unfolding handle_friend_reject
  Steady-handle_friend_reject env uid body w h =
      Steady-option start (decode_uid body) h (λ other. Steady-put_store _ w h)

  Steady-equip_in_room :
      (env : Env S) (login_uid equip : ℕ) (x : Option ℕ) (w : World S)
      → Steady start w
      → Steady start (equip_in_room env login_uid equip x w)
  Steady-equip_in_room env login_uid equip none w h = h
  Steady-equip_in_room env login_uid equip (some r) w h =
      Steady-room_call start env r
        (equips login_uid (bonus_of (env.store.get_equipment equip w.store))) w h

  Steady-put_on :
      (env : Env S) (uid equip : ℕ) (w : World S)
      → Steady start w
      → Steady start (put_on env uid equip w)
  unfolding put_on
  Steady-put_on env uid equip w h =
      let login_uid = (session_of uid w).login_uid in
      let answer = env.store.set_equip login_uid equip w.store in
      let v : World S = record w { store = answer.1 } in
      let k : Steady start v = Steady-put_store answer.1 w h in
      Steady-returned start answer.0 (λ e. Steady-send_err start uid lobby_err_bad_input v k)
        (λ u.
          Steady-send_bag_list start env uid _
            (Steady-equip_in_room env login_uid equip (session_of uid v).room v k))

  Steady-handle_bag_equip :
      (env : Env S) (uid : ℕ) (body : List ℕ) (w : World S)
      → Steady start w
      → Steady start (handle_bag_equip env uid body w)
  unfolding handle_bag_equip
  Steady-handle_bag_equip env uid body w h =
      let bad = Steady-send_err start uid lobby_err_equip w h in
      Steady-option start (decode_bag_equip body) bad (λ equip.
        Steady-returned start (env.store.get_equipment equip w.store) (λ e. bad)
          (λ e. Steady-put_on env uid equip w h))

  Steady-handle_lobby :
      (env : Env S) (draw uid id : ℕ) (body : List ℕ) (w : World S)
      → Steady start w
      → Steady start (handle_lobby env draw uid id body w)
  unfolding handle_lobby
  Steady-handle_lobby env draw uid id body w h =
      Steady-if start _ (Steady-handle_friend_search env uid body w h) (
        Steady-if start _ (Steady-handle_friend_invite env uid body w h) (
          Steady-if start _ (Steady-handle_friend_accept env uid body w h) (
            Steady-if start _ (Steady-handle_friend_reject env uid body w h) (
              Steady-if start _ (Steady-send_friend_list start env uid w h) (
                Steady-if start _ (Steady-send_room_list start env uid w h) (
                  Steady-if start _ (Steady-handle_room_create start env draw uid body w h) (
                    Steady-if start _ (Steady-handle_room_join start env draw uid body w h) (
                      Steady-if start _ (Steady-send_bag_list start env uid w h)
                        (Steady-if start _ (Steady-handle_bag_equip env uid body w h) h)))))))))

  -- A frame after the login, whatever it is, makes, closes and logs in no session, and takes nobody
  -- online or offline; where rooms, their names in the manager and the list, and queues are in order,
  -- it leaves them so.
  pub Steady-handle_authed :
      (env : Env S) (draw uid id : ℕ) (body : List ℕ) (w : World S)
      → Steady start w
      → Steady start (handle_authed env draw uid id body w)
  unfolding handle_authed
  Steady-handle_authed env draw uid id body w h =
      Steady-if start _ (Steady-handle_battle_join start env draw uid body w h) (
        Steady-if start _
          (Steady-option start (session_of uid w).room h (λ r.
            Steady-room_call start env r (inputs (session_of uid w).login_uid (decode_input body)) w
              h))
          (Steady-if start _
            (Steady-send start uid (frame msg_room_leave []) _ (Steady-leave start env uid w h))
            (Steady-handle_lobby env draw uid id body w h)))

  pub Steady-handle_reg :
      (env : Env S) (draw uid : ℕ) (body : List ℕ) (w : World S)
      → Steady start w
      → Steady start (handle_reg env draw uid body w)
  unfolding handle_reg
  Steady-handle_reg env draw uid body w h =
      Steady-option start (decode_reg body) (Steady-send_err start uid lobby_err_bad_input w h)
        (λ apn.
          let answer = register env.store env.crypto env.secret draw apn.0 apn.1 apn.2 w.store in
          let v : World S = record w { store = answer.1 } in
          let k : Steady start v = Steady-put_store answer.1 w h in
          Steady-returned start answer.0 (λ e. Steady-send_err start uid (reg_error e) v k)
            (λ id. Steady-send start uid _ v k))
