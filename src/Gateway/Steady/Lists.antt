-- ===== src/Gateway/Steady/Lists.antt =====
-- internal/gateway/hub.go, rooms.go: the lists and notices that sessions are sent.
use lurkspire.Prelude.{ℕ, List, [], ◌∷◌, Bool, map, nat_key}
use lurkspire.Store.Users.{StoreError, Returned, returned, failed}
use lurkspire.Protocol.Lobby.{encode_online_push, encode_friend_list}
use lurkspire.Protocol.Numbers.{
  msg_friend_online, msg_friend_list, msg_friend_pending_list, msg_room_list,
}
use lurkspire.Gateway.State.{Env, World}
use lurkspire.Gateway.Send.{frame, send, session_of}
use lurkspire.Gateway.Registry.{room_list_body, broadcast_room_list, send_room_list}
use lurkspire.Gateway.Presence.{
  online_session, push_online, broadcast_online, friend_infos, send_infos, send_pending_list,
  send_friend_list, send_bag_list,
}
use lurkspire.Gateway.Steady.{Steady, Steady-option, Steady-returned, Steady-send, Steady-send_all}

module _ {S : Type 0} (start : World S) where
  pub Steady-push_online :
      (fs : List ℕ) (b : List ℕ) (w : World S) → Steady start w → Steady start (push_online fs b w)
  unfolding push_online
  Steady-push_online [] b w h = h
  Steady-push_online (f ∷ fs) b w h =
      Steady-option start (online_session f w) (Steady-push_online fs b w h)
        (λ s. Steady-push_online fs b (send s b w) (Steady-send start s b w h))

  pub Steady-broadcast_online :
      (env : Env S) (uid : ℕ) (b : Bool) (w : World S)
      → Steady start w
      → Steady start (broadcast_online env uid b w)
  unfolding broadcast_online
  Steady-broadcast_online env uid b w h =
      Steady-returned start (env.store.friend_ids uid w.store) (λ e. h)
        (λ fs. Steady-push_online fs (frame msg_friend_online (encode_online_push uid b)) w h)

  Steady-send_infos :
      (env : Env S) (uid id : ℕ) (r : Returned StoreError (List ℕ)) (w : World S)
      → Steady start w
      → Steady start (send_infos env uid id r w)
  Steady-send_infos env uid id (failed e) w h = h
  Steady-send_infos env uid id (returned ids) w h =
      Steady-send start uid (frame id (encode_friend_list (friend_infos env ids w))) w h

  pub Steady-send_pending_list :
      (env : Env S) (uid : ℕ) (w : World S)
      → Steady start w
      → Steady start (send_pending_list env uid w)
  unfolding send_pending_list
  Steady-send_pending_list env uid w h =
      Steady-send_infos env uid msg_friend_pending_list
        (env.store.pending_friend_ids (session_of uid w).login_uid w.store) w h

  pub Steady-send_friend_list :
      (env : Env S) (uid : ℕ) (w : World S)
      → Steady start w
      → Steady start (send_friend_list env uid w)
  unfolding send_friend_list
  Steady-send_friend_list env uid w h =
      Steady-send_infos env uid msg_friend_list
        (env.store.friend_ids (session_of uid w).login_uid w.store) w h

  pub Steady-send_bag_list :
      (env : Env S) (uid : ℕ) (w : World S)
      → Steady start w
      → Steady start (send_bag_list env uid w)
  unfolding send_bag_list
  Steady-send_bag_list env uid w h = Steady-send start uid _ w h

  pub Steady-send_room_list :
      (env : Env S) (uid : ℕ) (w : World S)
      → Steady start w
      → Steady start (send_room_list env uid w)
  unfolding send_room_list
  Steady-send_room_list env uid w h =
      Steady-send start uid (frame msg_room_list (room_list_body env w)) w h

  pub Steady-broadcast_room_list :
      (env : Env S) (w : World S) → Steady start w → Steady start (broadcast_room_list env w)
  unfolding broadcast_room_list
  Steady-broadcast_room_list env w h =
      Steady-send_all start (map (λ entry. entry.1) w.online)
        (frame msg_room_list (room_list_body env w)) w h
