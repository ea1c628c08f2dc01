-- ===== src/Gateway/Presence.antt =====
-- internal/gateway/hub.go: who is online, and the lists that a session gets when it logs in.
use lurkspire.Prelude.{
  ℕ, List, [], ◌∷◌, Option, none, some, Bool, true, if◌then◌else◌, map, lookup, insert, nat_key,
}
use lurkspire.Store.Users.{StoreError, Returned, returned, failed}
use lurkspire.Lobby.{equip_id}
use lurkspire.Store.Users.Catalogue.{Equipment}
use lurkspire.Protocol.Lobby.{
  FriendInfo, BagItem, encode_online_push, encode_friend_list, encode_bag_list,
}
use lurkspire.Protocol.Items.{bag_items}
use lurkspire.Protocol.Numbers.{
  msg_friend_online, msg_friend_pending_list, msg_friend_list, msg_bag_list,
}
use lurkspire.Lobby.{equipments, friend_ids, pending_friend_ids}
use lurkspire.Gateway.State.{Env, World}
use lurkspire.Gateway.Send.{frame, send, session_of}
use lurkspire.Gateway.Registry.{is_some, nick_of, send_room_list}

abbrev pub bag_item : Equipment → BagItem
bag_item e = record { id = e.id; name = e.name; desc = e.description }

-- The items of `SendBagList`: the catalogue of the store, or the built-in one.
abbrev pub bag_items_of : Returned StoreError (List Equipment) → List BagItem
bag_items_of (failed e) = bag_items
bag_items_of (returned []) = bag_items
bag_items_of (returned (e ∷ es)) = map bag_item (e ∷ es)

abbrev pub number_or_zero : {E : Type 0} → Returned E ℕ → ℕ
number_or_zero (returned n) = n
number_or_zero (failed e) = 0

module _ {S : Type 0} where
  -- `sessionOf`
  abbrev pub online_session : ℕ → World S → Option ℕ
  online_session uid w = lookup uid w.online

  -- The loop of `broadcastOnline` over the friends.
  unfoldable pub push_online : List ℕ → List ℕ → World S → World S
  push_online [] b w = w
  push_online (f ∷ fs) b w = elim (online_session f w) [
    | none ↦ push_online fs b w
    | some s ↦ push_online fs b (send s b w)
  ]

  -- `broadcastOnline`
  unfoldable pub broadcast_online : Env S → ℕ → Bool → World S → World S
  broadcast_online env uid online w = elim (friend_ids env.store uid w.store) [
    | failed e ↦ w
    | returned friends ↦
        push_online friends (frame msg_friend_online (encode_online_push uid online)) w
  ]

  -- The loops of `SendPendingList` and `SendFriendList`.
  unfoldable pub friend_infos : Env S → List ℕ → World S → List FriendInfo
  friend_infos env [] w = []
  friend_infos env (f ∷ fs) w =
      let rest = friend_infos env fs w in
      elim (nick_of env f w) [
        | failed e ↦ rest
        | returned nick ↦
            record { uid = f; nickname = nick; online = is_some (online_session f w) } ∷ rest
      ]

  abbrev pub send_infos : Env S → ℕ → ℕ → Returned StoreError (List ℕ) → World S → World S
  send_infos env uid msg_id (failed e) w = w
  send_infos env uid msg_id (returned ids) w =
      send uid (frame msg_id (encode_friend_list (friend_infos env ids w))) w

  -- `SendPendingList`
  unfoldable pub send_pending_list : Env S → ℕ → World S → World S
  unfolding friend_infos
  send_pending_list env uid w =
      send_infos env uid msg_friend_pending_list
        (pending_friend_ids env.store (session_of uid w).login_uid w.store) w

  -- `SendFriendList`
  unfoldable pub send_friend_list : Env S → ℕ → World S → World S
  unfolding friend_infos
  send_friend_list env uid w =
      send_infos env uid msg_friend_list (friend_ids env.store (session_of uid w).login_uid w.store)
        w

  -- `SendBagList`
  unfoldable pub send_bag_list : Env S → ℕ → World S → World S
  send_bag_list env uid w =
      let cur =
        number_or_zero
          (equip_id env.store env.crypto env.secret (session_of uid w).login_uid w.store) in
      let items = bag_items_of (equipments env.store w.store) in
      send uid (frame msg_bag_list (encode_bag_list cur items)) w

  -- `OnLogin`
  unfoldable pub on_login : Env S → ℕ → World S → World S
  unfolding broadcast_online send_pending_list send_friend_list send_room_list send_bag_list
  on_login env uid w =
      let login_uid = (session_of uid w).login_uid in
      let known = is_some (online_session login_uid w) in
      let w = record w { online = insert login_uid uid w.online } in
      let w = if known then w else broadcast_online env login_uid true w in
      send_bag_list env uid
        (send_room_list env uid (send_friend_list env uid (send_pending_list env uid w)))
