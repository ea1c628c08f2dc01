-- ===== src/Gateway/Bag.antt =====
-- internal/gateway/hub.go: equipment, and the dispatch of the lobby's messages.
use lurkspire.Prelude.{ℕ, List, Option, none, some, if◌then◌else◌, ◌==◌}
use lurkspire.Protocol.Lobby.{decode_bag_equip}
use lurkspire.Protocol.Numbers.{
  lobby_err_bad_input, lobby_err_equip, msg_friend_search, msg_friend_invite, msg_friend_accept,
  msg_friend_reject, msg_friend_list, msg_room_list, msg_room_create, msg_room_join, msg_bag_list,
  msg_bag_equip,
}
use lurkspire.Store.Users.{returned, failed}
use lurkspire.Room.State.{equips}
use lurkspire.Lobby.{equipment, set_equip}
use lurkspire.Gateway.State.{Env, World}
use lurkspire.Gateway.Send.{send_err, session_of}
use lurkspire.Gateway.Registry.{send_room_list}
use lurkspire.Gateway.Presence.{send_friend_list, send_bag_list}
use lurkspire.Gateway.Battle.{room_call, bonus_of}
use lurkspire.Gateway.Battle.Enter.{handle_room_create, handle_room_join}
use lurkspire.Gateway.Friends.{
  handle_friend_search, handle_friend_invite, handle_friend_accept, handle_friend_reject,
}

module _ {S : Type 0} where
  -- `if r := s.room(); r != nil { r.SetPlayerEquip(s.LoginUID, h.blockBonus(equip)) }`
  abbrev pub equip_in_room : Env S → ℕ → ℕ → Option ℕ → World S → World S
  equip_in_room env login_uid equip none w = w
  equip_in_room env login_uid equip (some h) w =
      (room_call env h (equips login_uid (bonus_of (equipment env.store equip w.store))) w).0

  -- `handleBagEquip` with an equipment that the catalogue has.
  unfoldable pub put_on : Env S → ℕ → ℕ → World S → World S
  unfolding room_call send_bag_list
  put_on env uid equip w =
      let login_uid = (session_of uid w).login_uid in
      let (r, s) = set_equip env.store login_uid equip w.store in
      let w = record w { store = s } in
      elim r [
        | failed e ↦ send_err uid lobby_err_bad_input w
        | returned u ↦
            send_bag_list env uid (equip_in_room env login_uid equip (session_of uid w).room w)
      ]

  -- `handleBagEquip`
  unfoldable pub handle_bag_equip : Env S → ℕ → List ℕ → World S → World S
  unfolding put_on
  handle_bag_equip env uid body w = elim (decode_bag_equip body) [
    | none ↦ send_err uid lobby_err_equip w
    | some equip ↦ elim (equipment env.store equip w.store) [
      | failed e ↦ send_err uid lobby_err_equip w
      | returned e ↦ put_on env uid equip w
    ]
  ]

  -- `HandleLobby`
  unfoldable pub handle_lobby : Env S → ℕ → ℕ → ℕ → List ℕ → World S → World S
  unfolding handle_friend_search handle_friend_invite handle_friend_accept handle_friend_reject
      send_friend_list send_room_list handle_room_create handle_room_join send_bag_list
      handle_bag_equip
  handle_lobby env draw uid msg_id body w =
      if msg_id == msg_friend_search
      then handle_friend_search env uid body w
      else if msg_id == msg_friend_invite
      then handle_friend_invite env uid body w
      else if msg_id == msg_friend_accept
      then handle_friend_accept env uid body w
      else if msg_id == msg_friend_reject
      then handle_friend_reject env uid body w
      else if msg_id == msg_friend_list
      then send_friend_list env uid w
      else if msg_id == msg_room_list
      then send_room_list env uid w
      else if msg_id == msg_room_create
      then handle_room_create env draw uid body w
      else if msg_id == msg_room_join
      then handle_room_join env draw uid body w
      else if msg_id == msg_bag_list
      then send_bag_list env uid w
      else if msg_id == msg_bag_equip
      then handle_bag_equip env uid body w
      else w
