-- ===== src/Gateway/Battle/Enter.antt =====
-- internal/gateway/hub.go: into a room, by its creation, by the list, or by its name.
use lurkspire.Prelude.{
  ℕ, List, [], ◌∷◌, Option, none, some, not, ◌||◌, if◌then◌else◌, ltb, length, lookup, insert,
  nat_key,
}
use lurkspire.Protocol.Battle.{encode_join_ok, encode_player_info}
use lurkspire.Protocol.Lobby.{decode_room_op}
use lurkspire.Protocol.Numbers.{
  msg_battle_join_ok, msg_battle_player_info, lobby_err_bad_input, lobby_err_room_full,
  lobby_err_room_exists, lobby_err_room_missing,
}
use lurkspire.Store.Users.{returned, failed}
use lurkspire.Store.Users.Catalogue.{Text}
use lurkspire.Lobby.{equip_id, is_empty_text}
use lurkspire.Room.State.{Room, joins, equips, sets_broadcast, sets_on_empty}
use lurkspire.Lobby.{equipment}
use lurkspire.Gateway.State.{Env, RoomMeta, World}
use lurkspire.Gateway.Send.{frame, send, send_all, send_err, session_of}
use lurkspire.Gateway.Registry.{
  is_some, nick_of, add_meta, remove_meta, has_meta, create_room, members, broadcast_room_list,
}
use lurkspire.Gateway.Battle.{
  is_joined, add_member, remove_member, bonus_of, room_call, state_snapshot, set_room,
}

abbrev pub name_of : Option Room → Text
name_of none = []
name_of (some r) = r.id

module _ {S : Type 0} where
  -- The loop of `syncRoomNames` that tells the new player of the others.
  unfoldable pub send_names : Env S → ℕ → List ℕ → World S → World S
  send_names env uid [] w = w
  send_names env uid (o ∷ os) w =
      let login_uid = (session_of o w).login_uid in
      elim (nick_of env login_uid w) [
        | failed e ↦ send_names env uid os w
        | returned nick ↦
            send_names env uid os
              (send uid (frame msg_battle_player_info (encode_player_info login_uid nick)) w)
      ]

  -- `syncRoomNames`
  unfoldable pub sync_room_names : Env S → ℕ → ℕ → World S → World S
  unfolding send_names
  sync_room_names env h uid w =
      let others = remove_member uid (members h w) in
      let w = send_names env uid others w in
      let login_uid = (session_of uid w).login_uid in
      elim (nick_of env login_uid w) [
        | failed e ↦ w
        | returned nick ↦
            send_all others (frame msg_battle_player_info (encode_player_info login_uid nick)) w
      ]

  -- The routes of `Join`: a room's callbacks are set with its first session.
  unfoldable pub add_route : Env S → ℕ → ℕ → World S → World S
  unfolding room_call
  add_route env h uid w = elim (lookup h w.room_sessions) [
    | some uids ↦ record w { room_sessions = insert h (add_member uid uids) w.room_sessions }
    | none ↦
        let w = (room_call env h sets_on_empty (room_call env h sets_broadcast w).0).0 in
        record w { room_sessions = insert h (uid ∷ []) w.room_sessions }
  ]

  -- The equipment of a player who has joined.
  unfoldable pub equip_player : Env S → ℕ → ℕ → World S → World S
  unfolding room_call
  equip_player env h login_uid w =
      elim (equip_id env.store env.crypto env.secret login_uid w.store) [
        | failed e ↦ w
        | returned id ↦
            (room_call env h (equips login_uid (bonus_of (equipment env.store id w.store))) w).0
      ]

  -- `Join`; `none` is the error of a full room.
  unfoldable pub join : Env S → ℕ → ℕ → Text → World S → World S × Option ℕ
  unfolding create_room room_call add_route equip_player sync_room_names
  join env draw uid name w =
      let (w, h) = create_room env name w in
      let login_uid = (session_of uid w).login_uid in
      let (w, outs) = room_call env h (joins login_uid draw) w in
      if is_joined outs
      then (
        sync_room_names env h uid
            (equip_player env h login_uid (set_room uid (some h) (add_route env h uid w))),
        some h,
      )
      else (w, none)

  -- `sendJoinOK`
  unfoldable pub send_join_ok : Env S → ℕ → ℕ → World S → World S
  unfolding room_call
  send_join_ok env uid h w =
      let body =
        encode_join_ok (name_of (lookup h w.rooms)) (session_of uid w).login_uid
          (state_snapshot env h w) in
      send uid (frame msg_battle_join_ok body) w

  -- The end of the three handlers that join a room.
  abbrev pub joined_room : Env S → ℕ → Option ℕ → World S → World S → World S
  joined_room env uid (some h) w refused = broadcast_room_list env (send_join_ok env uid h w)
  joined_room env uid none w refused = send_err uid lobby_err_room_full refused

  -- `handleRoomCreate` with a name and a note that are decoded.
  unfoldable pub create_and_join : Env S → ℕ → ℕ → Text → Text → World S → World S
  unfolding add_meta join send_join_ok broadcast_room_list
  create_and_join env draw uid name note w =
      if is_empty_text name || (ltb 32 (length name) || ltb 64 (length note))
      then send_err uid lobby_err_bad_input w
      else if has_meta name w
      then send_err uid lobby_err_room_exists w
      else (let meta : RoomMeta = record {
        name = name;
        creator = (session_of uid w).login_uid;
        note = note;
      } in
          let (w, added) = add_meta meta w in
          if not added
          then send_err uid lobby_err_room_exists w
          else (let (w, r) = join env draw uid name w in
              joined_room env uid r w (remove_meta name w)))

  -- `handleRoomCreate`
  unfoldable pub handle_room_create : Env S → ℕ → ℕ → List ℕ → World S → World S
  unfolding create_and_join
  handle_room_create env draw uid body w =
      if is_some (session_of uid w).room
      then send_err uid lobby_err_bad_input w
      else elim (decode_room_op body) [
        | none ↦ send_err uid lobby_err_bad_input w
        | some nn ↦ create_and_join env draw uid nn.0 nn.1 w
      ]

  -- `handleRoomJoin` with a name that is decoded.
  unfoldable pub find_and_join : Env S → ℕ → ℕ → Text → World S → World S
  unfolding join send_join_ok broadcast_room_list
  find_and_join env draw uid name w =
      if is_empty_text name
      then send_err uid lobby_err_bad_input w
      else if not (has_meta name w)
      then send_err uid lobby_err_room_missing w
      else (let (w, r) = join env draw uid name w in joined_room env uid r w w)

  -- `handleRoomJoin`
  unfoldable pub handle_room_join : Env S → ℕ → ℕ → List ℕ → World S → World S
  unfolding find_and_join
  handle_room_join env draw uid body w =
      if is_some (session_of uid w).room
      then send_err uid lobby_err_bad_input w
      else elim (decode_room_op body) [
        | none ↦ send_err uid lobby_err_bad_input w
        | some nn ↦ find_and_join env draw uid nn.0 w
      ]

  -- The case `MsgBattleJoin` of `handleAuthed`: a room that is not listed is made.
  unfoldable pub handle_battle_join : Env S → ℕ → ℕ → Text → World S → World S
  unfolding add_meta join send_join_ok broadcast_room_list
  handle_battle_join env draw uid name w =
      if is_empty_text name
      then send_err uid lobby_err_bad_input w
      else (let w =
            if has_meta name w
            then w
            else (add_meta
                (record { name = name; creator = (session_of uid w).login_uid; note = [] }) w).0 in
          let (w, r) = join env draw uid name w in joined_room env uid r w w)
