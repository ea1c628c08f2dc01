-- ===== src/Gateway/Friends.antt =====
-- internal/gateway/hub.go: the handlers of the friends' messages.
use lurkspire.Prelude.{
  ℕ, List, [], ◌∷◌, Option, none, some, Bool, true, false, ◌||◌, if◌then◌else◌, ◌==◌,
}
use lurkspire.Protocol.Lobby.{decode_room_op, decode_uid, encode_friend_info}
use lurkspire.Protocol.Numbers.{
  msg_friend_search_r, msg_friend_invite_n, lobby_err_bad_input, lobby_err_not_friend,
  lobby_err_self,
}
use lurkspire.Store.Users.{User, StoreError, Returned, returned, failed}
use lurkspire.Lobby.{LobbyError, search_by_nickname, is_empty_text}
use lurkspire.Lobby.{accept_friend, friend_ids, invite_friend, reject_friend}
use lurkspire.Gateway.State.{Env, World}
use lurkspire.Gateway.Send.{frame, send, send_err, session_of}
use lurkspire.Gateway.Registry.{is_some, text_or_empty, nick_of}
use lurkspire.Gateway.Presence.{online_session, send_friend_list}

-- `x, _ := f()` for a list of ids.
abbrev pub ids_or_empty : Returned StoreError (List ℕ) → List ℕ
ids_or_empty (returned ids) = ids
ids_or_empty (failed e) = []

abbrev pub contains_id : ℕ → List ℕ → Bool
contains_id x [] = false
contains_id x (y ∷ ys) = y == x || contains_id x ys

module _ {S : Type 0} where
  abbrev pub found : ℕ → Returned LobbyError User → World S → World S
  found uid (failed e) w = send_err uid lobby_err_not_friend w
  found uid (returned u) w =
      if u.id == (session_of uid w).login_uid
      then send_err uid lobby_err_self w
      else send uid
          (frame msg_friend_search_r (
            encode_friend_info (record {
              uid = u.id;
              nickname = u.nickname;
              online = is_some (online_session u.id w);
            })))
          w

  -- `handleFriendSearch`
  unfoldable pub handle_friend_search : Env S → ℕ → List ℕ → World S → World S
  handle_friend_search env uid body w = elim (decode_room_op body) [
    | none ↦ send_err uid lobby_err_bad_input w
    | some nn ↦
        if is_empty_text nn.0
        then send_err uid lobby_err_bad_input w
        else found uid (search_by_nickname env.store env.crypto env.secret nn.0 w.store) w
  ]

  -- What the invited user is sent.
  abbrev pub notify_invited : Env S → ℕ → Option ℕ → World S → World S
  notify_invited env login_uid none w = w
  notify_invited env login_uid (some ts) w =
      send ts
        (frame msg_friend_invite_n (
          encode_friend_info (record {
            uid = login_uid;
            nickname = text_or_empty (nick_of env login_uid w);
            online = true;
          })))
        w

  -- `handleFriendInvite` with a target that is another user.
  unfoldable pub invite : Env S → ℕ → ℕ → World S → World S
  invite env uid target w =
      let login_uid = (session_of uid w).login_uid in
      if contains_id target (ids_or_empty (friend_ids env.store login_uid w.store))
      then send_err uid lobby_err_not_friend w
      else (let (r, s) = invite_friend env.store login_uid target w.store in
          let w = record w { store = s } in
          elim r [
            | failed e ↦ send_err uid lobby_err_bad_input w
            | returned u ↦ notify_invited env login_uid (online_session target w) w
          ])

  -- `handleFriendInvite`
  unfoldable pub handle_friend_invite : Env S → ℕ → List ℕ → World S → World S
  unfolding invite
  handle_friend_invite env uid body w = elim (decode_uid body) [
    | none ↦ send_err uid lobby_err_self w
    | some target ↦
        if target == (session_of uid w).login_uid
        then send_err uid lobby_err_self w
        else invite env uid target w
  ]

  abbrev pub refresh_other : Env S → Option ℕ → World S → World S
  refresh_other env none w = w
  refresh_other env (some os) w = send_friend_list env os w

  -- `handleFriendAccept` with an id that is decoded.
  unfoldable pub accept_invite : Env S → ℕ → ℕ → World S → World S
  unfolding send_friend_list
  accept_invite env uid other w =
      let (r, s) = accept_friend env.store (session_of uid w).login_uid other w.store in
      let w = record w { store = s } in
      elim r [
        | failed e ↦ send_err uid lobby_err_bad_input w
        | returned u ↦
            let w = send_friend_list env uid w in refresh_other env (online_session other w) w
      ]

  -- `handleFriendAccept`
  unfoldable pub handle_friend_accept : Env S → ℕ → List ℕ → World S → World S
  unfolding accept_invite
  handle_friend_accept env uid body w = elim (decode_uid body) [
    | none ↦ send_err uid lobby_err_bad_input w
    | some other ↦ accept_invite env uid other w
  ]

  -- `handleFriendReject`
  unfoldable pub handle_friend_reject : Env S → ℕ → List ℕ → World S → World S
  handle_friend_reject env uid body w = elim (decode_uid body) [
    | none ↦ w
    | some other ↦ record w {
      store = (reject_friend env.store (session_of uid w).login_uid other w.store).1;
    }
  ]
