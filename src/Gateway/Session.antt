-- ===== src/Gateway/Session.antt =====
-- internal/gateway/session.go: the dispatch of a session's frames. A handler reads the clock once;
-- `draw` is what its random numbers are drawn with.
pub mod Guest
use lurkspire.Prelude.{
  ℕ, List, [], ◌∷◌, Option, none, some, Bool, true, false, not, if◌then◌else◌, ◌==◌, modify,
  nat_key,
}
use lurkspire.Protocol.Frame.{Frame, encode}
use lurkspire.Protocol.Battle.{decode_input}
use lurkspire.Protocol.Lobby.{
  decode_reg, decode_login, decode_reconnect, encode_reg_resp, encode_login_resp,
}
use lurkspire.Protocol.Numbers.{
  msg_heartbeat, msg_reg, msg_reg_resp, msg_login, msg_login_resp, msg_reconnect, msg_battle_join,
  msg_battle_input, msg_room_leave, lobby_ok, lobby_err_bad_input, lobby_err_account,
  lobby_err_nickname, lobby_err_no_account, lobby_err_password, lobby_err_token,
}
use lurkspire.Store.Users.{Returned, returned, failed}
use lurkspire.Store.Users.Catalogue.{Text}
use lurkspire.Lobby.{
  LobbyError, account_taken, nickname_taken, bad_account, bad_password, bad_token, bad_input,
  passed_on, register, login, verify, is_empty_text,
}
use lurkspire.Room.State.{inputs}
use lurkspire.Gateway.State.{Env, Session, World}
use lurkspire.Gateway.Send.{frame, send, send_err, session_of}
use lurkspire.Gateway.Registry.{text_or_empty, nick_of}
use lurkspire.Gateway.Presence.{number_or_zero, on_login}
use lurkspire.Gateway.Battle.{room_call, leave}
use lurkspire.Gateway.Battle.Enter.{handle_battle_join}
use lurkspire.Gateway.Bag.{handle_lobby}

abbrev pub reg_error : LobbyError → ℕ
reg_error account_taken = lobby_err_account
reg_error nickname_taken = lobby_err_nickname
reg_error bad_account = lobby_err_bad_input
reg_error bad_password = lobby_err_bad_input
reg_error bad_token = lobby_err_bad_input
reg_error bad_input = lobby_err_bad_input
reg_error passed_on = lobby_err_bad_input

abbrev pub login_error : LobbyError → ℕ
login_error account_taken = lobby_err_bad_input
login_error nickname_taken = lobby_err_bad_input
login_error bad_account = lobby_err_no_account
login_error bad_password = lobby_err_password
login_error bad_token = lobby_err_bad_input
login_error bad_input = lobby_err_bad_input
login_error passed_on = lobby_err_bad_input

-- The identity that a session takes.
abbrev pub identify : ℕ → Text → Session → Session
identify login_uid nickname s = record s {
  login_uid = login_uid;
  nickname = nickname;
  logged_in = true;
}

module _ {S : Type 0} where
  -- `handleReg`
  unfoldable pub handle_reg : Env S → ℕ → ℕ → List ℕ → World S → World S
  handle_reg env draw uid body w = elim (decode_reg body) [
    | none ↦ send_err uid lobby_err_bad_input w
    | some apn ↦
        let (r, s) = register env.store env.crypto env.secret draw apn.0 apn.1 apn.2 w.store in
        let w = record w { store = s } in
        elim r [
          | returned id ↦ send uid (frame msg_reg_resp (encode_reg_resp lobby_ok id)) w
          | failed e ↦ send_err uid (reg_error e) w
        ]
  ]

  -- The end of `handleLogin` and `handleReconnect`.
  unfoldable pub enter : Env S → ℕ → Text → ℕ → World S → World S
  unfolding on_login
  enter env uid token login_uid w =
      let nick = text_or_empty (nick_of env login_uid w) in
      let w = record w { sessions = modify uid (identify login_uid nick) w.sessions } in
      on_login env uid
        (send uid (frame msg_login_resp (encode_login_resp lobby_ok token login_uid nick)) w)

  -- `handleLogin`
  unfoldable pub handle_login : Env S → ℕ → ℕ → List ℕ → World S → World S
  unfolding enter
  handle_login env now uid body w =
      if (session_of uid w).logged_in
      then send_err uid lobby_err_bad_input w
      else elim (decode_login body) [
        | none ↦ send_err uid lobby_err_bad_input w
        | some ap ↦ elim (login env.store env.crypto env.secret now ap.0 ap.1 w.store) [
          | failed e ↦ send_err uid (login_error e) w
          | returned token ↦
              let id = number_or_zero (verify env.store env.crypto env.secret now token w.store) in
              enter env uid token id w
        ]
      ]

  -- `handleReconnect` with a token that is decoded.
  unfoldable pub take_token : Env S → ℕ → ℕ → Text → World S → World S
  unfolding enter
  take_token env now uid token w =
      if is_empty_text token
      then send_err uid lobby_err_bad_input w
      else elim (verify env.store env.crypto env.secret now token w.store) [
        | failed e ↦ send_err uid lobby_err_token w
        | returned id ↦ enter env uid token id w
      ]

  -- `handleReconnect`
  unfoldable pub handle_reconnect : Env S → ℕ → ℕ → List ℕ → World S → World S
  unfolding take_token
  handle_reconnect env now uid body w =
      if (session_of uid w).logged_in
      then send_err uid lobby_err_bad_input w
      else elim (decode_reconnect body) [
        | none ↦ send_err uid lobby_err_bad_input w
        | some token ↦ take_token env now uid token w
      ]

  -- `handleAuthed`
  unfoldable pub handle_authed : Env S → ℕ → ℕ → ℕ → List ℕ → World S → World S
  unfolding handle_battle_join room_call leave handle_lobby
  handle_authed env draw uid msg_id body w =
      if msg_id == msg_battle_join
      then handle_battle_join env draw uid body w
      else if msg_id == msg_battle_input
      then elim (session_of uid w).room [
        | none ↦ w
        | some h ↦ (room_call env h (inputs (session_of uid w).login_uid (decode_input body)) w).0
      ]
      else if msg_id == msg_room_leave
      then send uid (frame msg_room_leave []) (leave env uid w)
      else handle_lobby env draw uid msg_id body w

  -- `handle`
  unfoldable pub handle : Env S → ℕ → ℕ → ℕ → Frame → World S → World S
  unfolding handle_reg handle_login handle_reconnect handle_authed
  handle env now draw uid f w =
      if f.msg_id == msg_heartbeat
      then send uid (encode (record { msg_id = msg_heartbeat; seq = f.seq; body = [] })) w
      else if f.msg_id == msg_reg
      then handle_reg env draw uid f.body w
      else if f.msg_id == msg_login
      then handle_login env now uid f.body w
      else if f.msg_id == msg_reconnect
      then handle_reconnect env now uid f.body w
      else if not (session_of uid w).logged_in
      then send_err uid lobby_err_token w
      else handle_authed env draw uid f.msg_id f.body w
