-- ===== src/Gateway/Invariant/Entered.antt =====
-- internal/gateway/session.go: what a login and a reconnection achieve.
use lurkspire.Prelude.{ℕ, ◌≡◌, ap, ◌∙◌, some, true, false, arith, lookup, nat_key, length, IsU16}
use lurkspire.Protocol.Lobby.{encode_login, encode_reconnect}
use lurkspire.Protocol.Lobby.Account.{decode_login-encode_login, decode_reconnect-encode_reconnect}
use lurkspire.Protocol.Numbers.{msg_login, msg_reconnect}
use lurkspire.Store.Users.{returned}
use lurkspire.Store.Users.Catalogue.{Text}
use lurkspire.Store.Interface.Laws.{IsLawful}
use lurkspire.Lobby.{IsCrypto, register, login, verify, is_empty_text}
use lurkspire.Lobby.Token.{IsTime}
use lurkspire.Lobby.Register.{register-login}
use lurkspire.Gateway.State.{Env, Session, World}
use lurkspire.Gateway.Send.{session_of, session_or}
use lurkspire.Gateway.Session.{handle, handle_login, handle_reconnect, take_token}
use lurkspire.Gateway.Steady.{tags}
use lurkspire.Gateway.Invariant.{IsWorld}
use lurkspire.Gateway.Invariant.Login.{enter_entered}

-- The session is logged in as the user and open, and the user is online with it.
abbrev pub IsIn : {S : Type 0} → ℕ → ℕ → World S → Type 0
IsIn uid id w =
    (lookup uid (tags w.sessions) ≡ some (id, (true, false))) × (lookup id w.online ≡ some uid)

module _ {S : Type 0} (n : ℕ) (env : Env S) (now draw uid seq : ℕ) (w : World S) (s : Session)
    (h : IsWorld n w) (e : lookup uid w.sessions ≡ some s) (guest : s.logged_in ≡ false)
    (opened : s.closed ≡ false) where
  guest_here : (session_of uid w).logged_in ≡ false
  guest_here = ap (λ x. (session_or x).logged_in) e ∙ guest

  -- A token that the service accepts brings the session of a guest in as its user.
  pub reconnect_enters :
      (token : Text) (id : ℕ)
      → is_empty_text token ≡ false
      → IsU16 (length token)
      → verify env.store env.crypto env.secret now token w.store ≡ returned id
      → IsIn uid id (
          handle env now draw uid
            (record { msg_id = msg_reconnect; seq = seq; body = encode_reconnect token })
            w)
  unfolding handle handle_reconnect take_token
  reconnect_enters token id some_token small good =
      rw (guest_here, handle_reconnect)
        (rw (decode_reconnect-encode_reconnect token small)
          (rw (some_token, good) (enter_entered n env uid token id s w h e guest opened)))

  login_step :
      (account password token : Text) (id : ℕ)
      → IsU16 (length account)
      → IsU16 (length password)
      → login env.store env.crypto env.secret now account password w.store ≡ returned token
      → verify env.store env.crypto env.secret now token w.store ≡ returned id
      → IsIn uid id (handle_login env now uid (encode_login account password) w)
  unfolding handle_login
  login_step account password token id ha hp l v =
      rw (guest_here, handle_login)
        (rw (decode_login-encode_login account password ha hp)
          (rw (l, v) (enter_entered n env uid token id s w h e guest opened)))

  -- Whoever has registered gets in: with a store that keeps its laws, the login message of a guest's
  -- session, with the account and the password of a registration that has left the store as it is,
  -- logs this session in as the user who has been registered, and puts the user online with it.
  pub registered_enters :
      (laws : IsCrypto env.crypto) (IsValid : S → Type 0) (lawful : IsLawful env.store IsValid)
      (salt : ℕ) (account password nickname : Text) (old : S) (id : ℕ)
      → IsValid old
      → register env.store env.crypto env.secret salt account password nickname old
        ≡ (returned id, w.store)
      → IsTime now
      → IsU16 (length account)
      → IsU16 (length password)
      → IsIn uid id (
          handle env now draw uid
            (record { msg_id = msg_login; seq = seq; body = encode_login account password })
            w)
  unfolding handle
  registered_enters laws IsValid lawful salt account password nickname old id valid made time ha
        hp =
      let (token, l, v) =
        register-login env.store env.crypto laws env.secret IsValid lawful salt now now account
          password nickname old w.store id valid made time (omega arith) in
      login_step account password token id ha hp l v
