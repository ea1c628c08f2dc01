-- ===== src/Gateway/Send.antt =====
-- internal/gateway/session.go: the queue of a session, and the answers that every handler gives.
pub mod Queue
use lurkspire.Prelude.{
  ℕ, ◌+◌, List, [], ◌∷◌, ◌++◌, Option, none, some, Bool, true, false, if◌then◌else◌, ltb, length,
  drop, lookup, modify, nat_key,
}
use lurkspire.Protocol.Frame.{Frame, encode}
use lurkspire.Protocol.Lobby.{encode_reg_resp}
use lurkspire.Protocol.Numbers.{msg_login_resp}
use lurkspire.Gateway.State.{Session, World, new_session}

-- The capacity of `writeCh`.
abbrev pub queue_size : ℕ
queue_size = 128

-- `Send` on the session: a full queue loses its oldest frame. Nothing comes between this and the
-- second try, which therefore finds a place.
unfoldable pub enqueue : List ℕ → Session → Session
enqueue b s =
    if s.closed
    then s
    else if ltb (length s.write_q) queue_size
    then record s { write_q = s.write_q ++ (b ∷ []) }
    else record s { write_q = drop 1 s.write_q ++ (b ∷ []) }

-- `protocol.Encode(&protocol.Frame{MsgID: msgID, Body: body})`
abbrev pub frame : ℕ → List ℕ → List ℕ
frame msg_id body = encode (record { msg_id = msg_id; seq = 0; body = body })

abbrev pub enqueue_all : List ℕ → List ℕ → List (ℕ × Session) → List (ℕ × Session)
enqueue_all [] b ss = ss
enqueue_all (uid ∷ uids) b ss = enqueue_all uids b (modify uid (enqueue b) ss)

-- A session that the process has, or one that nobody uses.
abbrev pub session_or : Option Session → Session
session_or none = new_session 0 0
session_or (some s) = s

module _ {S : Type 0} where
  abbrev pub session_of : ℕ → World S → Session
  session_of uid w = session_or (lookup uid w.sessions)

  abbrev pub send : ℕ → List ℕ → World S → World S
  send uid b w = record w { sessions = modify uid (enqueue b) w.sessions }

  -- The loop `for _, s := range targets { s.Send(frame) }`.
  abbrev pub send_all : List ℕ → List ℕ → World S → World S
  send_all uids b w = record w { sessions = enqueue_all uids b w.sessions }

  -- `sendErr`; the text is not sent.
  abbrev pub send_err : ℕ → ℕ → World S → World S
  send_err uid err_code w = send uid (frame msg_login_resp (encode_reg_resp err_code 0)) w
