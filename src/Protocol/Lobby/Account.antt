-- ===== src/Protocol/Lobby/Account.antt =====
-- internal/protocol/lobby.go: login, registration and reconnection.
use lurkspire.Prelude.{
  ℕ, ◌+◌, ◌≡◌, refl, sym, ap, ◌∙◌, List, [], ◌∷◌, ◌++◌, some, arith, length, be32, byte_at, u32_at,
  IsByte, IsU16, IsU32, append_assoc, append-nil, length-append, put_at-make, u32_at-length_append,
}
use lurkspire.Protocol.Text.{get_str, str_bytes, put_str-make, put_str-make_end, get_str_at}
use lurkspire.Protocol.Lobby.{
  encode_reconnect, decode_reconnect, encode_login, decode_login, encode_reg, decode_reg,
  encode_login_resp, decode_login_resp, encode_room_op, decode_room_op,
}

encode_login_lem :
    (account password : List ℕ)
    → encode_login account password ≡ str_bytes account ++ str_bytes password
unfolding encode_login
encode_login_lem account password =
    rw
      (
        put_str-make [] account (2 + length account + 2 + length password) (2 + length password)
            (omega arith),
        encode_login,
      )
      (put_str-make_end (str_bytes account) password (2 + length password) refl)

-- An account and a password of fewer than 65536 bytes each are read back.
pub decode_login-encode_login :
    (account password : List ℕ)
    → IsU16 (length account)
    → IsU16 (length password)
    → decode_login (encode_login account password) ≡ some (account, password)
unfolding decode_login
decode_login-encode_login account password ha hp =
    let b : List ℕ = encode_login account password in
    let first : get_str b 0 ≡ some (account, length (str_bytes account)) =
      get_str_at b [] account (str_bytes password) 0 ha (encode_login_lem account password) refl in
    let second : get_str b (length (str_bytes account))
        ≡ some (password, length (str_bytes account ++ str_bytes password)) =
      get_str_at b (str_bytes account) password [] _ hp
        (encode_login_lem account password
          ∙ ap (λ (t : List ℕ). str_bytes account ++ t) (sym (append-nil _)))
        refl in
    rw (first, second)

-- A reconnection token of fewer than 65536 bytes is read back.
pub decode_reconnect-encode_reconnect :
    (token : List ℕ) → IsU16 (length token) → decode_reconnect (encode_reconnect token) ≡ some token
unfolding decode_reconnect encode_reconnect
decode_reconnect-encode_reconnect token h =
    let b : List ℕ = encode_reconnect token in
    let e : b ≡ [] ++ (str_bytes token ++ []) =
      put_str-make_end [] token (2 + length token) refl ∙ sym (append-nil (str_bytes token)) in
    rw (get_str_at b [] token [] 0 h e refl)

-- A text at the very end of a buffer.
get_str_end :
    (b pre s : List ℕ) (off : ℕ)
    → IsU16 (length s)
    → b ≡ pre ++ str_bytes s
    → off ≡ length pre
    → get_str b off ≡ some (s, length (pre ++ str_bytes s))
get_str_end b pre s off h e k =
    get_str_at b pre s [] off h (e ∙ ap (λ (t : List ℕ). pre ++ t) (sym (append-nil (str_bytes s))))
      k

encode_reg_lem :
    (account password nickname : List ℕ)
    → encode_reg account password nickname
      ≡ (str_bytes account ++ str_bytes password) ++ str_bytes nickname
unfolding encode_reg
encode_reg_lem account password nickname =
    let (la, lp, ln) : ℕ × ℕ × ℕ = (length account, length password, length nickname) in
    rw
      (
        put_str-make [] account (2 + la + 2 + lp + 2 + ln) (2 + lp + 2 + ln) (omega arith),
        put_str-make (str_bytes account) password (2 + lp + 2 + ln) (2 + ln) (omega arith),
        encode_reg,
      )
      (put_str-make_end (str_bytes account ++ str_bytes password) nickname (2 + ln) refl)

-- An account, a password and a nickname of fewer than 65536 bytes each are read back.
pub decode_reg-encode_reg :
    (account password nickname : List ℕ)
    → IsU16 (length account)
    → IsU16 (length password)
    → IsU16 (length nickname)
    → decode_reg (encode_reg account password nickname) ≡ some (account, password, nickname)
unfolding decode_reg
decode_reg-encode_reg account password nickname ha hp hn =
    let b : List ℕ = encode_reg account password nickname in
    let (a, p, n) : List ℕ × List ℕ × List ℕ =
      (str_bytes account, str_bytes password, str_bytes nickname) in
    let whole : b ≡ (a ++ p) ++ n = encode_reg_lem account password nickname in
    let first : get_str b 0 ≡ some (account, length a) =
      get_str_at b [] account (p ++ n) 0 ha (whole ∙ append_assoc a p n) refl in
    let second : get_str b (length a) ≡ some (password, length (a ++ p)) =
      get_str_at b a password n (length a) hp (whole ∙ append_assoc a p n) refl in
    let third : get_str b (length (a ++ p)) ≡ some (nickname, length ((a ++ p) ++ n)) =
      get_str_end b (a ++ p) nickname (length (a ++ p)) hn whole refl in
    rw (first, second, third)

encode_room_op_lem :
    (name note : List ℕ) → encode_room_op name note ≡ str_bytes name ++ str_bytes note
unfolding encode_room_op
encode_room_op_lem name note =
    rw
      (
        put_str-make [] name (2 + length name + 2 + length note) (2 + length note) (omega arith),
        encode_room_op,
      )
      (put_str-make_end (str_bytes name) note (2 + length note) refl)

-- The name and the note of a room request, each of fewer than 65536 bytes, are read back.
pub decode_room_op-encode_room_op :
    (name note : List ℕ)
    → IsU16 (length name)
    → IsU16 (length note)
    → decode_room_op (encode_room_op name note) ≡ some (name, note)
unfolding decode_room_op
decode_room_op-encode_room_op name note ha hp =
    let b : List ℕ = encode_room_op name note in
    let whole : b ≡ str_bytes name ++ str_bytes note = encode_room_op_lem name note in
    let first : get_str b 0 ≡ some (name, length (str_bytes name)) =
      get_str_at b [] name (str_bytes note) 0 ha whole refl in
    let second : get_str b (length (str_bytes name))
        ≡ some (note, length (str_bytes name ++ str_bytes note)) =
      get_str_end b (str_bytes name) note _ hp whole refl in
    rw (first, second)

encode_login_resp_lem :
    (err_code uid : ℕ) (token nickname : List ℕ)
    → encode_login_resp err_code token uid nickname
      ≡ ((err_code ∷ [] ++ str_bytes token) ++ be32 uid) ++ str_bytes nickname
unfolding encode_login_resp
encode_login_resp_lem err_code uid token nickname =
    let (lt, ln) : ℕ × ℕ = (length token, length nickname) in
    let front : List ℕ = err_code ∷ [] ++ str_bytes token in
    let off : length (front ++ be32 uid) ≡ length front + 4 =
      omega (arith, length-append front (be32 uid)) in
    rw
      (
        put_at-make [] (err_code ∷ []) (1 + 2 + lt + 4 + 2 + ln) (2 + lt + (4 + (2 + ln)))
            (omega arith),
        put_str-make (err_code ∷ []) token (2 + lt + (4 + (2 + ln))) (4 + (2 + ln)) (omega arith),
        encode_login_resp,
      )
      (rw (put_at-make front (be32 uid) (4 + (2 + ln)) (2 + ln) refl, ← off)
        (put_str-make_end (front ++ be32 uid) nickname (2 + ln) refl))

-- The answer to a login or a reconnection is read back if its code is a byte, its id a uint32 and
-- its texts have fewer than 65536 bytes each.
pub decode_login_resp-encode_login_resp :
    (err_code uid : ℕ) (token nickname : List ℕ)
    → IsByte err_code
    → IsU32 uid
    → IsU16 (length token)
    → IsU16 (length nickname)
    → decode_login_resp (encode_login_resp err_code token uid nickname)
      ≡ some (err_code, token, uid, nickname)
unfolding decode_login_resp
decode_login_resp-encode_login_resp err_code uid token nickname he hu ht hn =
    let b : List ℕ = encode_login_resp err_code token uid nickname in
    let front : List ℕ = err_code ∷ [] ++ str_bytes token in
    let n : List ℕ = str_bytes nickname in
    let whole : b ≡ (front ++ be32 uid) ++ n = encode_login_resp_lem err_code uid token nickname in
    let first : get_str b 1 ≡ some (token, length front) =
      get_str_at b (err_code ∷ []) token (be32 uid ++ n) 1 ht
        (whole ∙ append_assoc front (be32 uid) n) refl in
    let off : length front + 4 ≡ length (front ++ be32 uid) =
      omega (arith, length-append front (be32 uid)) in
    let size : length b ≡ length front + 4 + length n =
      ap length whole ∙ length-append (front ++ be32 uid) n ∙ omega arith in
    let second : get_str b (length front + 4) ≡ some (nickname, length ((front ++ be32 uid) ++ n)) =
      get_str_end b (front ++ be32 uid) nickname _ hn whole off in
    let id : u32_at b (length front) ≡ uid =
      ap (λ (t : List ℕ). u32_at t (length front)) (whole ∙ append_assoc front (be32 uid) n)
      ∙ u32_at-length_append front (be32 uid ++ n)
      ∙ unfold u32_at byte_at in omega arith in
    let code : byte_at b 0 ≡ err_code =
      ap (λ (t : List ℕ). byte_at t 0) whole ∙ unfold byte_at in refl in
    ground (arith, first, size, second, id, code)
