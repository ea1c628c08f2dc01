-- ===== src/Protocol/Frame/RoundTrip.antt =====
-- internal/protocol/frame.go: `Next` after `Encode`, and `Encode` after `Next`.
use lurkspire.Prelude.{
  ℕ, ◌≤◌, ◌<◌, ◌≡◌, ap, List, [], ◌∷◌, ◌++◌, arith, length, be16, be32, u32, put_at, IsU16, IsU32,
  append_assoc, length-append, take-length_append, drop-length_append, make-add, overwrite-make,
}
use lurkspire.Protocol.Frame.{
  Frame, IsFrame, magic, max_body_size, ok, encode, read_full, next_body, next,
}

-- The twelve bytes in front of a body of `n` bytes.
abbrev pub header_bytes : ℕ → ℕ → ℕ → List ℕ
header_bytes msg_id seq n = be16 magic ++ (be16 msg_id ++ (be32 seq ++ be32 n))

-- The writes into the zeroed buffer tile it.
pub encode_lem :
    (f : Frame) → encode f ≡ header_bytes f.msg_id f.seq (u32 (length f.body)) ++ f.body
unfolding encode put_at
encode_lem f =
    rw (make-add 12 (length f.body))
      (ap (λ b. header_bytes f.msg_id f.seq (u32 (length f.body)) ++ b) (overwrite-make f.body))

-- A full read of the front of the input.
pub read_full-append :
    (bs rest : List ℕ) → 0 < length bs → read_full (length bs) (bs ++ rest) ≡ ok (bs, rest)
unfolding read_full
read_full-append [] rest h = absurd (omega arith)
read_full-append (b ∷ bs) rest h = ground (
  arith,
  take-length_append (b ∷ bs) rest,
  drop-length_append (b ∷ bs) rest,
  length-append (b ∷ bs) rest,
)

-- The parser behind the header that the encoder writes.
pub next_body-header :
    (f : Frame) (rest : List ℕ)
    → IsU16 f.msg_id
    → IsU32 f.seq
    → length f.body ≤ max_body_size
    → next_body (header_bytes f.msg_id f.seq (length f.body)) (f.body ++ rest) ≡ ok (f, rest)
unfolding next_body
next_body-header f rest hm hs hn = go f.body hn
  where
    go :
        (b : List ℕ)
        → length b ≤ max_body_size
        → next_body (header_bytes f.msg_id f.seq (length b)) (b ++ rest)
          ≡ ok (record { msg_id = f.msg_id; seq = f.seq; body = b }, rest)
    go [] h = ground arith
    go (x ∷ b) h = ground (arith, read_full-append (x ∷ b) rest)

-- A frame in range with a body of at most 64 KB is read back, and the reader then stands at
-- whatever follows it.
pub next-encode :
    (f : Frame) (rest : List ℕ)
    → IsFrame f
    → length f.body ≤ max_body_size
    → next (encode f ++ rest) ≡ ok (f, rest)
unfolding next
next-encode f rest h hn =
    rw (encode_lem f, append_assoc, small)
      (rw
        (read_full-append (header_bytes f.msg_id f.seq (length f.body)) (f.body ++ rest)
          (omega arith))
        (next_body-header f rest h.msg_id_range h.seq_range hn))
  where
    small : u32 (length f.body) ≡ length f.body
    small = omega arith
