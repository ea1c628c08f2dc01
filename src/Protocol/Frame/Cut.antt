-- ===== src/Protocol/Frame/Cut.antt =====
-- internal/protocol/frame.go: what `Next` answers when the connection ends inside a frame.
use lurkspire.Prelude.{
  ℕ, ◌+◌, ◌≤◌, ◌<◌, ◌≡◌, refl, ap, List, [], ◌∷◌, ◌++◌, arith, ◌==◌, ◌||◌, if◌then◌else◌, length,
  length-append,
}
use native.Mathlib.Decide.{dec_lt}
use lurkspire.Protocol.Frame.{
  Frame, header_size, err, eof, unexpected_eof, encode, read_full, next_body, next,
}
use lurkspire.Protocol.Frame.RoundTrip.{header_bytes, encode_lem, read_full-append}
use lurkspire.Protocol.Frame.Stream.{IsSendable}

-- A list in front of another that is no longer is a prefix of it.
pub append_split :
    (h b s t : List ℕ)
    → length h ≤ length s
    → h ++ b ≡ s ++ t
    → (r : List ℕ) × (s ≡ h ++ r) × (b ≡ r ++ t)
append_split [] b s t k e = (s, refl, e)
append_split (x ∷ h) b [] t k e = absurd (omega arith)
append_split (x ∷ h) b (y ∷ s) t k e =
    let (r, p, q) = append_split h b s t (omega arith) (cc) in (r, ground arith, q)

read_full_short :
    (n : ℕ) (s : List ℕ)
    → length s < n
    → read_full n s ≡ err (if length s == 0 then eof else unexpected_eof)
unfolding read_full
read_full_short n [] h = ground arith
read_full_short n (b ∷ bs) h = ground arith

next_body_short :
    (f : Frame) (s : List ℕ)
    → IsSendable f
    → length s < length f.body
    → next_body (header_bytes f.msg_id f.seq (length f.body)) s
      ≡ err (if length s == 0 then eof else unexpected_eof)
unfolding next_body
next_body_short f s h k = ground (arith, read_full_short (length f.body) s)

-- When the connection ends inside an encoded frame, one in range with a body of at most 64 KB, `Next`
-- answers `io.EOF` if it ended before the
-- first byte or exactly behind the header, and `io.ErrUnexpectedEOF` anywhere else.
pub next_cut :
    (f : Frame) (front back : List ℕ) (x : ℕ)
    → IsSendable f
    → encode f ≡ front ++ (x ∷ back)
    → next front
      ≡ err (if (length front == 0) || (length front == header_size) then eof else unexpected_eof)
unfolding next
next_cut f front back x h e = elim (dec_lt (length front) 12) [
  | yes short ↦ ground (arith, read_full_short 12 front)
  | no long ↦
      let hd : List ℕ = header_bytes f.msg_id f.seq (length f.body) in
      let whole : hd ++ f.body ≡ front ++ (x ∷ back) = ground (arith, encode_lem f) in
      let (r, p, q) = append_split hd f.body front (x ∷ back) (omega arith) whole in
      let fewer : length r < length f.body =
        omega (arith, ap length q, length-append r (x ∷ back)) in
      let size : length front ≡ 12 + length r = omega (arith, ap length p) in
      ground (arith, p, read_full-append hd r, next_body_short f r h)
]
