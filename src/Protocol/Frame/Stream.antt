-- ===== src/Protocol/Frame/Stream.antt =====
-- internal/protocol/frame.go: what `Next` does on any input, on cut input, and over a connection
-- that delivers several frames (the read loop of gateway/session.go, `Session.Serve`).
use lurkspire.Prelude.{
  ℕ, zero, suc, ◌+◌, ◌≤◌, ◌<◌, ◌≡◌, refl, sym, ap, ◌∙◌, ◌⊎◌, inl, inr, List, [], ◌∷◌, ◌++◌, arith,
  length, u32, u16_at, u32_at, some, IsByte, IsU16, IsU32, All, append_assoc, length-append,
  take-append-drop, length-take,
}
use lurkspire.Protocol.Frame.{
  Frame, IsFrame, FrameError, ◌>>=◌, magic, header_size, max_body_size, Result, ok, err, eof,
  body_too_large, encode, read_full, next_body, next, serve_loop, serve,
}
use lurkspire.Protocol.Frame.RoundTrip.{header_bytes, encode_lem, read_full-append, next-encode}

read_full_ok : (n : ℕ) (s h r : List ℕ) → read_full n s ≡ ok (h, r) → (h ++ r ≡ s) × (length h ≡ n)
unfolding read_full
read_full_ok n [] h r e = ground arith
read_full_ok n (b ∷ bs) h r e = ground (arith, take-append-drop n (b ∷ bs), length-take n (b ∷ bs))

-- A header of twelve bytes with the right magic is the header of its own fields.
header_of_fields :
    (h : List ℕ)
    → length h ≡ 12
    → All IsByte h
    → u16_at h 0 ≡ magic
    → h ≡ header_bytes (u16_at h 2) (u32_at h 4) (u32_at h 8)
unfolding u16_at u32_at
header_of_fields (a ∷ b ∷ c ∷ d ∷ e ∷ f ∷ g ∷ i ∷ j ∷ k ∷ l ∷ m ∷ []) n bytes magic_ok =
    ground arith
header_of_fields _ n bytes magic_ok = absurd (omega arith)

All-append_left : (xs ys : List ℕ) → All IsByte (xs ++ ys) → All IsByte xs
All-append_left [] ys h = tt
All-append_left (x ∷ xs) ys h = (h.0, All-append_left xs ys h.1)

All-append_right : (xs ys : List ℕ) → All IsByte (xs ++ ys) → All IsByte ys
All-append_right [] ys h = h
All-append_right (x ∷ xs) ys h = All-append_right xs ys h.1

next_body_ok :
    (h s rest : List ℕ) (f : Frame)
    → next_body h s ≡ ok (f, rest)
    → (u16_at h 0 ≡ magic)
      × (f.msg_id ≡ u16_at h 2)
      × (f.seq ≡ u32_at h 4)
      × (length f.body ≡ u32_at h 8)
      × (f.body ++ rest ≡ s)
      × (length f.body ≤ max_body_size)
unfolding next_body
next_body_ok h s rest f e = ground (arith, read_full_ok (u32_at h 8) s f.body rest)

next_ok :
    (s rest : List ℕ) (f : Frame)
    → next s ≡ ok (f, rest)
    → (h : List ℕ) × (b : List ℕ) × (h ++ b ≡ s) × (length h ≡ 12) × (next_body h b ≡ ok (f, rest))
unfolding next
next_ok s rest f e = go (read_full header_size s) refl e
  where
    go :
        (r : Result (List ℕ × List ℕ))
        → read_full header_size s ≡ r
        → (r >>= λ p. next_body p.0 p.1) ≡ ok (f, rest)
        → (h : List ℕ) × (b : List ℕ) × (h ++ b ≡ s)
          × (length h ≡ 12)
          × (next_body h b ≡ ok (f, rest))
    go (ok (h, b)) e k = (h, b, (read_full_ok 12 s h b e).0, (read_full_ok 12 s h b e).1, k)
    go (err x) e k = cc

fields_range : (h : List ℕ) → length h ≡ 12 → All IsByte h → IsU16 (u16_at h 2) × IsU32 (u32_at h 4)
unfolding u16_at u32_at
fields_range (a ∷ b ∷ c ∷ d ∷ e ∷ f ∷ g ∷ i ∷ j ∷ k ∷ l ∷ m ∷ []) n bytes = omega arith
fields_range _ n bytes = absurd (omega arith)

encode-next_body :
    (h b rest : List ℕ) (f : Frame)
    → length h ≡ 12
    → All IsByte h
    → All IsByte b
    → next_body h b ≡ ok (f, rest)
    → (encode f ++ rest ≡ h ++ b) × IsFrame f × (length f.body ≤ max_body_size)
encode-next_body h b rest f twelve hb bb e =
    let (magic_ok, id_eq, seq_eq, len_eq, split, small) = next_body_ok h b rest f e in
    let same : header_bytes f.msg_id f.seq (u32 (length f.body)) ≡ h =
      ground (arith, header_of_fields h twelve hb magic_ok) in
    let whole : encode f ≡ h ++ f.body = encode_lem f ∙ ap (λ (t : List ℕ). t ++ f.body) same in
    let (id_range, seq_range) = fields_range h twelve hb in
    (
      rw (whole, append_assoc, split),
      record {
        msg_id_range = omega arith;
        seq_range = omega arith;
        body_range = All-append_left f.body rest (rw (sym split) at bb);
      },
      small,
    )

-- Whatever `Next` accepts from a connection is the encoding of the frame that it returns, in front
-- of what the reader still has; the frame is in range and its body has at most 64 KB.
pub encode-next :
    (s rest : List ℕ) (f : Frame)
    → All IsByte s
    → next s ≡ ok (f, rest)
    → (encode f ++ rest ≡ s) × IsFrame f × (length f.body ≤ max_body_size)
encode-next s rest f bytes e =
    let (h, b, split, twelve, e') = next_ok s rest f e in
    let all : All IsByte (h ++ b) = rw (sym split) at bytes in
    rw (sym split)
      (encode-next_body h b rest f twelve (All-append_left h b all) (All-append_right h b all) e')

-- `Next` refuses a frame whose body is over 64 KB and under 4 GB, which `Encode` writes without
-- complaint.
pub next-encode_too_large :
    (f : Frame) (rest : List ℕ)
    → max_body_size < length f.body
    → IsU32 (length f.body)
    → next (encode f ++ rest) ≡ err body_too_large
unfolding next next_body
next-encode_too_large f rest big h =
    let small : u32 (length f.body) ≡ length f.body = omega arith in
    let hd : List ℕ = header_bytes f.msg_id f.seq (length f.body) in
    rw (encode_lem f, append_assoc, small)
      (rw (read_full-append hd (f.body ++ rest) (omega arith)) (ground arith))

serve_loop_step :
    (fuel : ℕ) (s rest : List ℕ) (f : Frame) (fs : List Frame) (e : FrameError)
    → next s ≡ ok (f, rest)
    → serve_loop fuel rest ≡ some (fs, e)
    → serve_loop (suc fuel) s ≡ some (f ∷ fs, e)
unfolding serve_loop
serve_loop_step fuel s rest f fs e h k = rw (h, serve_loop) (rw k)

next_shrinks : (s rest : List ℕ) (f : Frame) → next s ≡ ok (f, rest) → length rest + 12 ≤ length s
next_shrinks s rest f e =
    let (h, b, split, twelve, e') = next_ok s rest f e in
    let (_, _, _, _, tail, _) = next_body_ok h b rest f e' in
    omega (arith, ap length split, ap length tail, length-append h b, length-append f.body rest)

Result-cases :
    (r : Result (Frame × List ℕ))
    → ((f : Frame) × (rest : List ℕ) × (r ≡ ok (f, rest))) ⊎ ((e : FrameError) × (r ≡ err e))
Result-cases (ok (f, rest)) = inl (f, rest, refl)
Result-cases (err e) = inr (e, refl)

serve_loop_total :
    (fuel : ℕ) (s : List ℕ)
    → length s < fuel
    → (fs : List Frame) × (e : FrameError) × (serve_loop fuel s ≡ some (fs, e))
unfolding serve_loop
serve_loop_total zero s h = absurd (omega arith)
serve_loop_total (suc fuel) s h = elim (Result-cases (next s)) [
  | inl (f, rest, e) ↦
      let (fs, x, k) = serve_loop_total fuel rest (omega (arith, next_shrinks s rest f e)) in
      (f ∷ fs, x, serve_loop_step fuel s rest f fs x e k)
  | inr (e, k) ↦ ([], e, rw (k, serve_loop))
]

-- The read loop ends on every input: after some frames it stops with an error of the reader.
pub serve_total : (s : List ℕ) → (fs : List Frame) × (e : FrameError) × (serve s ≡ some (fs, e))
unfolding serve
serve_total s = serve_loop_total (suc (length s)) s (omega arith)

abbrev pub encodings : List Frame → List ℕ
encodings [] = []
encodings (f ∷ fs) = encode f ++ encodings fs

-- A frame that the reader takes: its fields in range, its body at most 64 KB.
abbrev pub IsSendable : Frame → Type 0
IsSendable f = IsFrame f × (length f.body ≤ max_body_size)

serve_loop-encodings :
    (fs : List Frame) (fuel : ℕ)
    → All IsSendable fs
    → length (encodings fs) < fuel
    → serve_loop fuel (encodings fs) ≡ some (fs, eof)
serve_loop-encodings fs zero h k = absurd (omega arith)
serve_loop-encodings [] (suc fuel) h k = unfold serve_loop next read_full in refl
serve_loop-encodings (f ∷ fs) (suc fuel) h k =
    let step : next (encodings (f ∷ fs)) ≡ ok (f, encodings fs) =
      next-encode f (encodings fs) h.0.0 h.0.1 in
    serve_loop_step fuel _ (encodings fs) f fs eof step (
      serve_loop-encodings fs fuel h.1
        (omega (arith, next_shrinks (encodings (f ∷ fs)) (encodings fs) f step)))

-- Frames in range, with bodies of at most 64 KB, that arrive back to back are handed on one by one,
-- all of them, in order; then the loop ends with `io.EOF`.
pub serve-encodings : (fs : List Frame) → All IsSendable fs → serve (encodings fs) ≡ some (fs, eof)
unfolding serve
serve-encodings fs h = serve_loop-encodings fs (suc (length (encodings fs))) h (omega arith)
