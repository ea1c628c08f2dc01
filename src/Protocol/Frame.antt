-- ===== src/Protocol/Frame.antt =====
-- internal/protocol/frame.go: the frame codec. A byte slice, and what a reader still has to
-- deliver before the end of the connection, are lists of numbers.
pub mod RoundTrip
pub mod Stream
pub mod Cut
use mathlib.Core.Option
use lurkspire.Prelude.{
  ℕ, zero, suc, ◌+◌, ◌*◌, ◌≤◌, ◌<◌, List, [], ◌∷◌, if◌then◌else◌, ltb, leb, ◌==◌, not, length, take,
  drop, make, be16, be32, u16, u32, put_at, u16_at, u32_at, IsByte, IsU16, IsU32, All, Option, none,
  some,
}

-- "SD"
abbrev pub magic : ℕ
magic = 0x5344

abbrev pub header_size : ℕ
header_size = 12

-- 64 * 1024
abbrev pub max_body_size : ℕ
max_body_size = 65536

pub record Frame : Type 0 where
  pub msg_id : ℕ
  pub seq : ℕ
  pub body : List ℕ

-- The ranges of the fields' Go types.
pub record IsFrame (f : Frame) : Type 0 where
  pub msg_id_range : IsU16 f.msg_id
  pub seq_range : IsU32 f.seq
  pub body_range : All IsByte f.body

-- The two errors of the package, and the two that io.ReadFull returns at the end of the input.
pub data FrameError : Type 0 where
  eof unexpected_eof bad_magic body_too_large : FrameError

pub data Result {ℓ} (A : Type ℓ) : Type ℓ where
  ok : A → Result A
  err : FrameError → Result A

infixl 5 ◌>>=◌
abbrev pub ◌>>=◌ {ℓ κ} : {A : Type ℓ} {B : Type κ} → Result A → (A → Result B) → Result B
ok a >>= f = f a
err e >>= f = err e

unfoldable pub encode : Frame → List ℕ
unfolding put_at
encode f =
    let b = make (header_size + length f.body) in
    let b = put_at 0 (be16 (u16 magic)) b in
    let b = put_at 2 (be16 f.msg_id) b in
    let b = put_at 4 (be32 f.seq) b in
    let b = put_at 8 (be32 (u32 (length f.body))) b in put_at header_size f.body b

-- io.ReadFull on a buffer of `n` bytes: the bytes, and what the reader still has.
unfoldable pub read_full : ℕ → List ℕ → Result (List ℕ × List ℕ)
read_full n [] = if n == 0 then ok ([], []) else err eof
read_full n (b ∷ bs) =
    if leb n (length (b ∷ bs)) then ok (take n (b ∷ bs), drop n (b ∷ bs)) else err unexpected_eof

-- `FrameReader.Next` behind the header.
unfoldable pub next_body : List ℕ → List ℕ → Result (Frame × List ℕ)
unfolding u16_at u32_at
next_body header stream =
    if not (u16_at header 0 == magic)
    then err bad_magic
    else (let body_len = u32_at header 8 in
        if ltb max_body_size body_len
        then err body_too_large
        else if ltb 0 body_len
        then (do
          (body, rest) ← read_full body_len stream
          ok (record { msg_id = u16_at header 2; seq = u32_at header 4; body = body }, rest))
        else ok (record { msg_id = u16_at header 2; seq = u32_at header 4; body = [] }, stream))

-- `FrameReader.Next`: a frame and what the reader still has, or an error.
unfoldable pub next : List ℕ → Result (Frame × List ℕ)
next stream = do (header, rest) ← read_full header_size stream; next_body header rest

-- The read loop of gateway/session.go, `Session.Serve`: the frames that it hands to `handle`, in
-- order, and the error that ends it. `none` means that the fuel ran out.
unfoldable pub serve_loop : ℕ → List ℕ → Option (List Frame × FrameError)
serve_loop zero stream = none
serve_loop (suc fuel) stream = elim (next stream) [
  | ok (f, rest) ↦ Option.map (λ r. (f ∷ r.0, r.1)) (serve_loop fuel rest)
  | err e ↦ some ([], e)
]

-- Every frame takes a header at least, so a round more than the input has bytes is enough.
unfoldable pub serve : List ℕ → Option (List Frame × FrameError)
serve stream = serve_loop (suc (length stream)) stream
