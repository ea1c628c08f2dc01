-- ===== src/Protocol/Text.antt =====
-- internal/protocol/lobby.go, `putStr` and `getStr`: a text is its bytes behind their number in two
-- bytes.
use lurkspire.Prelude.{
  ℕ, ◌+◌, ◌≡◌, ap, ◌∙◌, List, ◌++◌, Option, none, some, arith, ltb, if◌then◌else◌, length, take,
  drop, make, be16, u16, put_at, u16_at, IsU16, length-append, make-add, append-nil,
  overwrite-make_append, append_assoc, take-length_append, at_offset, drop-append,
  u16_at-length_append, byte_at,
}

-- The buffer and the offset behind what was written.
unfoldable pub put_str : List ℕ → ℕ → List ℕ → List ℕ × ℕ
put_str b off s =
    let b = put_at off (be16 (u16 (length s))) b in (put_at (off + 2) s b, off + 2 + length s)

-- The text and the offset behind it; `none` where the source returns false.
unfoldable pub get_str : List ℕ → ℕ → Option (List ℕ × ℕ)
get_str b off =
    if ltb (length b) (off + 2)
    then none
    else (let n = u16_at b off in
        if ltb (length b) (off + 2 + n)
        then none
        else some (take n (drop (off + 2) b), off + 2 + n))

-- What a text of the right length becomes.
abbrev pub str_bytes : List ℕ → List ℕ
str_bytes s = be16 (u16 (length s)) ++ s

-- Writing a text behind a prefix, into room that was left for it.
pub put_str-append :
    (pre s post : List ℕ)
    → put_str (pre ++ (make (2 + length s) ++ post)) (length pre) s
      ≡ (pre ++ (str_bytes s ++ post), length pre + 2 + length s)
unfolding put_str
put_str-append pre s post =
    rw (make-add 2 (length s)) (simp at_offset (unfold put_at in rw (overwrite-make_append s post)))

-- The same where zeros follow: the text joins the prefix, and the offset is behind it.
pub put_str-make :
    (pre s : List ℕ) (n k : ℕ)
    → n ≡ 2 + length s + k
    → put_str (pre ++ make n) (length pre) s
      ≡ ((pre ++ str_bytes s) ++ make k, length (pre ++ str_bytes s))
put_str-make pre s n k h =
    let room : make n ≡ make (2 + length s) ++ make k = ap make h ∙ make-add (2 + length s) k in
    let off : length (pre ++ str_bytes s) ≡ length pre + 2 + length s =
      omega (arith, length-append pre (str_bytes s)) in
    rw (room, off, append_assoc pre (str_bytes s) (make k)) (put_str-append pre s (make k))

-- The same where the text fills the buffer.
pub put_str-make_end :
    (pre s : List ℕ) (n : ℕ)
    → n ≡ 2 + length s
    → (put_str (pre ++ make n) (length pre) s).0 ≡ pre ++ str_bytes s
put_str-make_end pre s n h =
    ap (λ (r : List ℕ × ℕ). r.0) (put_str-make pre s n 0 (omega arith)) ∙ append-nil _

-- Reading it back.
pub get_str-append :
    (pre s post : List ℕ)
    → IsU16 (length s)
    → get_str (pre ++ (str_bytes s ++ post)) (length pre) ≡ some (s, length pre + 2 + length s)
unfolding get_str
get_str-append pre s post h =
    let whole : List ℕ = str_bytes s ++ post in
    let n : u16_at (pre ++ whole) (length pre) ≡ length s =
      u16_at-length_append pre whole ∙ unfold u16_at byte_at in omega arith in
    ground (
      arith,
      n,
      length-append pre whole,
      length-append s post,
      drop-append pre whole 2,
      take-length_append s post,
    )

-- The same, with the offset behind the text as the length of a prefix, and the text in any
-- grouping.
pub get_str_at :
    (b pre s post : List ℕ) (off : ℕ)
    → IsU16 (length s)
    → b ≡ pre ++ (str_bytes s ++ post)
    → off ≡ length pre
    → get_str b off ≡ some (s, length (pre ++ str_bytes s))
get_str_at b pre s post off h e k =
    let behind : length (pre ++ str_bytes s) ≡ length pre + 2 + length s =
      omega (arith, length-append pre (str_bytes s)) in
    rw (e, k, behind) (get_str-append pre s post h)
