-- ===== src/Prelude/Bytes.antt =====
-- Byte slices: big-endian reads and writes at an offset (Go's encoding/binary, `copy`, `make`).
use Prim.Native.Nat.{ℕ, zero, suc, ◌+◌, ◌*◌, ◌/◌, ◌%◌, ◌<◌}
use mathlib.Core.Path.{◌≡◌, refl, sym, ap}
use mathlib.Core.List.{List, [], ◌∷◌, ◌++◌, append_assoc}
use native.Mathlib.Nat.{suc-add, add-zero}
use native.Mathlib.Omega.{arith}
use Prim.Native.Nat.add
use lurkspire.Prelude.Lists.{length, get_or, replicate, replicate-add}

abbrev pub IsByte : ℕ → Type 0
IsByte b = b < 256

abbrev pub IsU16 : ℕ → Type 0
IsU16 n = n < 65536

abbrev pub IsU32 : ℕ → Type 0
IsU32 n = n < 4294967296

abbrev pub u8 : ℕ → ℕ
u8 n = n % 256

abbrev pub u16 : ℕ → ℕ
u16 n = n % 65536

abbrev pub u32 : ℕ → ℕ
u32 n = n % 4294967296

-- `make([]byte, n)`
abbrev pub make : ℕ → List ℕ
make n = replicate n 0

-- The two and four bytes of a word, highest first.
abbrev pub be16 : ℕ → List ℕ
be16 v = u8 (v / 256) ∷ u8 v ∷ []

abbrev pub be32 : ℕ → List ℕ
be32 v = u8 (v / 16777216) ∷ u8 (v / 65536) ∷ u8 (v / 256) ∷ u8 v ∷ []

-- `copy(b, s)`: writes what fits.
abbrev pub overwrite : List ℕ → List ℕ → List ℕ
overwrite [] b = b
overwrite (x ∷ xs) [] = []
overwrite (x ∷ xs) (y ∷ b) = x ∷ overwrite xs b

-- `copy(b[off:], s)`; the fixed-width writes are the same with the bytes of the word.
unfoldable pub put_at : ℕ → List ℕ → List ℕ → List ℕ
put_at zero s b = overwrite s b
put_at (suc off) s [] = []
put_at (suc off) s (y ∷ b) = y ∷ put_at off s b

-- `b[off]` and the big-endian reads; every caller has checked the length.
unfoldable pub byte_at : List ℕ → ℕ → ℕ
byte_at b off = get_or b off 0

unfoldable pub u16_at : List ℕ → ℕ → ℕ
unfolding byte_at
u16_at b off = byte_at b off * 256 + byte_at b (off + 1)

unfoldable pub u32_at : List ℕ → ℕ → ℕ
unfolding byte_at
u32_at b off =
    byte_at b off * 16777216
    + byte_at b (off + 1) * 65536
    + byte_at b (off + 2) * 256
    + byte_at b (off + 3)

pub overwrite-same_length :
    (s old rest : List ℕ) → length s ≡ length old → overwrite s (old ++ rest) ≡ s ++ rest
overwrite-same_length [] [] rest h = refl
overwrite-same_length [] (y ∷ old) rest h = absurd (omega arith)
overwrite-same_length (x ∷ s) [] rest h = absurd (omega arith)
overwrite-same_length (x ∷ s) (y ∷ old) rest h =
    ap (◌∷◌ x) (overwrite-same_length s old rest (omega arith))

-- A write behind a prefix leaves the prefix.
pub put_at-append :
    (pre s b : List ℕ) (k : ℕ) → put_at (length pre + k) s (pre ++ b) ≡ pre ++ put_at k s b
unfolding put_at
put_at-append [] s b k = rw (add.zero k)
put_at-append (x ∷ pre) s b k = rw (suc-add, put_at-append pre s b k)

pub put_at-length_append :
    (pre s b : List ℕ) → put_at (length pre) s (pre ++ b) ≡ pre ++ overwrite s b
unfolding put_at
put_at-length_append [] s b = refl
put_at-length_append (x ∷ pre) s b = ap (◌∷◌ x) (put_at-length_append pre s b)

-- A read behind a prefix does not see the prefix.
pub byte_at-append : (pre b : List ℕ) (k : ℕ) → byte_at (pre ++ b) (length pre + k) ≡ byte_at b k
unfolding byte_at
byte_at-append [] b k = rw (add.zero k)
byte_at-append (x ∷ pre) b k = rw (suc-add) (byte_at-append pre b k)

pub u16_at-append : (pre b : List ℕ) (k : ℕ) → u16_at (pre ++ b) (length pre + k) ≡ u16_at b k
unfolding u16_at
u16_at-append [] b k = rw (add.zero k)
u16_at-append (x ∷ pre) b k = rw (suc-add, suc-add) (u16_at-append pre b k)

pub u32_at-append : (pre b : List ℕ) (k : ℕ) → u32_at (pre ++ b) (length pre + k) ≡ u32_at b k
unfolding u32_at
u32_at-append [] b k = rw (add.zero k)
u32_at-append (x ∷ pre) b k = rw (suc-add, suc-add, suc-add, suc-add) (u32_at-append pre b k)

pub byte_at-length_append : (pre b : List ℕ) → byte_at (pre ++ b) (length pre) ≡ byte_at b 0
byte_at-length_append pre b = rw (add-zero (length pre)) at (byte_at-append pre b 0)

pub u16_at-length_append : (pre b : List ℕ) → u16_at (pre ++ b) (length pre) ≡ u16_at b 0
u16_at-length_append pre b = rw (add-zero (length pre)) at (u16_at-append pre b 0)

pub u32_at-length_append : (pre b : List ℕ) → u32_at (pre ++ b) (length pre) ≡ u32_at b 0
u32_at-length_append pre b = rw (add-zero (length pre)) at (u32_at-append pre b 0)

-- Reads and writes at an offset behind a prefix, without the prefix.
pub ruleset at_offset = (
  put_at-append, put_at-length_append, byte_at-append, u16_at-append, u32_at-append,
  byte_at-length_append, u16_at-length_append, u32_at-length_append,
)

pub be16-u16 : (v : ℕ) → IsU16 v → u8 (v / 256) * 256 + u8 v ≡ v
be16-u16 v h = omega arith

pub be32-u32 :
    (v : ℕ)
    → IsU32 v
    → u8 (v / 16777216) * 16777216 + u8 (v / 65536) * 65536 + u8 (v / 256) * 256 + u8 v ≡ v
be32-u32 v h = omega arith

-- `copy` into a fresh slice of the right length.
pub overwrite-make : (s : List ℕ) → overwrite s (make (length s)) ≡ s
overwrite-make [] = refl
overwrite-make (x ∷ s) = ap (◌∷◌ x) (overwrite-make s)

pub overwrite-make_append : (s rest : List ℕ) → overwrite s (make (length s) ++ rest) ≡ s ++ rest
overwrite-make_append [] rest = refl
overwrite-make_append (x ∷ s) rest = ap (◌∷◌ x) (overwrite-make_append s rest)

pub length-make : (n : ℕ) → length (make n) ≡ n
length-make zero = refl
length-make (suc n) = ap suc (length-make n)

pub make-add : (m n : ℕ) → make (m + n) ≡ make m ++ make n
make-add m n = replicate-add m n 0

-- A word written behind a prefix, into zeros, joins the prefix.
pub put_at-make :
    (pre w : List ℕ) (n k : ℕ)
    → n ≡ length w + k
    → put_at (length pre) w (pre ++ make n) ≡ (pre ++ w) ++ make k
put_at-make pre w n k h =
    rw
      (
        h,
        make-add (length w) k,
        put_at-length_append pre w (make (length w) ++ make k),
        overwrite-make_append w (make k),
      )
      (sym (append_assoc pre w (make k)))
