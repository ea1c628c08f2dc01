-- ===== src/Protocol/Battle/Events.antt =====
-- internal/protocol/battle.go: input reports, hit events, the settlement, names of players.

use lurkspire.Prelude.{
  ℕ, ◌+◌, ◌*◌, ◌<◌, ◌≡◌, refl, sym, ap, ◌∙◌, List, [], ◌∷◌, ◌++◌, some, arith, length, make, be16,
  be32, u8, put_at, byte_at, u16_at, u32_at, IsU16, IsU32, All, append_assoc, append-nil,
  length-append, make-add, at_offset,
}
use lurkspire.Protocol.Text.{str_bytes, put_str-make_end, get_str-append}
use lurkspire.Protocol.Battle.{
  InputReport, IsInputReport, HitEvent, IsHitEvent, SettleEntry, IsSettleEntry, zero_input,
  encode_input, decode_input, encode_hit, decode_hit, put_settle, encode_settle_loop, encode_settle,
  get_settle, decode_settle_loop, decode_settle, encode_player_info, decode_player_info,
}

-- A report with fields in range is read back from its 29 bytes, whatever follows them.
pub decode_input-encode_input :
    (r : InputReport) (rest : List ℕ)
    → IsInputReport r
    → (length (encode_input r) ≡ 29) × (decode_input (encode_input r ++ rest) ≡ r)
unfolding encode_input decode_input
decode_input-encode_input r rest h = (ground arith, ground arith)

-- A report that is too short is taken for the report with every field zero.
decode_input_short : (b : List ℕ) → length b < 29 → decode_input b ≡ zero_input
unfolding decode_input
decode_input_short b h = ground arith

-- A hit with fields in range is read back from its ten bytes.
pub decode_hit-encode_hit :
    (h : HitEvent) → IsHitEvent h → (length (encode_hit h) ≡ 10) × (decode_hit (encode_hit h) ≡ h)
unfolding encode_hit decode_hit
decode_hit-encode_hit h r = (ground arith, ground arith)

abbrev pub settle_bytes : SettleEntry → List ℕ
settle_bytes e = be32 e.uid ++ be16 e.score

abbrev pub settles_bytes : List SettleEntry → List ℕ
settles_bytes [] = []
settles_bytes (e ∷ es) = settle_bytes e ++ settles_bytes es

put_settle-append :
    (pre post : List ℕ) (e : SettleEntry)
    → put_settle (length pre) e (pre ++ (make 6 ++ post)) ≡ pre ++ (settle_bytes e ++ post)
unfolding put_settle
put_settle-append pre post e = simp at_offset (unfold put_at in refl)

get_settle-append :
    (pre post : List ℕ) (e : SettleEntry)
    → IsSettleEntry e
    → get_settle (pre ++ (settle_bytes e ++ post)) (length pre) ≡ e
unfolding get_settle
get_settle-append pre post e h = simp at_offset (unfold u16_at u32_at byte_at in ground arith)

encode_settle_loop-append :
    (es : List SettleEntry) (i : ℕ) (pre : List ℕ)
    → length pre ≡ 1 + i * 6
    → encode_settle_loop i es (pre ++ make (length es * 6)) ≡ pre ++ settles_bytes es
unfolding encode_settle_loop
encode_settle_loop-append [] i pre h = refl
encode_settle_loop-append (e ∷ es) i pre h =
    let spare : List ℕ = make (length es * 6) in
    let room : make (length (e ∷ es) * 6) ≡ make 6 ++ spare =
      ap make (omega arith) ∙ make-add 6 (length es * 6) in
    rw (room, sym h, put_settle-append pre spare e, sym (append_assoc pre (settle_bytes e) spare))
      (encode_settle_loop-append es (i + 1) (pre ++ settle_bytes e)
          (omega (arith, length-append pre (settle_bytes e)))
        ∙ append_assoc pre (settle_bytes e) (settles_bytes es))

encode_settle_lem : (es : List SettleEntry) → encode_settle es ≡ u8 (length es) ∷ settles_bytes es
unfolding encode_settle put_at
encode_settle_lem es =
    rw (make-add 1 (length es * 6))
      (encode_settle_loop-append es 0 (u8 (length es) ∷ []) (omega arith))

length-settles_bytes : (es : List SettleEntry) → length (settles_bytes es) ≡ length es * 6
length-settles_bytes [] = omega arith
length-settles_bytes (e ∷ es) = omega (arith, length-settles_bytes es)

decode_settle_loop-append :
    (es : List SettleEntry) (i : ℕ) (pre : List ℕ)
    → All IsSettleEntry es
    → length pre ≡ 1 + i * 6
    → decode_settle_loop (length es) i (pre ++ settles_bytes es) ≡ es
unfolding decode_settle_loop
decode_settle_loop-append [] i pre a h = refl
decode_settle_loop-append (e ∷ es) i pre a h =
    let ih : decode_settle_loop (length es) (i + 1) (pre ++ (settle_bytes e ++ settles_bytes es))
        ≡ es =
      rw (append_assoc) at (
        decode_settle_loop-append es (i + 1) (pre ++ settle_bytes e) a.1
          (omega (arith, length-append pre (settle_bytes e)))) in
    rw (sym h, get_settle-append pre (settles_bytes es) e a.0, ih)

-- A settlement of up to 255 entries with fields in range is read back as it was sent.
pub decode_settle-encode_settle :
    (es : List SettleEntry)
    → All IsSettleEntry es
    → length es < 256
    → decode_settle (encode_settle es) ≡ some es
unfolding decode_settle byte_at
decode_settle-encode_settle es a h =
    let n : u8 (length es) ≡ length es = omega arith in
    rw (encode_settle_lem es, n)
      (ground (
        arith,
        length-settles_bytes es,
        decode_settle_loop-append es 0 (length es ∷ []) a (omega arith),
      ))

encode_player_info_lem :
    (uid : ℕ) (nick : List ℕ) → encode_player_info uid nick ≡ be32 uid ++ str_bytes nick
unfolding encode_player_info
encode_player_info_lem uid nick =
    let room : make (4 + 2 + length nick) ≡ make 4 ++ make (2 + length nick) =
      ap make (omega arith) ∙ make-add 4 (2 + length nick) in
    rw room (unfold put_at in put_str-make_end (be32 uid) nick (2 + length nick) refl)

-- A player's id and name are read back if the id is a uint32 and the name has fewer than 65536
-- bytes.
pub decode_player_info-encode_player_info :
    (uid : ℕ) (nick : List ℕ)
    → IsU32 uid
    → IsU16 (length nick)
    → decode_player_info (encode_player_info uid nick) ≡ some (uid, nick)
unfolding decode_player_info
decode_player_info-encode_player_info uid nick h k =
    rw (encode_player_info_lem uid nick, ← append-nil (str_bytes nick))
      (rw (get_str-append (be32 uid) nick [] k) (unfold u32_at byte_at in ground arith))
