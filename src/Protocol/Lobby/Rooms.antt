-- ===== src/Protocol/Lobby/Rooms.antt =====
-- internal/protocol/lobby.go: room entries and room lists.
use lurkspire.Prelude.{
  ℕ, zero, suc, ◌+◌, ◌<◌, ◌≤◌, ◌≡◌, ◌≢◌, inl, inr, refl, sym, ap, ◌∙◌, List, [], ◌∷◌, ◌++◌, some,
  true, arith, leb, length, drop, make, u8, put_at, byte_at, IsByte, IsU16, All, append_assoc,
  append-nil, length-append, put_at-make, Option-cases, length-drop, length-take, take, u16_at,
  byte_at-length_append, byte_at-append, drop-length_append,
}
use lurkspire.Protocol.Text.{get_str, str_bytes, put_str-make, get_str_at}
use lurkspire.Protocol.Lobby.{
  RoomInfo, Decoded, decoded, refused, panic, cons_decoded, encode_room_info, decode_room_info,
  append_rooms, encode_room_list, decode_room_loop, decode_room_list,
}

-- A room's entry.
abbrev pub texts : RoomInfo → List ℕ
texts r = (str_bytes r.name ++ str_bytes r.creator) ++ str_bytes r.note

abbrev pub room_bytes : RoomInfo → List ℕ
room_bytes r = texts r ++ (u8 r.players ∷ u8 r.max ∷ [])

-- The ranges that an entry can carry.
pub record IsRoomInfo (r : RoomInfo) : Type 0 where
  pub name_range : IsU16 (length r.name)
  pub creator_range : IsU16 (length r.creator)
  pub note_range : IsU16 (length r.note)
  pub players_range : IsByte r.players
  pub max_range : IsByte r.max

pub encode_room_info_lem : (r : RoomInfo) → encode_room_info r ≡ room_bytes r
unfolding encode_room_info
encode_room_info_lem r =
    let (ln, lc, lt) : ℕ × ℕ × ℕ = (length r.name, length r.creator, length r.note) in
    let p : List ℕ = texts r ++ (u8 r.players ∷ []) in
    let off : length p ≡ length (texts r) + 1 =
      omega (arith, length-append (texts r) (u8 r.players ∷ [])) in
    let last : put_at (length p) (u8 r.max ∷ []) (p ++ make 1) ≡ (p ++ (u8 r.max ∷ [])) ++ [] =
      put_at-make p (u8 r.max ∷ []) 1 0 refl in
    rw
      (
        put_str-make [] r.name (2 + ln + 2 + lc + 2 + lt + 2) (2 + lc + 2 + lt + 2) (omega arith),
        put_str-make (str_bytes r.name) r.creator (2 + lc + 2 + lt + 2) (2 + lt + 2) (omega arith),
        put_str-make (str_bytes r.name ++ str_bytes r.creator) r.note (2 + lt + 2) 2 (omega arith),
        encode_room_info,
      )
      (rw (put_at-make (texts r) (u8 r.players ∷ []) 2 1 refl, ← off)
        (last ∙ append-nil _ ∙ append_assoc (texts r) (u8 r.players ∷ []) (u8 r.max ∷ [])))

-- An entry is read back from the front of a buffer.
pub decode_room_info-append :
    (r : RoomInfo) (post : List ℕ) → IsRoomInfo r → decode_room_info (room_bytes r ++ post) ≡ some r
unfolding decode_room_info
decode_room_info-append r post h =
    let (n, c, t) : List ℕ × List ℕ × List ℕ =
      (str_bytes r.name, str_bytes r.creator, str_bytes r.note) in
    let tail : List ℕ = u8 r.players ∷ u8 r.max ∷ post in
    let b : List ℕ = texts r ++ tail in
    let whole : room_bytes r ++ post ≡ b =
      append_assoc (texts r) (u8 r.players ∷ u8 r.max ∷ []) post in
    let split : b ≡ (n ++ c) ++ (t ++ tail) = append_assoc (n ++ c) t tail in
    let split' : b ≡ n ++ (c ++ (t ++ tail)) = split ∙ append_assoc n c (t ++ tail) in
    let first : get_str b 0 ≡ some (r.name, length n) =
      get_str_at b [] r.name (c ++ (t ++ tail)) 0 h.name_range split' refl in
    let second : get_str b (length n) ≡ some (r.creator, length (n ++ c)) =
      get_str_at b n r.creator (t ++ tail) (length n) h.creator_range split' refl in
    let third : get_str b (length (n ++ c)) ≡ some (r.note, length (texts r)) =
      get_str_at b (n ++ c) r.note tail (length (n ++ c)) h.note_range split refl in
    let players : byte_at b (length (texts r)) ≡ r.players =
      byte_at-length_append (texts r) tail ∙ unfold byte_at in omega arith in
    let max : byte_at b (length (texts r) + 1) ≡ r.max =
      byte_at-append (texts r) tail 1 ∙ unfold byte_at in omega arith in
    let inside : leb (length (texts r) + 2) (length b) ≡ true =
      ground (arith, length-append (texts r) tail) in
    rw whole (ground (arith, first, second, third, inside, players, max))

abbrev pub rooms_bytes : List RoomInfo → List ℕ
rooms_bytes [] = []
rooms_bytes (r ∷ list) = room_bytes r ++ rooms_bytes list

append_rooms_lem : (b : List ℕ) (list : List RoomInfo) → append_rooms b list ≡ b ++ rooms_bytes list
unfolding append_rooms
append_rooms_lem b [] = sym (append-nil b)
append_rooms_lem b (r ∷ list) =
    append_rooms_lem (b ++ encode_room_info r) list
    ∙ append_assoc b (encode_room_info r) (rooms_bytes list)
    ∙ ap (λ (t : List ℕ). b ++ (t ++ rooms_bytes list)) (encode_room_info_lem r)

-- The length by which the list decoder goes on behind an entry.
abbrev entry_size : RoomInfo → ℕ
entry_size r = 2 + length r.name + 2 + length r.creator + 2 + length r.note + 2

length-room_bytes : (r : RoomInfo) → length (room_bytes r) ≡ entry_size r
length-room_bytes r = omega (
  arith,
  length-append (texts r) (u8 r.players ∷ u8 r.max ∷ []),
  length-append (str_bytes r.name ++ str_bytes r.creator) (str_bytes r.note),
  length-append (str_bytes r.name) (str_bytes r.creator),
)

decode_room_loop-append :
    (list : List RoomInfo) (off : ℕ) (pre : List ℕ)
    → All IsRoomInfo list
    → off ≡ length pre
    → decode_room_loop (length list) off (pre ++ rooms_bytes list) ≡ decoded list
unfolding decode_room_loop
decode_room_loop-append [] off pre a h = refl
decode_room_loop-append (r ∷ list) off pre a h =
    let whole : List ℕ = pre ++ (room_bytes r ++ rooms_bytes list) in
    let inside : leb off (length whole) ≡ true =
      ground (arith, length-append pre (room_bytes r ++ rooms_bytes list)) in
    let one : decode_room_info (drop off whole) ≡ some r =
      rw (h, drop-length_append pre (room_bytes r ++ rooms_bytes list))
        (decode_room_info-append r (rooms_bytes list) a.0) in
    let rest : decode_room_loop (length list) (off + entry_size r) whole ≡ decoded list =
      rw (append_assoc pre (room_bytes r) (rooms_bytes list)) at (
        decode_room_loop-append list (off + entry_size r) (pre ++ room_bytes r) a.1
          (omega (arith, length-append pre (room_bytes r), length-room_bytes r))) in
    rw (inside, decode_room_loop) (rw one (rw rest))

-- A list of up to 255 rooms with entries in range is read back as it was sent.
pub decode_room_list-encode_room_list :
    (list : List RoomInfo)
    → All IsRoomInfo list
    → length list < 256
    → decode_room_list (encode_room_list list) ≡ decoded list
unfolding decode_room_list encode_room_list byte_at
decode_room_list-encode_room_list list a h =
    let n : u8 (length list) ≡ length list = omega arith in
    rw (append_rooms_lem (u8 (length list) ∷ []) list, n)
      (ground (arith, decode_room_loop-append list 1 (length list ∷ []) a refl))

-- What a text's reader takes is inside the buffer.
get_str_inside :
    (b s : List ℕ) (off end : ℕ)
    → get_str b off ≡ some (s, end)
    → (end ≡ off + 2 + length s) × (end ≤ length b)
unfolding get_str
get_str_inside b s off end e = ground (arith, length-take_drop (u16_at b off) (off + 2) b)
  where
    length-take_drop : (n k : ℕ) (c : List ℕ) → k + n ≤ length c → length (take n (drop k c)) ≡ n
    length-take_drop n k c h = length-take n (drop k c) (omega (arith, length-drop k c))

-- So is a room's entry.
decode_room_info_inside :
    (b : List ℕ) (r : RoomInfo) → decode_room_info b ≡ some r → entry_size r ≤ length b
unfolding decode_room_info
decode_room_info_inside b r e = elim (Option-cases (get_str b 0)) [
  | inl x ↦ absurd (ground arith)
  | inr ((name, o₁), e₁) ↦ elim (Option-cases (get_str b o₁)) [
    | inl x ↦ absurd (ground arith)
    | inr ((creator, o₂), e₂) ↦ elim (Option-cases (get_str b o₂)) [
      | inl x ↦ absurd (ground arith)
      | inr ((note, o₃), e₃) ↦ ground (
        arith,
        get_str_inside b name 0 o₁ e₁,
        get_str_inside b creator o₁ o₂ e₂,
        get_str_inside b note o₂ o₃ e₃,
      )
    ]
  ]
]

cons_decoded_panic : (r : RoomInfo) (d : Decoded RoomInfo) → d ≢ panic → cons_decoded r d ≢ panic
cons_decoded_panic r (decoded l) h = λ e. cc
cons_decoded_panic r refused h = λ e. cc
cons_decoded_panic r panic h = λ e. h refl

decode_room_loop-ne-panic :
    (n off : ℕ) (b : List ℕ) → off ≤ length b → decode_room_loop n off b ≢ panic
unfolding decode_room_loop
decode_room_loop-ne-panic zero off b h = λ e. cc
decode_room_loop-ne-panic (suc n) off b h =
    let inside : leb off (length b) ≡ true = ground arith in
    elim (Option-cases (decode_room_info (drop off b))) [
      | inl e ↦ rw (inside, decode_room_loop) (rw e (λ x. cc))
      | inr (r, e) ↦
          rw (inside, decode_room_loop)
            (rw e (
              cons_decoded_panic r _ (
                decode_room_loop-ne-panic n (off + entry_size r) b
                  (omega (arith, decode_room_info_inside (drop off b) r e, length-drop off b)))))
    ]

-- The room list decoder never slices past the end, on any body.
pub decode_room_list-ne-panic : (b : List ℕ) → decode_room_list b ≢ panic
unfolding decode_room_list
decode_room_list-ne-panic b = ground (arith, decode_room_loop-ne-panic (byte_at b 0) 1 b)
