-- ===== src/Protocol/Lobby/Friends.antt =====
-- internal/protocol/lobby.go: friend entries and friend lists.
use lurkspire.Prelude.{
  ℕ, zero, suc, ◌+◌, ◌<◌, ◌≤◌, ◌≡◌, refl, sym, ap, ◌∙◌, List, [], ◌∷◌, ◌++◌, some, Bool, true,
  false, arith, leb, if◌then◌else◌, length, drop, make, be32, u8, put_at, byte_at, u32_at, IsU16,
  IsU32, All, append_assoc, append-nil, length-append, put_at-make, byte_at-length_append,
  drop-length_append,
}
use lurkspire.Protocol.Text.{get_str, str_bytes, put_str-make, get_str_at}
use lurkspire.Protocol.Lobby.{
  FriendInfo, decoded, panic, encode_friend_info, decode_friend_info, append_friends,
  encode_friend_list, decode_friend_loop, decode_friend_list,
}

abbrev pub flag : Bool → ℕ
flag online = if online then 1 else 0

-- A friend's entry.
abbrev pub friend_bytes : FriendInfo → List ℕ
friend_bytes fi = (be32 fi.uid ++ str_bytes fi.nickname) ++ (flag fi.online ∷ [])

-- The ranges that an entry can carry.
pub record IsFriendInfo (fi : FriendInfo) : Type 0 where
  pub uid_range : IsU32 fi.uid
  pub nickname_range : IsU16 (length fi.nickname)

pub encode_friend_info_lem : (fi : FriendInfo) → encode_friend_info fi ≡ friend_bytes fi
unfolding encode_friend_info
encode_friend_info_lem fi =
    let n : ℕ = length fi.nickname in
    let front : List ℕ = be32 fi.uid ++ str_bytes fi.nickname in
    let set : put_at (length front) (1 ∷ []) (front ++ make 1) ≡ (front ++ (1 ∷ [])) ++ [] =
      put_at-make front (1 ∷ []) 1 0 refl in
    rw
      (
        put_at-make [] (be32 fi.uid) (4 + 2 + n + 1) (2 + n + 1) (omega arith),
        put_str-make (be32 fi.uid) fi.nickname (2 + n + 1) 1 (omega arith),
        encode_friend_info,
      )
      (ground (arith, set, append-nil (front ++ (1 ∷ []))))

-- An entry is read back from the front of a buffer.
pub decode_friend_info-append :
    (fi : FriendInfo) (post : List ℕ)
    → IsFriendInfo fi
    → decode_friend_info (friend_bytes fi ++ post) ≡ some fi
unfolding decode_friend_info
decode_friend_info-append fi post h =
    let nick : List ℕ = str_bytes fi.nickname in
    let tail : List ℕ = flag fi.online ∷ post in
    let front : List ℕ = be32 fi.uid ++ nick in
    let whole : friend_bytes fi ++ post ≡ front ++ tail = append_assoc front _ post in
    let whole' : front ++ tail ≡ be32 fi.uid ++ (nick ++ tail) =
      append_assoc (be32 fi.uid) nick tail in
    let first : get_str (front ++ tail) 4 ≡ some (fi.nickname, length front) =
      get_str_at (front ++ tail) (be32 fi.uid) fi.nickname tail 4 h.nickname_range whole' refl in
    let id : u32_at (front ++ tail) 0 ≡ fi.uid = unfold u32_at byte_at in ground arith in
    let on : byte_at (front ++ tail) (length front) ≡ flag fi.online =
      byte_at-length_append front tail ∙ unfold byte_at in refl in
    rw whole (ground (arith, first, id, on, length-append front tail))

abbrev pub friends_bytes : List FriendInfo → List ℕ
friends_bytes [] = []
friends_bytes (fi ∷ list) = friend_bytes fi ++ friends_bytes list

append_friends_lem :
    (b : List ℕ) (list : List FriendInfo) → append_friends b list ≡ b ++ friends_bytes list
unfolding append_friends
append_friends_lem b [] = sym (append-nil b)
append_friends_lem b (fi ∷ list) =
    append_friends_lem (b ++ encode_friend_info fi) list
    ∙ append_assoc b (encode_friend_info fi) (friends_bytes list)
    ∙ ap (λ (t : List ℕ). b ++ (t ++ friends_bytes list)) (encode_friend_info_lem fi)

length-friend_bytes : (fi : FriendInfo) → length (friend_bytes fi) ≡ 4 + 2 + length fi.nickname + 1
length-friend_bytes fi =
    omega (arith, length-append (be32 fi.uid ++ str_bytes fi.nickname) (flag fi.online ∷ []))

decode_friend_loop-append :
    (list : List FriendInfo) (off : ℕ) (pre : List ℕ)
    → All IsFriendInfo list
    → off ≡ length pre
    → decode_friend_loop (length list) off (pre ++ friends_bytes list) ≡ decoded list
unfolding decode_friend_loop
decode_friend_loop-append [] off pre a h = refl
decode_friend_loop-append (fi ∷ list) off pre a h =
    let whole : List ℕ = pre ++ (friend_bytes fi ++ friends_bytes list) in
    let next : ℕ = off + (4 + 2 + length fi.nickname + 1) in
    let inside : leb off (length whole) ≡ true =
      ground (arith, length-append pre (friend_bytes fi ++ friends_bytes list)) in
    let one : decode_friend_info (drop off whole) ≡ some fi =
      rw (h, drop-length_append pre (friend_bytes fi ++ friends_bytes list))
        (decode_friend_info-append fi (friends_bytes list) a.0) in
    let rest : decode_friend_loop (length list) next whole ≡ decoded list = rw (append_assoc) at (
      decode_friend_loop-append list next (pre ++ friend_bytes fi) a.1
        (omega (arith, length-append pre (friend_bytes fi), length-friend_bytes fi))) in
    rw (inside, decode_friend_loop) (rw one (rw rest))

-- A list of up to 255 friends with entries in range is read back as it was sent.
pub decode_friend_list-encode_friend_list :
    (list : List FriendInfo)
    → All IsFriendInfo list
    → length list < 256
    → decode_friend_list (encode_friend_list list) ≡ decoded list
unfolding decode_friend_list encode_friend_list byte_at
decode_friend_list-encode_friend_list list a h =
    let n : u8 (length list) ≡ length list = omega arith in
    rw (append_friends_lem (u8 (length list) ∷ []) list, n)
      (ground (arith, decode_friend_loop-append list 1 (length list ∷ []) a refl))

-- An entry without its last byte counts as offline.
decode_friend_info_short :
    (fi : FriendInfo)
    → IsFriendInfo fi
    → decode_friend_info (be32 fi.uid ++ str_bytes fi.nickname)
      ≡ some (record { uid = fi.uid; nickname = fi.nickname; online = false })
unfolding decode_friend_info
decode_friend_info_short fi h =
    let b : List ℕ = be32 fi.uid ++ str_bytes fi.nickname in
    let e : b ≡ be32 fi.uid ++ (str_bytes fi.nickname ++ []) = sym (append-nil b) in
    let first : get_str b 4 ≡ some (fi.nickname, length b) =
      get_str_at b (be32 fi.uid) fi.nickname [] 4 h.nickname_range e refl in
    let id : u32_at b 0 ≡ fi.uid = unfold u32_at byte_at in ground arith in
    ground (arith, first, id)

-- A list that announces two entries or more, and ends behind the name of the first, whose fields are
-- in range, makes the
-- decoder panic: the first entry is accepted without its last byte, and the next slice expression
-- starts one past the end.
pub decode_friend_list_panics :
    (n : ℕ) (fi : FriendInfo)
    → 2 ≤ n
    → IsFriendInfo fi
    → decode_friend_list (n ∷ (be32 fi.uid ++ str_bytes fi.nickname)) ≡ panic
unfolding decode_friend_list decode_friend_loop byte_at
decode_friend_list_panics zero fi h r = absurd (omega arith)
decode_friend_list_panics (suc zero) fi h r = absurd (omega arith)
decode_friend_list_panics (suc (suc k)) fi h r =
    let b : List ℕ = be32 fi.uid ++ str_bytes fi.nickname in
    let past : leb (1 + (4 + 2 + length fi.nickname + 1)) (length (suc (suc k) ∷ b)) ≡ false =
      ground arith in
    ground (arith, decode_friend_info_short fi r, past)
