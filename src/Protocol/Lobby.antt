-- ===== src/Protocol/Lobby.antt =====
-- internal/protocol/lobby.go: the bodies of the lobby messages (200 to 299). Texts are byte lists.
-- A decoder that returns false returns `none`: what it returns beside false, callers do not read.
pub mod Account
pub mod Friends
pub mod Rooms
use lurkspire.Prelude.{
  ℕ, zero, suc, ◌+◌, ◌<◌, List, [], ◌∷◌, ◌++◌, Option, none, some, Bool, true, false, ◌&&◌,
  if◌then◌else◌, ltb, leb, ◌==◌, length, drop, make, be16, be32, u8, u16, put_at, byte_at, u32_at,
}
use lurkspire.Protocol.Text.{put_str, get_str}

-- An early return of the source's `ok == false`.
infixl 5 ◌>>=◌
abbrev pub ◌>>=◌ {ℓ κ} : {A : Type ℓ} {B : Type κ} → Option A → (A → Option B) → Option B
none >>= f = none
some a >>= f = f a

abbrev pub guard : Bool → Option (Unit {0})
guard true = some tt
guard false = none

infixl 5 ◌>>◌
abbrev pub ◌>>◌ {ℓ} : {B : Type ℓ} → Option (Unit {0}) → Option B → Option B
m >> k = m >>= λ _. k

unfoldable pub encode_reconnect : List ℕ → List ℕ
encode_reconnect token = (put_str (make (2 + length token)) 0 token).0

unfoldable pub decode_reconnect : List ℕ → Option (List ℕ)
decode_reconnect b = do (token, _) ← get_str b 0; some token

unfoldable pub encode_login : List ℕ → List ℕ → List ℕ
encode_login account password =
    let b = make (2 + length account + 2 + length password) in
    let (b, off) = put_str b 0 account in (put_str b off password).0

unfoldable pub decode_login : List ℕ → Option (List ℕ × List ℕ)
decode_login b = do
  (account, off) ← get_str b 0
  (password, _) ← get_str b off
  some (account, password)

unfoldable pub encode_reg : List ℕ → List ℕ → List ℕ → List ℕ
encode_reg account password nickname =
    let b = make (2 + length account + 2 + length password + 2 + length nickname) in
    let (b, off) = put_str b 0 account in
    let (b, off) = put_str b off password in (put_str b off nickname).0

unfoldable pub decode_reg : List ℕ → Option (List ℕ × List ℕ × List ℕ)
decode_reg b = do
  (account, off) ← get_str b 0
  (password, off) ← get_str b off
  (nickname, _) ← get_str b off
  some (account, password, nickname)

unfoldable pub encode_login_resp : ℕ → List ℕ → ℕ → List ℕ → List ℕ
encode_login_resp err_code token uid nickname =
    let b = make (1 + 2 + length token + 4 + 2 + length nickname) in
    let b = put_at 0 (err_code ∷ []) b in
    let (b, off) = put_str b 1 token in
    let b = put_at off (be32 uid) b in (put_str b (off + 4) nickname).0

unfoldable pub decode_login_resp : List ℕ → Option (ℕ × List ℕ × ℕ × List ℕ)
decode_login_resp b = do
  guard (leb 1 (length b))
  (token, off) ← get_str b 1
  guard (leb (off + 4) (length b))
  (nick, _) ← get_str b (off + 4)
  some (byte_at b 0, token, u32_at b off, nick)

unfoldable pub encode_reg_resp : ℕ → ℕ → List ℕ
unfolding put_at
encode_reg_resp err_code uid = put_at 1 (be32 uid) (put_at 0 (err_code ∷ []) (make 5))

unfoldable pub encode_uid : ℕ → List ℕ
unfolding put_at
encode_uid uid = put_at 0 (be32 uid) (make 4)

unfoldable pub decode_uid : List ℕ → Option ℕ
unfolding u32_at byte_at
decode_uid b = if ltb (length b) 4 then none else some (u32_at b 0)

pub record FriendInfo : Type 0 where
  pub uid : ℕ
  pub nickname : List ℕ
  pub online : Bool

unfoldable pub encode_friend_info : FriendInfo → List ℕ
encode_friend_info fi =
    let b = make (4 + 2 + length fi.nickname + 1) in
    let b = put_at 0 (be32 fi.uid) b in
    let (b, off) = put_str b 4 fi.nickname in if fi.online then put_at off (1 ∷ []) b else b

unfoldable pub decode_friend_info : List ℕ → Option FriendInfo
decode_friend_info b = do
  guard (leb 4 (length b))
  (nick, off) ← get_str b 4
  some (record {
    uid = u32_at b 0;
    nickname = nick;
    online = ltb off (length b) && byte_at b off == 1;
  })

-- The loop of `EncodeFriendList`.
unfoldable pub append_friends : List ℕ → List FriendInfo → List ℕ
append_friends b [] = b
append_friends b (fi ∷ list) = append_friends (b ++ encode_friend_info fi) list

unfoldable pub encode_friend_list : List FriendInfo → List ℕ
encode_friend_list list = append_friends (u8 (length list) ∷ []) list

-- What a list decoder does: a list, the return of false, or the run-time panic of a slice
-- expression `b[off:]` whose `off` lies past the end.
pub data Decoded (A : Type 0) : Type 0 where
  decoded : List A → Decoded A
  refused : Decoded A
  panic : Decoded A

abbrev pub cons_decoded : {A : Type 0} → A → Decoded A → Decoded A
cons_decoded a (decoded l) = decoded (a ∷ l)
cons_decoded a refused = refused
cons_decoded a panic = panic

-- The loop of `DecodeFriendList` for `n` more entries at `off`.
unfoldable pub decode_friend_loop : ℕ → ℕ → List ℕ → Decoded FriendInfo
decode_friend_loop zero off b = decoded []
decode_friend_loop (suc n) off b = elim (leb off (length b)) [
  | false ↦ panic
  | true ↦ elim (decode_friend_info (drop off b)) [
    | none ↦ refused
    | some fi ↦ cons_decoded fi (decode_friend_loop n (off + (4 + 2 + length fi.nickname + 1)) b)
  ]
]

unfoldable pub decode_friend_list : List ℕ → Decoded FriendInfo
decode_friend_list b = if ltb (length b) 1 then refused else decode_friend_loop (byte_at b 0) 1 b

unfoldable pub encode_online_push : ℕ → Bool → List ℕ
unfolding put_at
encode_online_push uid online =
    let b = put_at 0 (be32 uid) (make 5) in if online then put_at 4 (1 ∷ []) b else b

unfoldable pub decode_online_push : List ℕ → Option (ℕ × Bool)
unfolding u32_at byte_at
decode_online_push b = if ltb (length b) 5 then none else some (u32_at b 0, byte_at b 4 == 1)

pub record RoomInfo : Type 0 where
  pub name : List ℕ
  pub creator : List ℕ
  pub note : List ℕ
  pub players : ℕ
  pub max : ℕ

unfoldable pub encode_room_info : RoomInfo → List ℕ
encode_room_info r =
    let b = make (2 + length r.name + 2 + length r.creator + 2 + length r.note + 2) in
    let (b, off) = put_str b 0 r.name in
    let (b, off) = put_str b off r.creator in
    let (b, off) = put_str b off r.note in
    put_at (off + 1) (u8 r.max ∷ []) (put_at off (u8 r.players ∷ []) b)

unfoldable pub decode_room_info : List ℕ → Option RoomInfo
decode_room_info b = do
  (name, off) ← get_str b 0
  (creator, off) ← get_str b off
  (note, off) ← get_str b off
  guard (leb (off + 2) (length b))
  some (record {
    name = name;
    creator = creator;
    note = note;
    players = byte_at b off;
    max = byte_at b (off + 1);
  })

unfoldable pub append_rooms : List ℕ → List RoomInfo → List ℕ
append_rooms b [] = b
append_rooms b (r ∷ rooms) = append_rooms (b ++ encode_room_info r) rooms

unfoldable pub encode_room_list : List RoomInfo → List ℕ
encode_room_list rooms = append_rooms (u8 (length rooms) ∷ []) rooms

unfoldable pub decode_room_loop : ℕ → ℕ → List ℕ → Decoded RoomInfo
decode_room_loop zero off b = decoded []
decode_room_loop (suc n) off b = elim (leb off (length b)) [
  | false ↦ panic
  | true ↦ elim (decode_room_info (drop off b)) [
    | none ↦ refused
    | some r ↦ cons_decoded r (
        decode_room_loop n
          (off + (2 + length r.name + 2 + length r.creator + 2 + length r.note + 2)) b)
  ]
]

unfoldable pub decode_room_list : List ℕ → Decoded RoomInfo
decode_room_list b = if ltb (length b) 1 then refused else decode_room_loop (byte_at b 0) 1 b

unfoldable pub encode_room_op : List ℕ → List ℕ → List ℕ
encode_room_op name note =
    let b = make (2 + length name + 2 + length note) in
    let (b, off) = put_str b 0 name in (put_str b off note).0

unfoldable pub decode_room_op : List ℕ → Option (List ℕ × List ℕ)
decode_room_op b = do (name, off) ← get_str b 0; (note, _) ← get_str b off; some (name, note)

unfoldable pub encode_room_list_resp : ℕ → List RoomInfo → List ℕ
encode_room_list_resp err_code rooms = err_code ∷ [] ++ encode_room_list rooms

pub record BagItem : Type 0 where
  pub id : ℕ
  pub name : List ℕ
  pub desc : List ℕ

unfoldable pub append_items : List ℕ → List BagItem → List ℕ
append_items b [] = b
append_items b (it ∷ items) =
    let b = b ++ (u8 it.id ∷ []) in
    let b = b ++ be16 (u16 (length it.name)) in
    let b = b ++ it.name in
    let b = b ++ be16 (u16 (length it.desc)) in append_items (b ++ it.desc) items

unfoldable pub encode_bag_list : ℕ → List BagItem → List ℕ
encode_bag_list cur_equip items = append_items (u8 cur_equip ∷ u8 (length items) ∷ []) items

unfoldable pub encode_bag_equip : ℕ → List ℕ
encode_bag_equip equip_id = equip_id ∷ []

unfoldable pub decode_bag_equip : List ℕ → Option ℕ
unfolding byte_at
decode_bag_equip b = if ltb (length b) 1 then none else some (byte_at b 0)
