-- ===== src/Protocol/Battle.antt =====
-- internal/protocol/battle.go: the bodies of the battle messages. A float32 is its bit pattern, the
-- number that math.Float32bits returns and math.Float32frombits takes; a signed byte is the byte
-- that it is stored as.
pub mod State
pub mod Events
use mathlib.Core.Option
use lurkspire.Protocol.Text.{put_str, get_str}
use lurkspire.Prelude.{
  ℕ, zero, suc, ◌+◌, ◌*◌, ◌<◌, List, [], ◌∷◌, ◌++◌, Option, none, some, Bool, true, false, not,
  if◌then◌else◌, ltb, ◌==◌, length, make, be16, be32, u8, put_at, byte_at, u16_at, u32_at, IsByte,
  IsU16, IsU32,
}

-- A float32 by its bits.
abbrev pub F32 : Type 0
F32 = ℕ

pub record PlayerState : Type 0 where
  pub uid : ℕ
  pub x : F32
  pub y : F32
  pub z : F32
  pub yaw : F32
  pub hp : ℕ
  pub weapon : ℕ
  pub alt : ℕ
  pub block : F32
  pub anim : ℕ
  pub score : ℕ
  pub deaths : ℕ

-- The ranges of the fields' Go types.
pub record IsPlayerState (s : PlayerState) : Type 0 where
  pub uid_range : IsU32 s.uid
  pub x_range : IsU32 s.x
  pub y_range : IsU32 s.y
  pub z_range : IsU32 s.z
  pub yaw_range : IsU32 s.yaw
  pub hp_range : IsByte s.hp
  pub weapon_range : IsByte s.weapon
  pub alt_range : IsByte s.alt
  pub block_range : IsU32 s.block
  pub anim_range : IsByte s.anim
  pub score_range : IsU16 s.score
  pub deaths_range : IsU16 s.deaths

pub record InputReport : Type 0 where
  pub move_x : ℕ  -- int8, as its byte
  pub move_y : ℕ  -- int8, as its byte
  pub yaw : F32
  pub buttons : ℕ
  pub aim_x : F32
  pub aim_y : F32
  pub x : F32
  pub y : F32
  pub z : F32
  pub weapon : ℕ
  pub anim : ℕ

pub record IsInputReport (r : InputReport) : Type 0 where
  pub move_x_range : IsByte r.move_x
  pub move_y_range : IsByte r.move_y
  pub yaw_range : IsU32 r.yaw
  pub buttons_range : IsByte r.buttons
  pub aim_x_range : IsU32 r.aim_x
  pub aim_y_range : IsU32 r.aim_y
  pub x_range : IsU32 r.x
  pub y_range : IsU32 r.y
  pub z_range : IsU32 r.z
  pub weapon_range : IsByte r.weapon
  pub anim_range : IsByte r.anim

pub record HitEvent : Type 0 where
  pub shooter : ℕ
  pub target : ℕ
  pub damage : ℕ
  pub headshot : Bool

pub record IsHitEvent (h : HitEvent) : Type 0 where
  pub shooter_range : IsU32 h.shooter
  pub target_range : IsU32 h.target
  pub damage_range : IsByte h.damage

pub record SettleEntry : Type 0 where
  pub uid : ℕ
  pub score : ℕ

pub record IsSettleEntry (e : SettleEntry) : Type 0 where
  pub uid_range : IsU32 e.uid
  pub score_range : IsU16 e.score

abbrev pub state_size : ℕ
state_size = 36

abbrev pub input_size : ℕ
input_size = 29

abbrev pub hit_size : ℕ
hit_size = 10

abbrev pub settle_entry_size : ℕ
settle_entry_size = 6

-- The body of the loop of `EncodeState`: one player at offset `o`.
unfoldable pub put_state : ℕ → PlayerState → List ℕ → List ℕ
put_state o s b =
    let b = put_at o (be32 s.uid) b in
    let b = put_at (o + 4) (be32 s.x) b in
    let b = put_at (o + 8) (be32 s.y) b in
    let b = put_at (o + 12) (be32 s.z) b in
    let b = put_at (o + 16) (be32 s.yaw) b in
    let b = put_at (o + 20) (s.hp ∷ []) b in
    let b = put_at (o + 21) (s.weapon ∷ []) b in
    let b = put_at (o + 22) (s.alt ∷ []) b in
    let b = put_at (o + 23) (be32 s.block) b in
    let b = put_at (o + 27) (s.anim ∷ []) b in
    let b = put_at (o + 28) (be16 s.score) b in
    let b = put_at (o + 30) (be16 s.deaths) b in put_at (o + 32) (be32 0) b

unfoldable pub encode_state_loop : ℕ → List PlayerState → List ℕ → List ℕ
encode_state_loop i [] b = b
encode_state_loop i (s ∷ states) b =
    encode_state_loop (i + 1) states (put_state (1 + i * state_size) s b)

unfoldable pub encode_state : List PlayerState → List ℕ
encode_state states =
    let b = make (1 + length states * state_size) in
    encode_state_loop 0 states (put_at 0 (u8 (length states) ∷ []) b)

-- The body of the loop of `DecodeState`.
unfoldable pub get_state : List ℕ → ℕ → PlayerState
get_state b o = record {
  uid = u32_at b o;
  x = u32_at b (o + 4);
  y = u32_at b (o + 8);
  z = u32_at b (o + 12);
  yaw = u32_at b (o + 16);
  hp = byte_at b (o + 20);
  weapon = byte_at b (o + 21);
  alt = byte_at b (o + 22);
  block = u32_at b (o + 23);
  anim = byte_at b (o + 27);
  score = u16_at b (o + 28);
  deaths = u16_at b (o + 30);
}

-- The `n` entries from index `i` on.
unfoldable pub decode_state_loop : ℕ → ℕ → List ℕ → List PlayerState
decode_state_loop zero i b = []
decode_state_loop (suc n) i b = get_state b (1 + i * state_size) ∷ decode_state_loop n (i + 1) b

-- `none` is the nil slice.
unfoldable pub decode_state : List ℕ → Option (List PlayerState)
decode_state b =
    if ltb (length b) 1
    then none
    else (let n = byte_at b 0 in
        if ltb (length b) (1 + n * state_size) then none else some (decode_state_loop n 0 b))

unfoldable pub encode_input : InputReport → List ℕ
unfolding put_at
encode_input r =
    let b = make input_size in
    let b = put_at 0 (r.move_x ∷ []) b in
    let b = put_at 1 (r.move_y ∷ []) b in
    let b = put_at 2 (be32 r.yaw) b in
    let b = put_at 6 (r.buttons ∷ []) b in
    let b = put_at 7 (be32 r.aim_x) b in
    let b = put_at 11 (be32 r.aim_y) b in
    let b = put_at 15 (be32 r.x) b in
    let b = put_at 19 (be32 r.y) b in
    let b = put_at 23 (be32 r.z) b in
    let b = put_at 27 (r.weapon ∷ []) b in put_at 28 (r.anim ∷ []) b

-- The zero value of the type.
abbrev pub zero_input : InputReport
zero_input = record {
  move_x = 0;
  move_y = 0;
  yaw = 0;
  buttons = 0;
  aim_x = 0;
  aim_y = 0;
  x = 0;
  y = 0;
  z = 0;
  weapon = 0;
  anim = 0;
}

unfoldable pub decode_input : List ℕ → InputReport
unfolding byte_at u32_at
decode_input b = if ltb (length b) input_size then zero_input else record {
  move_x = byte_at b 0;
  move_y = byte_at b 1;
  yaw = u32_at b 2;
  buttons = byte_at b 6;
  aim_x = u32_at b 7;
  aim_y = u32_at b 11;
  x = u32_at b 15;
  y = u32_at b 19;
  z = u32_at b 23;
  weapon = byte_at b 27;
  anim = byte_at b 28;
}

unfoldable pub encode_hit : HitEvent → List ℕ
unfolding put_at
encode_hit h =
    let b = make hit_size in
    let b = put_at 0 (be32 h.shooter) b in
    let b = put_at 4 (be32 h.target) b in
    let b = put_at 8 (h.damage ∷ []) b in if h.headshot then put_at 9 (1 ∷ []) b else b

unfoldable pub decode_hit : List ℕ → HitEvent
unfolding byte_at u32_at
decode_hit b =
    if ltb (length b) hit_size
    then record { shooter = 0; target = 0; damage = 0; headshot = false }
    else record {
      shooter = u32_at b 0;
      target = u32_at b 4;
      damage = byte_at b 8;
      headshot = not (byte_at b 9 == 0);
    }

unfoldable pub put_settle : ℕ → SettleEntry → List ℕ → List ℕ
put_settle o e b = put_at (o + 4) (be16 e.score) (put_at o (be32 e.uid) b)

unfoldable pub encode_settle_loop : ℕ → List SettleEntry → List ℕ → List ℕ
encode_settle_loop i [] b = b
encode_settle_loop i (e ∷ es) b =
    encode_settle_loop (i + 1) es (put_settle (1 + i * settle_entry_size) e b)

unfoldable pub encode_settle : List SettleEntry → List ℕ
encode_settle entries =
    let b = make (1 + length entries * settle_entry_size) in
    encode_settle_loop 0 entries (put_at 0 (u8 (length entries) ∷ []) b)

unfoldable pub get_settle : List ℕ → ℕ → SettleEntry
get_settle b o = record { uid = u32_at b o; score = u16_at b (o + 4) }

unfoldable pub decode_settle_loop : ℕ → ℕ → List ℕ → List SettleEntry
decode_settle_loop zero i b = []
decode_settle_loop (suc n) i b =
    get_settle b (1 + i * settle_entry_size) ∷ decode_settle_loop n (i + 1) b

unfoldable pub decode_settle : List ℕ → Option (List SettleEntry)
decode_settle b =
    if ltb (length b) 1
    then none
    else (let n = byte_at b 0 in
        if ltb (length b) (1 + n * settle_entry_size)
        then none
        else some (decode_settle_loop n 0 b))

-- A name and the states behind it; the name's length is cut to a byte.
unfoldable pub encode_join_ok : List ℕ → ℕ → List PlayerState → List ℕ
encode_join_ok room_name self_uid states =
    ((u8 (length room_name) ∷ [] ++ room_name) ++ be32 self_uid) ++ encode_state states

unfoldable pub encode_player_info : ℕ → List ℕ → List ℕ
unfolding put_str
encode_player_info uid nickname =
    let b = make (4 + 2 + length nickname) in (put_str (put_at 0 (be32 uid) b) 4 nickname).0

-- `none` where the source returns false.
unfoldable pub decode_player_info : List ℕ → Option (ℕ × List ℕ)
decode_player_info b =
    if ltb (length b) 4 then none else Option.map (λ r. (u32_at b 0, r.0)) (get_str b 4)
