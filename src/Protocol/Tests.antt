-- ===== src/Protocol/Tests.antt =====
-- The theorems on internal/protocol at concrete messages.
use lurkspire.Prelude.{ℕ, ◌≡◌, List, [], ◌∷◌, ◌++◌, some, true, false, arith, refl, be32}
use lurkspire.Protocol.Frame.{Frame, FrameError, eof, unexpected_eof, err, encode, next, serve}
use lurkspire.Protocol.Frame.Stream.{serve_total, serve-encodings, encodings, IsSendable}
use lurkspire.Protocol.Frame.Cut.{next_cut}
use lurkspire.Protocol.Text.{str_bytes}
use lurkspire.Protocol.Battle.{
  PlayerState, encode_state, decode_state, InputReport, HitEvent, SettleEntry,
}
use lurkspire.Protocol.Battle.State.{decode_state-encode_state}
use lurkspire.Protocol.Lobby.{FriendInfo, decoded, panic, encode_friend_list, decode_friend_list}
use lurkspire.Protocol.Lobby.Friends.{
  decode_friend_list-encode_friend_list, decode_friend_list_panics,
}

-- A state request without a body, and a message with two bytes.
abbrev ping : Frame
ping = record { msg_id = 10; seq = 7; body = [] }

abbrev hello : Frame
hello = record { msg_id = 110; seq = 70000; body = 3 ∷ 255 ∷ [] }

ping-IsSendable : IsSendable ping
ping-IsSendable =
    (record { msg_id_range = omega arith; seq_range = omega arith; body_range = tt }, omega arith)

hello-IsSendable : IsSendable hello
hello-IsSendable = (
  record {
    msg_id_range = omega arith;
    seq_range = omega arith;
    body_range = (omega arith, (omega arith, tt));
  },
  omega arith,
)

serve-encodings_example : serve (encodings (ping ∷ hello ∷ [])) ≡ some (ping ∷ hello ∷ [], eof)
serve-encodings_example =
    serve-encodings (ping ∷ hello ∷ []) (ping-IsSendable, (hello-IsSendable, tt))

serve_total_example : (fs : List Frame) × (e : FrameError) × (serve (83 ∷ 0 ∷ []) ≡ some (fs, e))
serve_total_example = serve_total (83 ∷ 0 ∷ [])

encode-hello :
    encode hello ≡ (83 ∷ 68 ∷ 0 ∷ 110 ∷ 0 ∷ 1 ∷ 17 ∷ 112 ∷ 0 ∷ 0 ∷ 0 ∷ 2 ∷ 3 ∷ []) ++ (255 ∷ [])
unfolding encode
encode-hello = refl

next_cut_example :
    next (83 ∷ 68 ∷ 0 ∷ 110 ∷ 0 ∷ 1 ∷ 17 ∷ 112 ∷ 0 ∷ 0 ∷ 0 ∷ 2 ∷ 3 ∷ []) ≡ err unexpected_eof
next_cut_example =
    next_cut hello (83 ∷ 68 ∷ 0 ∷ 110 ∷ 0 ∷ 1 ∷ 17 ∷ 112 ∷ 0 ∷ 0 ∷ 0 ∷ 2 ∷ 3 ∷ []) [] 255
      hello-IsSendable encode-hello

-- Two players, the second dead.
abbrev first_state : PlayerState
first_state = record {
  uid = 100001;
  x = 0x41200000;
  y = 0;
  z = 0xc1200000;
  yaw = 0x3f800000;
  hp = 100;
  weapon = 1;
  alt = 0;
  block = 0x42480000;
  anim = 3;
  score = 2;
  deaths = 300;
}

abbrev second_state : PlayerState
second_state = record first_state { uid = 100002; hp = 0 }

decode_state-encode_state_example :
    decode_state (encode_state (first_state ∷ second_state ∷ []))
    ≡ some (first_state ∷ second_state ∷ [])
decode_state-encode_state_example =
    decode_state-encode_state (first_state ∷ second_state ∷ []) (ground arith) (omega arith)

abbrev one_byte : List ℕ
one_byte = 0 ∷ []

abbrev report : InputReport
report = record {
  move_x = 255;
  move_y = 1;
  yaw = 0x3f800000;
  buttons = 5;
  aim_x = 0x3f800000;
  aim_y = 0;
  x = 0x41200000;
  y = 0;
  z = 0xc1200000;
  weapon = 1;
  anim = 3;
}

abbrev event : HitEvent
event = record { shooter = 100001; target = 100002; damage = 25; headshot = false }

abbrev entries : List SettleEntry
entries = record { uid = 100001; score = 20 } ∷ record { uid = 100002; score = 300 } ∷ []

abbrev ann : List ℕ
ann = 65 ∷ 110 ∷ 110 ∷ []

abbrev secret : List ℕ
secret = 49 ∷ 50 ∷ []

abbrev friends : List FriendInfo
friends =
    record { uid = 100002; nickname = ann; online = true }
    ∷ record { uid = 100003; nickname = []; online = false }
    ∷ []

decode_friend_list-encode_friend_list_example :
    decode_friend_list (encode_friend_list friends) ≡ decoded friends
decode_friend_list-encode_friend_list_example =
    decode_friend_list-encode_friend_list friends (ground arith) (omega arith)

abbrev friend : FriendInfo
friend = record { uid = 100002; nickname = ann; online = true }

decode_friend_list_panics_example : decode_friend_list (2 ∷ (be32 100002 ++ str_bytes ann)) ≡ panic
decode_friend_list_panics_example = decode_friend_list_panics 2 friend (omega arith) (ground arith)
