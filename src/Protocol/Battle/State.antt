-- ===== src/Protocol/Battle/State.antt =====
-- internal/protocol/battle.go: the broadcast of the players' states, `EncodeState`, `DecodeState`.
use lurkspire.Prelude.{
  ℕ, zero, suc, ◌+◌, ◌*◌, ◌<◌, ◌≤◌, ◌≡◌, refl, sym, ap, ◌∙◌, List, [], ◌∷◌, ◌++◌, none, some, arith,
  length, make, be16, be32, u8, put_at, byte_at, u16_at, u32_at, All, append_assoc, length-append,
  make-add, at_offset, ◌⊎◌, inl, inr, leb, Bool-cases,
}
use lurkspire.Protocol.Battle.{
  PlayerState, IsPlayerState, put_state, encode_state_loop, encode_state, get_state,
  decode_state_loop, decode_state,
}

-- The 36 bytes of a player; the last four are reserved.
abbrev pub state_bytes : PlayerState → List ℕ
state_bytes s =
    be32 s.uid
    ++ (be32 s.x
        ++ (be32 s.y
            ++ (be32 s.z
                ++ (be32 s.yaw
                    ++ (s.hp
                        ∷ s.weapon
                        ∷ s.alt
                        ∷ (be32 s.block
                            ++ (s.anim ∷ (be16 s.score ++ (be16 s.deaths ++ be32 0)))))))))

put_state-append :
    (pre post : List ℕ) (s : PlayerState)
    → put_state (length pre) s (pre ++ (make 36 ++ post)) ≡ pre ++ (state_bytes s ++ post)
unfolding put_state
put_state-append pre post s = simp at_offset (unfold put_at in refl)

get_state-append :
    (pre post : List ℕ) (s : PlayerState)
    → IsPlayerState s
    → get_state (pre ++ (state_bytes s ++ post)) (length pre) ≡ s
unfolding get_state
get_state-append pre post s h = simp at_offset (unfold u16_at u32_at byte_at in ground arith)

abbrev pub states_bytes : List PlayerState → List ℕ
states_bytes [] = []
states_bytes (s ∷ ss) = state_bytes s ++ states_bytes ss

encode_state_loop-append :
    (ss : List PlayerState) (i : ℕ) (pre : List ℕ)
    → length pre ≡ 1 + i * 36
    → encode_state_loop i ss (pre ++ make (length ss * 36)) ≡ pre ++ states_bytes ss
unfolding encode_state_loop
encode_state_loop-append [] i pre h = refl
encode_state_loop-append (s ∷ ss) i pre h =
    let room : make (length (s ∷ ss) * 36) ≡ make 36 ++ make (length ss * 36) =
      ap make (omega arith) ∙ make-add 36 (length ss * 36) in
    let next : List ℕ = pre ++ state_bytes s in
    rw
      (
        room,
        sym h,
        put_state-append pre (make (length ss * 36)) s,
        sym (append_assoc pre (state_bytes s) (make (length ss * 36))),
      )
      (encode_state_loop-append ss (i + 1) next (omega (arith, length-append pre (state_bytes s)))
        ∙ append_assoc pre (state_bytes s) (states_bytes ss))

-- The encoding is the count, cut to a byte, and the players' 36 bytes each, in order.
pub encode_state_lem : (ss : List PlayerState) → encode_state ss ≡ u8 (length ss) ∷ states_bytes ss
unfolding encode_state put_at
encode_state_lem ss =
    rw (make-add 1 (length ss * 36))
      (encode_state_loop-append ss 0 (u8 (length ss) ∷ []) (omega arith))

length-states_bytes : (ss : List PlayerState) → length (states_bytes ss) ≡ length ss * 36
length-states_bytes [] = omega arith
length-states_bytes (s ∷ ss) = omega (arith, length-states_bytes ss)

decode_state_loop-append :
    (ss : List PlayerState) (i : ℕ) (pre : List ℕ)
    → All IsPlayerState ss
    → length pre ≡ 1 + i * 36
    → decode_state_loop (length ss) i (pre ++ states_bytes ss) ≡ ss
unfolding decode_state_loop
decode_state_loop-append [] i pre a h = refl
decode_state_loop-append (s ∷ ss) i pre a h =
    let ih : decode_state_loop (length ss) (i + 1) (pre ++ (state_bytes s ++ states_bytes ss))
        ≡ ss =
      rw (append_assoc) at (
        decode_state_loop-append ss (i + 1) (pre ++ state_bytes s) a.1
          (omega (arith, length-append pre (state_bytes s)))) in
    rw (sym h, get_state-append pre (states_bytes ss) s a.0, ih)

-- Up to 255 players with fields in range are read back as they were sent, in order.
pub decode_state-encode_state :
    (ss : List PlayerState)
    → All IsPlayerState ss
    → length ss < 256
    → decode_state (encode_state ss) ≡ some ss
unfolding decode_state byte_at
decode_state-encode_state ss a h =
    let n : u8 (length ss) ≡ length ss = omega arith in
    rw (encode_state_lem ss, n)
      (ground (
        arith,
        length-states_bytes ss,
        decode_state_loop-append ss 0 (length ss ∷ []) a (omega arith),
      ))

length-decode_state_loop : (n i : ℕ) (b : List ℕ) → length (decode_state_loop n i b) ≡ n
unfolding decode_state_loop
length-decode_state_loop zero i b = refl
length-decode_state_loop (suc n) i b = ap suc (length-decode_state_loop n (i + 1) b)

-- On a body with the count `n`, `DecodeState` gives nil exactly if fewer than 36 bytes follow for
-- each player, and otherwise exactly `n` players.
pub decode_state_count :
    (n : ℕ) (b : List ℕ)
    → ((length b < n * 36) × (decode_state (n ∷ b) ≡ none))
      ⊎ ((n * 36 ≤ length b)
          × ((ss : List PlayerState) × (decode_state (n ∷ b) ≡ some ss) × (length ss ≡ n)))
unfolding decode_state byte_at
decode_state_count n b = elim (Bool-cases (leb (n * 36) (length b))) [
  | inl h ↦ inr (
    ground arith,
    (decode_state_loop n 0 (n ∷ b), ground arith, length-decode_state_loop n 0 (n ∷ b)),
  )
  | inr h ↦ inl (ground arith, ground arith)
]
