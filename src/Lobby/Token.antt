-- ===== src/Lobby/Token.antt =====
-- internal/lobby/service.go: tokens.
use lurkspire.Prelude.{
  ℕ, ◌+◌, ◌<◌, ◌≤◌, ◌≡◌, refl, sym, ap, ◌∙◌, ◌⊎◌, inl, inr, List, [], ◌++◌, some, true, arith,
  if◌then◌else◌, ltb, IsU32, IsByte, All, All-append, length, take, drop, make, be32, put_at,
  u32_at, byte_at, append-nil, length-append, text_beq, text_beq_iff, put_at-make, Option-cases,
  Bool-cases,
}
use lurkspire.Store.Users.{User, Returned, returned, failed}
use lurkspire.Store.Users.Catalogue.{Text}
use lurkspire.Store.Interface.{Store}
use lurkspire.Lobby.{Crypto, IsCrypto, bad_token, token_ttl, be64, u64_at, sign, verify_raw, verify}

-- A time whose tokens expire before 2^63 seconds.
abbrev pub IsTime : ℕ → Type 0
IsTime now = now + token_ttl < 9223372036854775808

pub Returned-cases :
    {E A : Type 0} (r : Returned E A) → ((a : A) × (r ≡ returned a)) ⊎ ((e : E) × (r ≡ failed e))
Returned-cases (returned a) = inl (a, refl)
Returned-cases (failed e) = inr (e, refl)

module _ {S : Type 0} (store : Store S) (crypto : Crypto) (laws : IsCrypto crypto)
    (secret : List ℕ) where
  abbrev pub payload : ℕ → ℕ → List ℕ
  payload now uid = be32 uid ++ be64 (now + token_ttl)

  sign_lem :
      (now uid : ℕ)
      → sign store crypto secret now uid
        ≡ crypto.b64_encode (payload now uid ++ crypto.mac secret (payload now uid))
  unfolding sign
  sign_lem now uid =
      let p : List ℕ = payload now uid in
      let sum : List ℕ = crypto.mac secret p in
      let n : length sum ≡ 32 = laws.mac_size secret p in
      let front : put_at 0 p (make (12 + length sum)) ≡ p ++ make (length sum) =
        put_at-make [] p (12 + length sum) (length sum) refl in
      let whole : put_at 12 sum (p ++ make (length sum)) ≡ (p ++ sum) ++ [] =
        put_at-make p sum (length sum) 0 (omega arith) in
      ap crypto.b64_encode (ap (put_at 12 sum) front ∙ whole ∙ append-nil (p ++ sum))

  -- A token with the right signature is good for its user until its time.
  verify_raw-fields :
      (now uid time : ℕ) (raw : List ℕ) (s : S)
      → length raw ≡ 44
      → text_beq (crypto.mac secret (take 12 raw)) (drop 12 raw) ≡ true
      → u32_at raw 0 ≡ uid
      → u64_at raw 4 ≡ time
      → time < 9223372036854775808
      → verify_raw store crypto secret now raw s ≡ (
          if ltb time now then failed bad_token else elim (store.get_user_by_id uid s) [
            | failed e ↦ failed bad_token
            | returned u ↦ returned uid
          ])
  unfolding verify_raw
  verify_raw-fields now uid time raw s n same id at_time small =
      rw (n, same, at_time, id, verify_raw) (ground arith)

  verify_raw-payload :
      (now now' uid : ℕ) (s : S)
      → IsU32 uid
      → IsTime now
      → verify_raw store crypto secret now'
          (payload now uid ++ crypto.mac secret (payload now uid))
          s
        ≡ (if ltb (now + token_ttl) now'
            then failed bad_token
            else elim (store.get_user_by_id uid s) [
              | failed e ↦ failed bad_token
              | returned u ↦ returned uid
            ])
  verify_raw-payload now now' uid s h t =
      let p : List ℕ = payload now uid in
      let sum : List ℕ = crypto.mac secret p in
      verify_raw-fields now' uid (now + token_ttl) (p ++ sum) s
        (omega (arith, length-append p sum, laws.mac_size secret p)) ((text_beq_iff sum sum).1 refl)
        (unfold u32_at byte_at in ground arith) (unfold u32_at byte_at in ground arith) t

  verify_raw_sound :
      (now : ℕ) (raw : List ℕ) (s : S) (uid : ℕ)
      → verify_raw store crypto secret now raw s ≡ returned uid
      → (length raw ≡ 44)
        × (drop 12 raw ≡ crypto.mac secret (take 12 raw))
        × (u32_at raw 0 ≡ uid)
        × (now ≤ u64_at raw 4)
        × ((u : User) × (store.get_user_by_id uid s ≡ returned u))
  unfolding verify_raw
  verify_raw_sound now raw s uid e =
      elim (Bool-cases (text_beq (crypto.mac secret (take 12 raw)) (drop 12 raw))) [
        | inr b ↦ absurd (ground arith)
        | inl b ↦ elim (Returned-cases (store.get_user_by_id (u32_at raw 0) s)) [
          | inr (x, q) ↦ absurd (ground arith)
          | inl (u, q) ↦
              let id : u32_at raw 0 ≡ uid = ground arith in
              (
                ground arith,
                sym ((text_beq_iff (crypto.mac secret (take 12 raw)) (drop 12 raw)).0 b),
                id,
                ground arith,
                (u, ap (λ k. store.get_user_by_id k s) (sym id) ∙ q),
              )
        ]
      ]

  -- A token is good for its user, if the user is known, up to 24 hours after it was signed, and for
  -- nobody afterwards.
  pub verify-sign :
      (now now' uid : ℕ) (s : S)
      → IsU32 uid
      → IsTime now
      → verify store crypto secret now' (sign store crypto secret now uid) s ≡ (
          if ltb (now + token_ttl) now'
          then failed bad_token
          else elim (store.get_user_by_id uid s) [
            | failed e ↦ failed bad_token
            | returned u ↦ returned uid
          ])
  unfolding verify
  verify-sign now now' uid s h t =
      let p : List ℕ = payload now uid in
      let sum : List ℕ = crypto.mac secret p in
      let bytes : All IsByte (p ++ sum) =
        All-append IsByte p sum (ground arith) (laws.mac_bytes secret p) in
      let back : crypto.b64_decode (sign store crypto secret now uid) ≡ some (p ++ sum) =
        ap crypto.b64_decode (sign_lem now uid) ∙ laws.decodes (p ++ sum) bytes in
      rw (back, verify) (verify_raw-payload now now' uid s h t)

  -- A token that is accepted decodes to twelve bytes and their signature under the secret; it is
  -- accepted for the user whom the first four bytes name, who is known, and not after the time that
  -- the other eight say.
  pub verify_sound :
      (now : ℕ) (token : Text) (s : S) (uid : ℕ)
      → verify store crypto secret now token s ≡ returned uid
      → (raw : List ℕ) × (crypto.b64_decode token ≡ some raw)
        × (length raw ≡ 44)
        × (drop 12 raw ≡ crypto.mac secret (take 12 raw))
        × (u32_at raw 0 ≡ uid)
        × (now ≤ u64_at raw 4)
        × ((u : User) × (store.get_user_by_id uid s ≡ returned u))
  unfolding verify
  verify_sound now token s uid e = elim (Option-cases (crypto.b64_decode token)) [
    | inl q ↦ absurd (ground arith)
    | inr (raw, q) ↦
        let v : verify_raw store crypto secret now raw s ≡ returned uid = ground arith in
        let (a, b, c, d, f) = verify_raw_sound now raw s uid v in (raw, q, a, b, c, d, f)
  ]
