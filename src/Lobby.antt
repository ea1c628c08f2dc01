-- ===== src/Lobby.antt =====
-- internal/lobby/service.go: registration, login, tokens. bcrypt, HMAC-SHA256 and base64 are
-- parameters, and so is the store; a call of the clock or of the random source is an argument.
pub mod Token
pub mod Register
pub mod Tests
use lurkspire.Prelude.{
  ℕ, ◌+◌, ◌*◌, ◌/◌, ◌≡◌, List, [], ◌∷◌, ◌++◌, Option, none, some, Bool, true, false, ◌||◌, not,
  if◌then◌else◌, ltb, leb, length, take, drop, make, be32, put_at, u32_at, text_beq, ◌==◌, IsByte,
  All,
}
use lurkspire.Store.Users.{
  User, StoreError, account_exists, nickname_exists, not_found, driver_error, Returned, returned,
  failed,
}
use lurkspire.Store.Users.Catalogue.{Text, Equipment}
use lurkspire.Store.Interface.{Store}

-- The packages that the service calls. `hash_password` takes what the salt is drawn with; `none` is
-- an error.
pub record Crypto : Type 0 where
  pub hash_password : ℕ → Text → Option Text
  pub check_password : Text → Text → Bool
  pub mac : List ℕ → List ℕ → List ℕ
  pub b64_encode : List ℕ → Text
  pub b64_decode : Text → Option (List ℕ)

-- What their documentation says: a password matches its hash, a SHA-256 sum has 32 bytes, and base64
-- is decoded to what was encoded.
pub record IsCrypto (c : Crypto) : Type 0 where
  pub checks :
      (draw : ℕ) (password hash : Text)
      → c.hash_password draw password ≡ some hash
      → c.check_password hash password ≡ true
  pub mac_size : (key b : List ℕ) → length (c.mac key b) ≡ 32
  pub mac_bytes : (key b : List ℕ) → All IsByte (c.mac key b)
  pub decodes : (b : List ℕ) → All IsByte b → c.b64_decode (c.b64_encode b) ≡ some b

-- The errors of the package; `ErrBadInput` apart, other errors are passed on.
pub data LobbyError : Type 0 where
  account_taken nickname_taken bad_account bad_password bad_token bad_input : LobbyError
  passed_on : LobbyError

-- 24 * time.Hour, in seconds
abbrev pub token_ttl : ℕ
token_ttl = 86400

abbrev pub be64 : ℕ → List ℕ
be64 v = be32 (v / 4294967296) ++ be32 v

-- The big-endian read of eight bytes.
abbrev pub u64_at : List ℕ → ℕ → ℕ
u64_at b off = u32_at b off * 4294967296 + u32_at b (off + 4)

-- `int64(e) < now` for a time that is not negative.
abbrev pub expired : ℕ → ℕ → Bool
expired e now = leb 9223372036854775808 e || ltb e now

abbrev pub is_empty_text : Text → Bool
is_empty_text [] = true
is_empty_text (x ∷ xs) = false

abbrev pub lobby_error : StoreError → LobbyError
lobby_error account_exists = account_taken
lobby_error nickname_exists = nickname_taken
lobby_error not_found = passed_on
lobby_error driver_error = passed_on

-- `if err != nil { return ErrBadAccount }`
abbrev pub known : {A : Type 0} → Returned StoreError A → Returned LobbyError A
known (returned a) = returned a
known (failed e) = failed bad_account

-- The calls that are the store's.
module _ {S : Type 0} (store : Store S) where
  abbrev pub equipments : S → Returned StoreError (List Equipment)
  equipments s = store.list_equipments s

  abbrev pub equipment : ℕ → S → Returned StoreError Equipment
  equipment id s = store.get_equipment id s

  abbrev pub invite_friend : ℕ → ℕ → S → Returned StoreError (Unit {0}) × S
  invite_friend a b s = store.invite_friend a b s

  abbrev pub pending_friend_ids : ℕ → S → Returned StoreError (List ℕ)
  pending_friend_ids uid s = store.pending_friend_ids uid s

  abbrev pub accept_friend : ℕ → ℕ → S → Returned StoreError (Unit {0}) × S
  accept_friend uid other s = store.accept_friend uid other s

  abbrev pub reject_friend : ℕ → ℕ → S → Returned StoreError (Unit {0}) × S
  reject_friend uid other s = store.reject_friend uid other s

  abbrev pub friend_ids : ℕ → S → Returned StoreError (List ℕ)
  friend_ids uid s = store.friend_ids uid s

  abbrev pub set_equip : ℕ → ℕ → S → Returned StoreError (Unit {0}) × S
  set_equip uid equip s = store.set_equip uid equip s

module _ {S : Type 0} (store : Store S) (crypto : Crypto) (secret : List ℕ) where
  -- `Register`
  unfoldable pub register : ℕ → Text → Text → Text → S → Returned LobbyError ℕ × S
  register draw account password nickname s =
      if is_empty_text account
        || (ltb 64 (length account)
            || (is_empty_text password || (is_empty_text nickname || ltb 32 (length nickname))))
      then (failed bad_input, s)
      else elim (crypto.hash_password draw password) [
        | none ↦ (failed passed_on, s)
        | some hash ↦
            let u : User = record {
              id = 0;
              account = account;
              password_hash = hash;
              nickname = nickname;
              equip_id = 0;
            } in
            let (r, s') = store.create_user u s in
            elim r [ returned id ↦ (returned id, s') | failed e ↦ (failed (lobby_error e), s') ]
      ]

  -- `sign`, at a time in seconds.
  unfoldable pub sign : ℕ → ℕ → Text
  unfolding put_at
  sign now uid =
      let payload = put_at 4 (be64 (now + token_ttl)) (put_at 0 (be32 uid) (make 12)) in
      let sum = crypto.mac secret payload in
      crypto.b64_encode (put_at 12 sum (put_at 0 payload (make (12 + length sum))))

  -- `Login`
  unfoldable pub login : ℕ → Text → Text → S → Returned LobbyError Text
  login now account password s = elim (store.get_user_by_account account s) [
    | failed e ↦ elim e [ not_found ↦ failed bad_account | _ ↦ failed passed_on ]
    | returned u ↦
        if not (crypto.check_password u.password_hash password)
        then failed bad_password
        else returned (sign now u.id)
  ]

  -- `Verify` behind the decoding.
  unfoldable pub verify_raw : ℕ → List ℕ → S → Returned LobbyError ℕ
  unfolding u32_at
  verify_raw now raw s =
      if not (length raw == 44)
      then failed bad_token
      else if not (text_beq (crypto.mac secret (take 12 raw)) (drop 12 raw))
      then failed bad_token
      else if expired (u64_at raw 4) now
      then failed bad_token
      else elim (store.get_user_by_id (u32_at raw 0) s) [
        | failed e ↦ failed bad_token
        | returned u ↦ returned (u32_at raw 0)
      ]

  -- `Verify`
  unfoldable pub verify : ℕ → Text → S → Returned LobbyError ℕ
  verify now token s = elim (crypto.b64_decode token) [
    | none ↦ failed bad_token
    | some raw ↦ verify_raw now raw s
  ]

  -- `SearchByNickname`
  abbrev pub search_by_nickname : Text → S → Returned LobbyError User
  search_by_nickname nickname s = known (store.get_user_by_nickname nickname s)

  -- `Nickname`
  unfoldable pub nickname : ℕ → S → Returned LobbyError Text
  nickname uid s = elim (store.get_user_by_id uid s) [
    | failed e ↦ failed bad_account
    | returned u ↦ returned u.nickname
  ]

  -- `EquipID`
  unfoldable pub equip_id : ℕ → S → Returned LobbyError ℕ
  equip_id uid s = elim (store.get_user_by_id uid s) [
    | failed e ↦ failed bad_account
    | returned u ↦ returned u.equip_id
  ]
