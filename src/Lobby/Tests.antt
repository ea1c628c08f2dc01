-- ===== src/Lobby/Tests.antt =====
-- The theorems on internal/lobby with packages that hide nothing, and the store in memory.
use lurkspire.Prelude.{
  ℕ, ◌+◌, ◌≤◌, ◌≡◌, refl, List, [], ◌∷◌, some, arith, length, take, drop, make, text_beq,
  text_beq_iff, if◌then◌else◌, ltb, lookup, insert, text_key, nat_key, put_at, u32_at, byte_at,
}
use lurkspire.Store.Users.{
  User, MemStore, new_mem_store, create_user, returned, failed, get_user_by_id,
}
use lurkspire.Store.Users.Catalogue.{Text}
use lurkspire.Store.Users.Refines.{new_mem_store-IsStore}
use lurkspire.Store.Interface.{mem_store}
use lurkspire.Store.Interface.Laws.{IsValidStore, mem_store-IsLawful}
use lurkspire.Lobby.{
  Crypto, IsCrypto, bad_token, token_ttl, u64_at, register, login, sign, verify, verify_raw,
}
use lurkspire.Lobby.Token.{verify-sign, verify_sound}
use lurkspire.Lobby.Register.{register-login}

-- Packages that keep the laws: a hash is the password, a sum is 32 zeros, nothing is encoded.
abbrev pub toy_crypto : Crypto
toy_crypto = record {
  hash_password = λ draw password. some password;
  check_password = λ hash password. text_beq hash password;
  mac = λ key b. make 32;
  b64_encode = λ b. b;
  b64_decode = λ t. some t;
}

pub toy-IsCrypto : IsCrypto toy_crypto
toy-IsCrypto = record {
  checks = λ draw password hash e. ground (arith, text_beq_iff hash password);
  mac_size = λ key b. refl;
  mac_bytes = λ key b. ground arith;
  decodes = λ b h. refl;
}

abbrev pub account : Text
account = 97 ∷ 110 ∷ []

abbrev pub password : Text
password = 112 ∷ []

abbrev pub nick : Text
nick = 110 ∷ []

-- One user has registered.
abbrev pub one_user : MemStore
one_user = (register mem_store toy_crypto [] 0 account password nick new_mem_store).1

pub registered :
    register mem_store toy_crypto [] 0 account password nick new_mem_store ≡ (returned 1, one_user)
unfolding register create_user lookup insert
registered = refl

pub new-IsValid : IsValidStore new_mem_store
new-IsValid = (new_mem_store-IsStore, omega arith)

verify-sign_example :
    verify mem_store toy_crypto [] 1000 (sign mem_store toy_crypto [] 500 1) one_user ≡ (
      if ltb (500 + token_ttl) 1000 then failed bad_token else elim (get_user_by_id 1 one_user) [
        | failed e ↦ failed bad_token
        | returned u ↦ returned 1
      ])
verify-sign_example =
    verify-sign mem_store toy_crypto toy-IsCrypto [] 500 1000 1 one_user (omega arith) (omega arith)

abbrev pub token : Text
token = sign mem_store toy_crypto [] 500 1

pub accepted : verify mem_store toy_crypto [] 1000 token one_user ≡ returned 1
unfolding verify verify_raw sign put_at u32_at byte_at register create_user lookup insert
    get_user_by_id
accepted = refl

verify_sound_example :
    (raw : List ℕ) × (toy_crypto.b64_decode token ≡ some raw)
    × (length raw ≡ 44)
    × (drop 12 raw ≡ toy_crypto.mac [] (take 12 raw))
    × (u32_at raw 0 ≡ 1)
    × (1000 ≤ u64_at raw 4)
    × ((u : User) × (mem_store.get_user_by_id 1 one_user ≡ returned u))
verify_sound_example =
    verify_sound mem_store toy_crypto toy-IsCrypto [] 1000 token one_user 1 accepted

register-login_example :
    (t : Text) × (login mem_store toy_crypto [] 500 account password one_user ≡ returned t)
    × (verify mem_store toy_crypto [] 1000 t one_user ≡ returned 1)
register-login_example =
    register-login mem_store toy_crypto toy-IsCrypto [] IsValidStore mem_store-IsLawful 0 500 1000
      account password nick new_mem_store one_user 1 new-IsValid registered (omega arith)
      (omega arith)
