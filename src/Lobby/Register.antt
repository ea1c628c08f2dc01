-- ===== src/Lobby/Register.antt =====
-- internal/lobby/service.go: from a registration to a login to a session.
use lurkspire.Prelude.{
  ℕ, ◌+◌, ◌≤◌, ◌≡◌, refl, ◌∙◌, inl, inr, true, arith, List, IsU32, Option-cases,
}
use lurkspire.Store.Users.{User, returned}
use lurkspire.Store.Users.Catalogue.{Text}
use lurkspire.Store.Interface.{Store}
use lurkspire.Store.Interface.Laws.{IsLawful}
use lurkspire.Lobby.{Crypto, IsCrypto, token_ttl, register, login, sign, verify}
use lurkspire.Lobby.Token.{IsTime, verify-sign, Returned-cases}

module _ {S : Type 0} (store : Store S) (crypto : Crypto) (laws : IsCrypto crypto) (secret : List ℕ)
    (IsValid : S → Type 0) (lawful : IsLawful store IsValid) where
  -- A registration that succeeds has stored a user with a hash of the password.
  register_ok :
      (draw : ℕ) (account password nickname : Text) (s s' : S) (uid : ℕ)
      → IsValid s
      → register store crypto secret draw account password nickname s ≡ (returned uid, s')
      → IsU32 uid
        × ((u : User) × (store.get_user_by_account account s' ≡ returned u)
            × (store.get_user_by_id uid s' ≡ returned u)
            × (u.id ≡ uid)
            × (crypto.check_password u.password_hash password ≡ true))
  unfolding register
  register_ok draw account password nickname s s' uid v e =
      elim (Option-cases (crypto.hash_password draw password)) [
        | inl q ↦ absurd (ground arith)
        | inr (hash, q) ↦
            let u : User = record {
              id = 0;
              account = account;
              password_hash = hash;
              nickname = nickname;
              equip_id = 0;
            } in
            elim (Returned-cases (store.create_user u s).0) [
              | inr (x, r) ↦ absurd (ground arith)
              | inl (id, r) ↦
                  let made : store.create_user u s ≡ (returned uid, s') = ground arith in
                  (
                    (lawful.created_id u uid s s' v refl made).0,
                    (
                      record u { id = uid },
                      lawful.created_account u uid s s' v refl made,
                      (lawful.created_id u uid s s' v refl made).1,
                      refl,
                      laws.checks draw password hash q,
                    ),
                  )
            ]
      ]

  -- In a valid store, a player who has registered logs in with the same account and password, and
  -- the token that the login answers is good for the id of the registration for 24 hours.
  pub register-login :
      (draw now now' : ℕ) (account password nickname : Text) (s s' : S) (uid : ℕ)
      → IsValid s
      → register store crypto secret draw account password nickname s ≡ (returned uid, s')
      → IsTime now
      → now' ≤ now + token_ttl
      → (token : Text) × (login store crypto secret now account password s' ≡ returned token)
        × (verify store crypto secret now' token s' ≡ returned uid)
  unfolding login
  register-login draw now now' account password nickname s s' uid v e t h =
      let (small, (u, by_account, by_id, id, ok)) =
        register_ok draw account password nickname s s' uid v e in
      let good = verify-sign store crypto laws secret now now' uid s' small t in
      (
        sign store crypto secret now uid,
        rw (by_account, login) (rw (ok, id) refl),
        good ∙ ground arith,
      )
