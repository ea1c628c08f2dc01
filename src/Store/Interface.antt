-- ===== src/Store/Interface.antt =====
-- internal/store/store.go: the interface `Store` over a state that its implementation chooses, and
-- `MemStore` as one of its implementations.
pub mod Laws
pub mod Run
use lurkspire.Prelude.{ℕ, List}
use lurkspire.Store.Friends.{
  invite_friend, pending_friend_ids, accept_friend, reject_friend, friend_ids,
}
use lurkspire.Store.Users.{
  User, StoreError, Returned, returned, MemStore, create_user, get_user_by_account,
  get_user_by_nickname, get_user_by_id, set_equip, get_equipment, list_equipments,
}
use lurkspire.Store.Users.Catalogue.{Text, Equipment}

pub record Store (S : Type 0) : Type 0 where
  pub create_user : User → S → Returned StoreError ℕ × S
  pub get_user_by_account : Text → S → Returned StoreError User
  pub get_user_by_nickname : Text → S → Returned StoreError User
  pub get_user_by_id : ℕ → S → Returned StoreError User
  pub set_equip : ℕ → ℕ → S → Returned StoreError (Unit {0}) × S
  pub list_equipments : S → Returned StoreError (List Equipment)
  pub get_equipment : ℕ → S → Returned StoreError Equipment
  pub invite_friend : ℕ → ℕ → S → Returned StoreError (Unit {0}) × S
  pub pending_friend_ids : ℕ → S → Returned StoreError (List ℕ)
  pub accept_friend : ℕ → ℕ → S → Returned StoreError (Unit {0}) × S
  pub reject_friend : ℕ → ℕ → S → Returned StoreError (Unit {0}) × S
  pub friend_ids : ℕ → S → Returned StoreError (List ℕ)

abbrev pub mem_store : Store MemStore
mem_store = record {
  create_user = create_user;
  get_user_by_account = get_user_by_account;
  get_user_by_nickname = get_user_by_nickname;
  get_user_by_id = get_user_by_id;
  set_equip = set_equip;
  list_equipments = λ m. returned (list_equipments m);
  get_equipment = get_equipment;
  invite_friend = λ a b m. (returned tt, record m { friends = invite_friend a b m.friends });
  pending_friend_ids = λ uid m. returned (pending_friend_ids uid m.friends);
  accept_friend =
      λ uid other m. (returned tt, record m { friends = accept_friend uid other m.friends });
  reject_friend =
      λ uid other m. (returned tt, record m { friends = reject_friend uid other m.friends });
  friend_ids = λ uid m. returned (friend_ids uid m.friends);
}
