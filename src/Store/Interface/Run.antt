-- ===== src/Store/Interface/Run.antt =====
-- internal/store/store.go: runs of the operations of the interface `Store`, on any implementation.
use mathlib.Core.List.{Perm}
use lurkspire.Prelude.{ℕ, ◌≡◌, List, [], ◌∷◌}
use lurkspire.Store.Users.{User, StoreError, Returned, returned}
use lurkspire.Store.Users.Catalogue.{Text, Equipment}
use lurkspire.Store.Interface.{Store}

pub data StoreCall : Type 0 where
  creates_user : User → StoreCall
  gets_user_by_account gets_user_by_nickname : Text → StoreCall
  gets_user_by_id : ℕ → StoreCall
  sets_equip : ℕ → ℕ → StoreCall
  lists_equipments : StoreCall
  gets_equipment : ℕ → StoreCall
  invites_friend accepts_friend rejects_friend : ℕ → ℕ → StoreCall
  asks_pending_ids asks_friend_ids : ℕ → StoreCall

pub data StoreAnswer : Type 0 where
  id_of : Returned StoreError ℕ → StoreAnswer
  user_of : Returned StoreError User → StoreAnswer
  done : Returned StoreError (Unit {0}) → StoreAnswer
  equipments_of : Returned StoreError (List Equipment) → StoreAnswer
  equipment_of : Returned StoreError Equipment → StoreAnswer
  ids_of : Returned StoreError (List ℕ) → StoreAnswer

module _ {S : Type 0} (store : Store S) where
  unfoldable pub store_call : StoreCall → S → StoreAnswer × S
  store_call (creates_user u) s = let (r, s') = store.create_user u s in (id_of r, s')
  store_call (gets_user_by_account k) s = (user_of (store.get_user_by_account k s), s)
  store_call (gets_user_by_nickname k) s = (user_of (store.get_user_by_nickname k s), s)
  store_call (gets_user_by_id id) s = (user_of (store.get_user_by_id id s), s)
  store_call (sets_equip id equip) s = let (r, s') = store.set_equip id equip s in (done r, s')
  store_call lists_equipments s = (equipments_of (store.list_equipments s), s)
  store_call (gets_equipment id) s = (equipment_of (store.get_equipment id s), s)
  store_call (invites_friend a b) s = let (r, s') = store.invite_friend a b s in (done r, s')
  store_call (accepts_friend uid other) s =
      let (r, s') = store.accept_friend uid other s in (done r, s')
  store_call (rejects_friend uid other) s =
      let (r, s') = store.reject_friend uid other s in (done r, s')
  store_call (asks_pending_ids uid) s = (ids_of (store.pending_friend_ids uid s), s)
  store_call (asks_friend_ids uid) s = (ids_of (store.friend_ids uid s), s)

  unfoldable pub store_answers : List StoreCall → S → List StoreAnswer
  store_answers [] s = []
  store_answers (c ∷ cs) s = let (a, s') = store_call c s in a ∷ store_answers cs s'

-- Two answers that are equal, but for the order of the ids in a list.
pub data IsSameAnswer (a b : StoreAnswer) : Type 0 where
  equal : a ≡ b → IsSameAnswer a b
  reordered :
      (xs ys : List ℕ)
      → a ≡ ids_of (returned xs)
      → b ≡ ids_of (returned ys)
      → Perm xs ys
      → IsSameAnswer a b

abbrev pub AreSameAnswers : List StoreAnswer → List StoreAnswer → Type 0
AreSameAnswers [] [] = Unit {0}
AreSameAnswers [] (b ∷ bs) = ⊥
AreSameAnswers (a ∷ rest) [] = ⊥
AreSameAnswers (a ∷ rest) (b ∷ bs) = IsSameAnswer a b × AreSameAnswers rest bs
