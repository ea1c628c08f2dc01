-- ===== src/Gateway/Registry/Running.antt =====
-- internal/room/room.go: what the room manager knows.
use lurkspire.Prelude.{
  ℕ, ◌+◌, ◌<◌, ◌≡◌, sym, ap, ◌∙◌, inl, inr, List, some, false, arith, All, All-map2, All-insert,
  All-erase, All-erase_other, All-absent, none, All-lookup, Bool-cases, ◌==◌, ==_iff, text_beq,
  text_beq_iff, lookup, insert, erase, IsMap, insert-IsMap, erase-IsMap, lookup-insert,
  lookup-erase, nat_key, text_key,
}
use lurkspire.Store.Users.Catalogue.{Text}
use lurkspire.Room.State.{Room}
use lurkspire.Gateway.State.{RoomMeta}
use lurkspire.Room.Loop.Invariant.{IsRoom}

abbrev pub IsOrderly : ℕ × Room → Type 0
IsOrderly e = IsRoom e.1

abbrev pub IsOlder : ℕ → ℕ × Room → Type 0
IsOlder next e = e.0 < next

-- A name that leads to a room which runs under this name.
abbrev pub IsRunning : List (ℕ × Room) → Text × ℕ → Type 0
IsRunning rooms e = (r : Room) × (lookup e.1 rooms ≡ some r) × (r.id ≡ e.0)

-- A listed name that the manager has.
abbrev pub IsShown : List (Text × ℕ) → Text × RoomMeta → Type 0
IsShown manager e = (k : ℕ) × (lookup e.0 manager ≡ some k)

-- Rooms that run, each in order, with handles that are given out in turn, and a table in which every
-- name leads to a room of this name, and has every name of the list.
pub record IsManager (manager : List (Text × ℕ)) (rooms : List (ℕ × Room)) (next : ℕ)
    (metas : List (Text × RoomMeta)) : Type 0 where
  pub orderly : All IsOrderly rooms
  pub older : All (IsOlder next) rooms
  pub distinct : IsMap rooms
  pub names : IsMap manager
  pub running : All (IsRunning rooms) manager
  pub listed : IsMap metas
  pub shown : All (IsShown manager) metas

module _ (manager : List (Text × ℕ)) (rooms : List (ℕ × Room)) (next : ℕ)
    (metas : List (Text × RoomMeta)) (h : IsManager manager rooms next metas) where
  IsRunning-insert :
      (k : ℕ) (r r' : Room) (e : Text × ℕ)
      → lookup k rooms ≡ some r
      → r'.id ≡ r.id
      → IsRunning rooms e
      → IsRunning (insert k r' rooms) e
  IsRunning-insert k r r' e q same (x, found, id) = elim (Bool-cases (k == e.1)) [
    | inl b ↦
        let one : some r ≡ some x =
          sym q ∙ (ap (λ j. lookup j rooms) ((==_iff k e.1).0 b) ∙ found) in
        (r', ground (arith, lookup-insert k e.1 r' rooms, b), ground (arith, one, same, id))
    | inr b ↦ (x, ground (arith, lookup-insert k e.1 r' rooms, b, found), id)
  ]

  -- A room that has taken a message.
  pub insert-IsManager :
      (k : ℕ) (r r' : Room)
      → lookup k rooms ≡ some r
      → r'.id ≡ r.id
      → IsRoom r'
      → IsManager manager (insert k r' rooms) next metas
  insert-IsManager k r r' q same good =
      let low : k < next = All-lookup (IsOlder next) k r rooms h.older q in
      record {
        orderly = All-insert IsOrderly k r' rooms h.orderly (λ j p. good);
        older = All-insert (IsOlder next) k r' rooms h.older (λ j p. omega (arith, low, p));
        distinct = insert-IsMap k r' rooms h.distinct;
        names = h.names;
        running =
            All-map2 (IsRunning rooms) (IsRunning rooms) (IsRunning (insert k r' rooms)) manager
              (λ e a b. IsRunning-insert k r r' e q same a) h.running h.running;
        listed = h.listed;
        shown = h.shown;
      }

  IsShown-insert :
      (name : Text) (k : ℕ) (e : Text × RoomMeta)
      → IsShown manager e
      → IsShown (insert name k manager) e
  IsShown-insert name k e (j, q) = elim (Bool-cases (text_beq name e.0)) [
    | inl b ↦ (k, ground (arith, lookup-insert name e.0 k manager, b))
    | inr b ↦ (j, ground (arith, lookup-insert name e.0 k manager, b, q))
  ]

  -- `CreateRoom` for a name that is free.
  pub create-IsManager :
      (name : Text) (r : Room)
      → r.id ≡ name
      → IsRoom r
      → IsManager (insert name next manager) (insert next r rooms) (next + 1) metas
  create-IsManager name r id good =
      let new : lookup next (insert next r rooms) ≡ some r =
        ground (arith, lookup-insert next next r rooms, ==_iff next next) in
      let kept : (e : Text × ℕ) → IsRunning rooms e → IsRunning (insert next r rooms) e = λ e a.
        let low : e.1 < next = All-lookup (IsOlder next) e.1 a.0 rooms h.older a.1 in
        (a.0, ground (arith, lookup-insert next e.1 r rooms, a.1, low), a.2) in
      record {
        orderly = All-insert IsOrderly next r rooms h.orderly (λ j p. good);
        older =
            All-insert (IsOlder (next + 1)) next r rooms
              (All-map2 (IsOlder next) (IsOlder next) (IsOlder (next + 1)) rooms
                (λ e a b. omega arith) h.older h.older)
              (λ j p. omega (arith, p));
        distinct = insert-IsMap next r rooms h.distinct;
        names = insert-IsMap name next manager h.names;
        running =
            All-insert (IsRunning (insert next r rooms)) name next manager
              (All-map2 (IsRunning rooms) (IsRunning rooms) (IsRunning (insert next r rooms))
                manager (λ e a b. kept e a) h.running h.running)
              (λ j p. (r, new, id ∙ sym p));
        listed = h.listed;
        shown =
            All-map2 (IsShown manager) (IsShown manager) (IsShown (insert name next manager)) metas
              (λ e a b. IsShown-insert name next e a) h.shown h.shown;
      }

  -- `DestroyRoom` for a name that is there.
  pub destroy-IsManager :
      (name : Text) (k : ℕ)
      → lookup name manager ≡ some k
      → lookup name metas ≡ none
      → IsManager (erase name manager) (erase k rooms) next metas
  destroy-IsManager name k q gone =
      let own : IsRunning rooms (name, k) =
        All-lookup (IsRunning rooms) name k manager h.running q in
      let kept : (e : Text × ℕ)
          → IsRunning rooms e
          → text_beq e.0 name ≡ false
          → IsRunning (erase k rooms) e =
        λ e a other.
          let apart : (k == e.1) ≡ false = elim (Bool-cases (k == e.1)) [
            | inr b ↦ b
            | inl b ↦
                let one : some own.0 ≡ some a.0 =
                  sym own.1 ∙ (ap (λ j. lookup j rooms) ((==_iff k e.1).0 b) ∙ a.1) in
                let same : e.0 ≡ name = ground (arith, one, own.2, a.2) in
                absurd (ground (arith, other, (text_beq_iff e.0 name).1 same))
          ] in
          (a.0, ground (arith, lookup-erase k e.1 rooms h.distinct, apart, a.1), a.2) in
      record {
        orderly = All-erase IsOrderly k rooms h.orderly;
        older = All-erase (IsOlder next) k rooms h.older;
        distinct = erase-IsMap k rooms h.distinct;
        names = erase-IsMap name manager h.names;
        running =
            All-map2 (IsRunning rooms) (λ e. text_beq e.0 name ≡ false) (IsRunning (erase k rooms))
              (erase name manager) kept (All-erase (IsRunning rooms) name manager h.running)
              (All-erase_other name manager h.names);
        listed = h.listed;
        shown =
            All-map2 (IsShown manager) (λ e. text_beq e.0 name ≡ false)
              (IsShown (erase name manager)) metas
              (λ e a other. (
                a.0,
                ground (
                  arith,
                  lookup-erase name e.0 manager h.names,
                  text_beq_iff name e.0,
                  text_beq_iff e.0 name,
                  other,
                  a.1,
                ),
              ))
              h.shown (All-absent name metas gone);
      }

  -- `add` for a name that the manager has, and `remove`.
  pub list-IsManager :
      (name : Text) (m : RoomMeta) (k : ℕ)
      → lookup name manager ≡ some k
      → IsManager manager rooms next (insert name m metas)
  list-IsManager name m k q = record {
    orderly = h.orderly;
    older = h.older;
    distinct = h.distinct;
    names = h.names;
    running = h.running;
    listed = insert-IsMap name m metas h.listed;
    shown = All-insert (IsShown manager) name m metas h.shown (λ j p. (k, ground (arith, p, q)));
  }

  pub unlist-IsManager : (name : Text) → IsManager manager rooms next (erase name metas)
  unlist-IsManager name = record {
    orderly = h.orderly;
    older = h.older;
    distinct = h.distinct;
    names = h.names;
    running = h.running;
    listed = erase-IsMap name metas h.listed;
    shown = All-erase (IsShown manager) name metas h.shown;
  }
