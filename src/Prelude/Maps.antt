-- ===== src/Prelude/Maps.antt =====
-- Go maps as association lists: a map's entries in one of the orders in which `range` may visit
-- them. Assignment to a present key keeps the entry's place.
use Prim.Native.Nat.{ℕ, suc, ◌≤◌}
use mathlib.Core.Path.{◌≡◌, refl, sym, subst, subst₂}
use mathlib.Core.Logic.{◌↔◌, inl, inr}
use mathlib.Core.Bool.{Bool, true, false}
use mathlib.Core.Option
use mathlib.Core.Option.{Option, none, some}
use mathlib.Core.List.{List, [], ◌∷◌}
use native.Mathlib.Omega.{arith}
use lurkspire.Prelude.Tests.{if◌then◌else◌, ◌==◌ as nat_beq, ==_iff, Bool-cases}
use lurkspire.Prelude.Lists.{length, All}

-- Equality of keys.
pub record Key (K : Type 0) : Type 0 where
  pub beq : K → K → Bool
  pub beq_iff : (a b : K) → (beq a b ≡ true) ↔ (a ≡ b)

instance abbrev pub nat_key : Key ℕ
nat_key = record { beq = nat_beq; beq_iff = ==_iff }

module _ {K V : Type 0} ⦃e : Key K⦄ where
  unfoldable pub lookup : K → List (K × V) → Option V
  lookup k [] = none
  lookup k ((j, v) ∷ m) = if e.beq j k then some v else lookup k m

  unfoldable pub insert : K → V → List (K × V) → List (K × V)
  insert k v [] = (k, v) ∷ []
  insert k v ((j, w) ∷ m) = if e.beq j k then (j, v) ∷ m else (j, w) ∷ insert k v m

  unfoldable pub erase : K → List (K × V) → List (K × V)
  erase k [] = []
  erase k ((j, w) ∷ m) = if e.beq j k then m else (j, w) ∷ erase k m

  -- A write through the pointer that the map holds for a key.
  unfoldable pub modify : K → (V → V) → List (K × V) → List (K × V)
  modify k f [] = []
  modify k f ((j, w) ∷ m) = if e.beq j k then (j, f w) ∷ m else (j, w) ∷ modify k f m

  -- No key has two entries.
  abbrev pub IsMap : List (K × V) → Type 0
  IsMap [] = Unit {0}
  IsMap ((k, v) ∷ m) = (lookup k m ≡ none) × IsMap m

  pub lookup-insert :
      (k j : K) (v : V) (m : List (K × V))
      → lookup j (insert k v m) ≡ (if e.beq k j then some v else lookup j m)
  unfolding lookup insert
  lookup-insert k j v [] = refl
  lookup-insert k j v ((i, w) ∷ m) =
      ground (arith, e.beq_iff k j, e.beq_iff i k, e.beq_iff i j, lookup-insert k j v m)

  pub lookup-modify :
      (k j : K) (f : V → V) (m : List (K × V))
      → lookup j (modify k f m) ≡ (if e.beq k j then Option.map f (lookup j m) else lookup j m)
  unfolding lookup modify
  lookup-modify k j f [] = ground arith
  lookup-modify k j f ((i, w) ∷ m) =
      ground (arith, e.beq_iff k j, e.beq_iff i k, e.beq_iff i j, lookup-modify k j f m)

  pub lookup-erase :
      (k j : K) (m : List (K × V))
      → IsMap m
      → lookup j (erase k m) ≡ (if e.beq k j then none else lookup j m)
  unfolding lookup erase
  lookup-erase k j [] h = ground arith
  lookup-erase k j ((i, w) ∷ m) h =
      ground (arith, e.beq_iff k j, e.beq_iff i k, e.beq_iff i j, lookup-erase k j m h.1)

  pub insert-IsMap : (k : K) (v : V) (m : List (K × V)) → IsMap m → IsMap (insert k v m)
  unfolding lookup insert
  insert-IsMap k v [] h = (refl, tt)
  insert-IsMap k v ((i, w) ∷ m) h =
      ground (arith, e.beq_iff i k, e.beq_iff k i, lookup-insert k i v m, insert-IsMap k v m h.1)

  pub modify-IsMap : (k : K) (f : V → V) (m : List (K × V)) → IsMap m → IsMap (modify k f m)
  unfolding lookup modify
  modify-IsMap k f [] h = tt
  modify-IsMap k f ((i, w) ∷ m) h =
      ground (arith, e.beq_iff i k, e.beq_iff k i, lookup-modify k i f m, modify-IsMap k f m h.1)

  pub erase-IsMap : (k : K) (m : List (K × V)) → IsMap m → IsMap (erase k m)
  unfolding lookup erase
  erase-IsMap k [] h = tt
  erase-IsMap k ((i, w) ∷ m) h =
      ground (arith, e.beq_iff i k, lookup-erase k i m h.1, erase-IsMap k m h.1)

  pub All-absent : (k : K) (m : List (K × V)) → lookup k m ≡ none → All (λ p. e.beq p.0 k ≡ false) m
  unfolding lookup
  All-absent k [] h = tt
  All-absent k ((i, w) ∷ m) h = elim (Bool-cases (e.beq i k)) [
    | inl t ↦ absurd (ground arith)
    | inr t ↦ (t, All-absent k m (ground arith))
  ]

  -- What a map keeps behind the deletion of a key has other keys.
  pub All-erase_other :
      (k : K) (m : List (K × V)) → IsMap m → All (λ p. e.beq p.0 k ≡ false) (erase k m)
  unfolding erase
  All-erase_other k [] h = tt
  All-erase_other k ((i, w) ∷ m) h = elim (Bool-cases (e.beq i k)) [
    | inl t ↦
        let same : i ≡ k = (e.beq_iff i k).0 t in
        rw t (All-absent k m (subst (λ (x : K). lookup x m ≡ none) same h.0))
    | inr t ↦ rw t (t, All-erase_other k m h.1)
  ]

  pub length-insert :
      (k : K) (v : V) (m : List (K × V))
      → lookup k m ≡ none
      → length (insert k v m) ≡ suc (length m)
  unfolding lookup insert
  length-insert k v [] h = refl
  length-insert k v ((i, w) ∷ m) h = ground (arith, length-insert k v m)

  pub length-modify : (k : K) (f : V → V) (m : List (K × V)) → length (modify k f m) ≡ length m
  unfolding modify
  length-modify k f [] = refl
  length-modify k f ((i, w) ∷ m) = ground (arith, length-modify k f m)

  pub length-erase : (k : K) (m : List (K × V)) → length (erase k m) ≤ length m
  unfolding erase
  length-erase k [] = omega arith
  length-erase k ((i, w) ∷ m) = ground (arith, length-erase k m)

  module _ (P : K × V → Type 0) where
    pub All-insert :
        (k : K) (v : V) (m : List (K × V))
        → All P m
        → ((j : K) → j ≡ k → P (j, v))
        → All P (insert k v m)
    unfolding insert
    All-insert k v [] h p = (p k refl, tt)
    All-insert k v ((i, w) ∷ m) h p = ground (arith, e.beq_iff i k, p i, All-insert k v m h.1 p)

    pub All-erase : (k : K) (m : List (K × V)) → All P m → All P (erase k m)
    unfolding erase
    All-erase k [] h = tt
    All-erase k ((i, w) ∷ m) h = ground (arith, All-erase k m h.1)

    pub All-modify :
        (k : K) (f : V → V) (m : List (K × V))
        → All P m
        → ((w : V) → P (k, w) → P (k, f w))
        → All P (modify k f m)
    unfolding modify
    All-modify k f [] h p = tt
    All-modify k f ((i, w) ∷ m) h p = elim (Bool-cases (e.beq i k)) [
      | inl t ↦
          let same : i ≡ k = (e.beq_iff i k).0 t in
          let here : P (i, f w) =
            subst (λ (x : K). P (x, f w)) (sym same) (p w (subst (λ (x : K). P (x, w)) same h.0)) in
          rw t (here, h.1)
      | inr t ↦ rw t (h.0, All-modify k f m h.1 p)
    ]

    pub All-lookup : (k : K) (v : V) (m : List (K × V)) → All P m → lookup k m ≡ some v → P (k, v)
    unfolding lookup
    All-lookup k v [] h q = cc
    All-lookup k v ((i, w) ∷ m) h q = elim (Bool-cases (e.beq i k)) [
      | inl t ↦ subst₂ (λ (x : K) (y : V). P (x, y)) ((e.beq_iff i k).0 t) (ground arith) h.0
      | inr t ↦ All-lookup k v m h.1 (ground arith)
    ]

module _ {K V : Type 0} ⦃e : Key K⦄ where
  All-lookup_tail :
      (k : K) (v : V) (m t : List (K × V))
      → lookup k t ≡ none
      → All (λ p. lookup p.0 t ≡ some p.1) m
      → All (λ p. lookup p.0 ((k, v) ∷ t) ≡ some p.1) m
  unfolding lookup
  All-lookup_tail k v [] t h a = tt
  All-lookup_tail k v ((i, w) ∷ m) t h a =
      (ground (arith, e.beq_iff k i, a.0), All-lookup_tail k v m t h a.1)

  -- In a map every entry is what its key finds.
  pub All-lookup_self : (m : List (K × V)) → IsMap m → All (λ p. lookup p.0 m ≡ some p.1) m
  unfolding lookup
  All-lookup_self [] h = tt
  All-lookup_self ((k, v) ∷ m) h =
      (ground (arith, e.beq_iff k k), All-lookup_tail k v m m h.0 (All-lookup_self m h.1))

  -- An assignment to a present key keeps the number of entries.
  pub length-insert_old :
      (k : K) (v w : V) (m : List (K × V)) → lookup k m ≡ some w → length (insert k v m) ≡ length m
  unfolding lookup insert
  length-insert_old k v w [] h = cc
  length-insert_old k v w ((i, u) ∷ m) h = ground (arith, length-insert_old k v w m)

  -- The assignment of the value that is there.
  pub insert_same : (k : K) (v : V) (m : List (K × V)) → lookup k m ≡ some v → insert k v m ≡ m
  unfolding lookup insert
  insert_same k v [] h = cc
  insert_same k v ((i, w) ∷ m) h = ground (arith, insert_same k v m)
