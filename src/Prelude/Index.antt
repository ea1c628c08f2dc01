-- ===== src/Prelude/Index.antt =====
-- Lists as arrays: the cell at an index, a write to it, and the first index of a cell with a property.
use Prim.Native.Nat.{ℕ, zero, suc}
use mathlib.Core.Path.{◌≡◌, refl, ap}
use mathlib.Core.Logic.{◌↔◌, inl, inr}
use mathlib.Core.Bool.{Bool, true, false, ◌&&◌}
use mathlib.Core.Option
use mathlib.Core.Option.{Option, none, some}
use mathlib.Core.List.{List, [], ◌∷◌, ◌++◌}
use native.Mathlib.Omega.{arith}
use lurkspire.Prelude.Tests.{if◌then◌else◌, ◌==◌, ==_iff, Option-cases}
use lurkspire.Prelude.Lists.{length}
use lurkspire.Prelude.Maps.{Key}

-- Equality of texts.
abbrev pub text_beq : List ℕ → List ℕ → Bool
text_beq [] [] = true
text_beq [] (y ∷ ys) = false
text_beq (x ∷ xs) [] = false
text_beq (x ∷ xs) (y ∷ ys) = x == y && text_beq xs ys

pub text_beq_iff : (a b : List ℕ) → (text_beq a b ≡ true) ↔ (a ≡ b)
text_beq_iff [] [] = (λ _. refl, λ _. refl)
text_beq_iff [] (y ∷ ys) = ground arith
text_beq_iff (x ∷ xs) [] = ground arith
text_beq_iff (x ∷ xs) (y ∷ ys) = ground (arith, ==_iff x y, text_beq_iff xs ys)

instance abbrev pub text_key : Key (List ℕ)
text_key = record { beq = text_beq; beq_iff = text_beq_iff }

module _ {A : Type 0} where
  abbrev pub nth : ℕ → List A → Option A
  nth i [] = none
  nth zero (x ∷ xs) = some x
  nth (suc i) (x ∷ xs) = nth i xs

  abbrev pub update_at : ℕ → (A → A) → List A → List A
  update_at i f [] = []
  update_at zero f (x ∷ xs) = f x ∷ xs
  update_at (suc i) f (x ∷ xs) = x ∷ update_at i f xs

  abbrev pub find : (A → Bool) → List A → Option A
  find p [] = none
  find p (x ∷ xs) = if p x then some x else find p xs

  abbrev pub index_of : (A → Bool) → List A → Option ℕ
  index_of p [] = none
  index_of p (x ∷ xs) = if p x then some 0 else Option.map suc (index_of p xs)

  -- A write to the first cell with a property.
  abbrev pub update_first : (A → Bool) → (A → A) → List A → List A
  update_first p f [] = []
  update_first p f (x ∷ xs) = if p x then f x ∷ xs else x ∷ update_first p f xs

  abbrev pub nth_opt : Option ℕ → List A → Option A
  nth_opt none xs = none
  nth_opt (some i) xs = nth i xs

  nth_opt-suc :
      (o : Option ℕ) (x : A) (xs : List A) → nth_opt (Option.map suc o) (x ∷ xs) ≡ nth_opt o xs
  nth_opt-suc none x xs = refl
  nth_opt-suc (some i) x xs = refl

  pub nth_opt-index_of : (p : A → Bool) (xs : List A) → nth_opt (index_of p xs) xs ≡ find p xs
  nth_opt-index_of p [] = refl
  nth_opt-index_of p (x ∷ xs) =
      ground (arith, nth_opt-suc (index_of p xs) x xs, nth_opt-index_of p xs)

  pub index_of-append :
      (p : A → Bool) (xs : List A) (x : A)
      → index_of p (xs ++ (x ∷ []))
        ≡ elim (index_of p xs) [ some i ↦ some i | none ↦ if p x then some (length xs) else none ]
  index_of-append p [] x = ground arith
  index_of-append p (y ∷ xs) x = ground (arith, index_of-append p xs x)

  pub index_of-update_at :
      (p : A → Bool) (f : A → A) (i : ℕ) (xs : List A)
      → ((x : A) → p (f x) ≡ p x)
      → index_of p (update_at i f xs) ≡ index_of p xs
  index_of-update_at p f i [] h = refl
  index_of-update_at p f zero (x ∷ xs) h = ground (arith, h x)
  index_of-update_at p f (suc i) (x ∷ xs) h = ground (arith, index_of-update_at p f i xs h)

  pub update_at-index_of :
      (p : A → Bool) (f : A → A) (i : ℕ) (xs : List A)
      → index_of p xs ≡ some i
      → update_at i f xs ≡ update_first p f xs
  update_at-index_of p f i [] h = absurd (ground arith)
  update_at-index_of p f zero (x ∷ xs) h = elim (Option-cases (index_of p xs)) [
    | inl e ↦ ground arith
    | inr (j, e) ↦ ground arith
  ]
  update_at-index_of p f (suc i) (x ∷ xs) h = elim (Option-cases (index_of p xs)) [
    | inl e ↦ ground arith
    | inr (j, e) ↦ ground (arith, update_at-index_of p f i xs)
  ]

  pub length-update_at : (i : ℕ) (f : A → A) (xs : List A) → length (update_at i f xs) ≡ length xs
  length-update_at i f [] = refl
  length-update_at zero f (x ∷ xs) = refl
  length-update_at (suc i) f (x ∷ xs) = ap suc (length-update_at i f xs)
