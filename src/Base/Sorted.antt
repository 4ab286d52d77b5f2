-- ===== src/Base/Sorted.antt =====
-- Python's `sorted`, which is stable, and the order of `bytes`.
pub mod Ascending
pub mod Ranked
use tensor_po_w.Base.Tests.{ltb, ◌==◌, if◌then◌else◌, Bool-cases}
use tensor_po_w.Base.Lists.{length, All}
use tensor_po_w.Base.Bytes.{Bytes}
use Prim.Native.Nat.{suc}
use mathlib.Core.Path.{◌≡◌, refl, ap, ◌∙◌}
use mathlib.Core.Logic.{inl, inr}
use mathlib.Core.Bool.{Bool, true, false, ◌&&◌, ◌||◌}
use mathlib.Core.List.{List, [], ◌∷◌}
use native.Mathlib.Omega.{arith}

-- `<` between two `bytes`.
unfoldable pub blt : Bytes → Bytes → Bool
blt xs [] = false
blt [] (y ∷ ys) = true
blt (x ∷ xs) (y ∷ ys) = ltb x y || ((x == y) && blt xs ys)

module _ {ℓ} {A : Type ℓ} (before : A → A → Bool) where
  unfoldable pub insert : A → List A → List A
  insert x [] = x ∷ []
  insert x (y ∷ ys) = if before y x then y ∷ insert x ys else x ∷ (y ∷ ys)

  unfoldable pub sorted : List A → List A
  unfolding insert
  sorted [] = []
  sorted (x ∷ xs) = insert x (sorted xs)

  length-insert : (x : A) (ys : List A) → length (insert x ys) ≡ suc (length ys)
  unfolding insert
  length-insert x [] = refl
  length-insert x (y ∷ ys) = ground (arith, length-insert x ys)

  pub length-sorted : (xs : List A) → length (sorted xs) ≡ length xs
  unfolding sorted
  length-sorted [] = refl
  length-sorted (x ∷ xs) = length-insert x (sorted xs) ∙ ap suc (length-sorted xs)

  module _ {κ} (P : A → Type κ) where
    pub All-insert : (x : A) (ys : List A) → P x → All P ys → All P (insert x ys)
    unfolding insert
    All-insert x [] p h = (p, h)
    All-insert x (y ∷ ys) p (q, h) = elim (Bool-cases (before y x)) [
      | inl earlier ↦ rw earlier (q, All-insert x ys p h)
      | inr later ↦ rw later (p, (q, h))
    ]

    pub All-sorted : (xs : List A) → All P xs → All P (sorted xs)
    unfolding sorted
    All-sorted [] h = h
    All-sorted (x ∷ xs) (p, h) = All-insert x (sorted xs) p (All-sorted xs h)
