-- ===== src/Base/Sorted/Ranked.antt =====
-- `sorted` permutes its list, and ranks it where its test is a strict weak order; `<` between two
-- `bytes` is one.
use tensor_po_w.Base.Tests.{Bool-cases}
use tensor_po_w.Base.Lists.{All, All-map}
use tensor_po_w.Base.Bytes.{Bytes}
use tensor_po_w.Base.Sorted.{blt, insert, sorted, All-insert}
use mathlib.Core.Path.{◌≡◌, refl}
use mathlib.Core.Logic.{inl, inr}
use mathlib.Core.Bool.{Bool, true, false}
use mathlib.Core.List.{List, [], ◌∷◌, Perm}
use mathlib.Core.List.Perm
use native.Mathlib.Omega.{arith}

pub blt_asymm : (xs ys : Bytes) → blt xs ys ≡ true → blt ys xs ≡ false
unfolding blt
blt_asymm [] [] h = cc
blt_asymm (x ∷ xs) [] h = cc
blt_asymm [] (y ∷ ys) h = refl
blt_asymm (x ∷ xs) (y ∷ ys) h = ground (arith, blt_asymm xs ys)

-- What is not before what is not before a third is not before the third.
pub blt-false_trans : (xs ys zs : Bytes) → blt xs ys ≡ false → blt ys zs ≡ false → blt xs zs ≡ false
unfolding blt
blt-false_trans xs ys [] h k = refl
blt-false_trans xs [] (z ∷ zs) h k = cc
blt-false_trans [] (y ∷ ys) (z ∷ zs) h k = cc
blt-false_trans (x ∷ xs) (y ∷ ys) (z ∷ zs) h k = ground (arith, blt-false_trans xs ys zs)

module _ {ℓ} {A : Type ℓ} (before : A → A → Bool) where
  insert-perm : (x : A) (ys : List A) → Perm (insert before x ys) (x ∷ ys)
  unfolding insert
  insert-perm x [] = Perm.rfl
  insert-perm x (y ∷ ys) = elim (Bool-cases (before y x)) [
    | inl earlier ↦ rw earlier (Perm.trans (Perm.cons y (insert-perm x ys)) (Perm.swap x y ys))
    | inr later ↦ rw later Perm.rfl
  ]

  pub sorted-perm : (xs : List A) → Perm (sorted before xs) xs
  unfolding sorted
  sorted-perm [] = Perm.rfl
  sorted-perm (x ∷ xs) =
      Perm.trans (insert-perm x (sorted before xs)) (Perm.cons x (sorted-perm xs))

  -- No element comes before one that stands in front of it.
  abbrev pub Ranked : List A → Type 0
  Ranked [] = Unit {0}
  Ranked (x ∷ xs) = All (λ y. before y x ≡ false) xs × Ranked xs

  module _ (asymm : (x y : A) → before x y ≡ true → before y x ≡ false)
      (trans : (x y z : A) → before x y ≡ false → before y z ≡ false → before x z ≡ false) where
    insert-Ranked : (x : A) (ys : List A) → Ranked ys → Ranked (insert before x ys)
    unfolding insert
    insert-Ranked x [] h = (tt, tt)
    insert-Ranked x (y ∷ ys) (low, h) = elim (Bool-cases (before y x)) [
      | inl earlier ↦ rw earlier (
        All-insert before (λ z. before z y ≡ false) x ys (asymm y x earlier) low,
        insert-Ranked x ys h,
      )
      | inr later ↦ rw later ((later, All-map (λ z l. trans z y x l later) ys low), (low, h))
    ]

    pub sorted-Ranked : (xs : List A) → Ranked (sorted before xs)
    unfolding sorted
    sorted-Ranked [] = tt
    sorted-Ranked (x ∷ xs) = insert-Ranked x (sorted before xs) (sorted-Ranked xs)
