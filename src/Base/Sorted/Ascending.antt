-- ===== src/Base/Sorted/Ascending.antt =====
-- Strictly ascending lists of numbers, and what `sorted` makes of a list without duplicates.
use tensor_po_w.Base.Tests.{ltb, if◌then◌else◌, Bool-cases, ◌==◌, ==_iff, ltb→lt}
use tensor_po_w.Base.Lists.{All, All-map}
use tensor_po_w.Base.Dict.{nat_eq, member, no_duplicates}
use tensor_po_w.Base.Sorted.{insert, sorted, All-insert}
use Prim.Native.Nat.{ℕ, ◌<◌, ◌≤◌}
use mathlib.Core.Path.{◌≡◌, refl, sym, subst, ap, ap₂, ◌∙◌}
use mathlib.Core.Logic.{inl, inr}
use mathlib.Core.Bool.{true, false}
use mathlib.Core.List.{List, [], ◌∷◌}
use native.Mathlib.Omega.{arith}

abbrev Ordered : List ℕ → Type 0
Ordered [] = Unit {0}
Ordered (x ∷ xs) = All (λ y. x ≤ y) xs × Ordered xs

abbrev pub Ascending : List ℕ → Type 0
Ascending [] = Unit {0}
Ascending (x ∷ xs) = All (λ y. x < y) xs × Ascending xs

Ordered-insert : (x : ℕ) (xs : List ℕ) → Ordered xs → Ordered (insert ltb x xs)
unfolding insert
Ordered-insert x [] h = (tt, tt)
Ordered-insert x (y ∷ ys) (low, h) = elim (Bool-cases (ltb y x)) [
  | inl earlier ↦
      rw earlier (All-insert ltb (λ z. y ≤ z) x ys (ground arith) low, Ordered-insert x ys h)
  | inr later ↦
      let first : x ≤ y = ground arith in
      rw later ((first, All-map (λ z l. omega arith) ys low), (low, h))
]

Ordered-sorted : (xs : List ℕ) → Ordered (sorted ltb xs)
unfolding sorted
Ordered-sorted [] = tt
Ordered-sorted (x ∷ xs) = Ordered-insert x (sorted ltb xs) (Ordered-sorted xs)

strict : (x : ℕ) (xs : List ℕ) → member x xs ≡ false → All (λ y. x ≤ y) xs → All (λ y. x < y) xs
unfolding member
strict x [] h l = tt
strict x (y ∷ ys) h (first, l) = (ground arith, strict x ys (ground arith) l)

Ascending-of_Ordered : (xs : List ℕ) → no_duplicates xs ≡ true → Ordered xs → Ascending xs
unfolding no_duplicates
Ascending-of_Ordered [] h o = tt
Ascending-of_Ordered (x ∷ xs) h (low, o) =
    (strict x xs (ground arith) low, Ascending-of_Ordered xs (ground arith) o)

member-insert :
    (x y : ℕ) (ys : List ℕ) → member x (insert ltb y ys) ≡ (if x == y then true else member x ys)
unfolding member insert
member-insert x y [] = refl
member-insert x y (z ∷ ys) = ground (arith, member-insert x y ys)

pub member-sorted : (x : ℕ) (ys : List ℕ) → member x (sorted ltb ys) ≡ member x ys
unfolding member sorted
member-sorted x [] = refl
member-sorted x (y ∷ ys) = rw (member-insert x y (sorted ltb ys), member-sorted x ys) refl

no_duplicates-insert :
    (x : ℕ) (xs : List ℕ)
    → member x xs ≡ false
    → no_duplicates xs ≡ true
    → no_duplicates (insert ltb x xs) ≡ true
unfolding no_duplicates insert member
no_duplicates-insert x [] h d = refl
no_duplicates-insert x (y ∷ ys) h d =
    ground (arith, member-insert y x ys, no_duplicates-insert x ys (ground arith) (ground arith))

no_duplicates-sorted :
    (xs : List ℕ) → no_duplicates xs ≡ true → no_duplicates (sorted ltb xs) ≡ true
unfolding no_duplicates sorted
no_duplicates-sorted [] d = refl
no_duplicates-sorted (x ∷ xs) d =
    no_duplicates-insert x (sorted ltb xs) (member-sorted x xs ∙ ground arith)
      (no_duplicates-sorted xs (ground arith))

pub Ascending-sorted : (xs : List ℕ) → no_duplicates xs ≡ true → Ascending (sorted ltb xs)
Ascending-sorted xs d =
    Ascending-of_Ordered (sorted ltb xs) (no_duplicates-sorted xs d) (Ordered-sorted xs)

absent : (x : ℕ) (xs : List ℕ) → All (λ y. x < y) xs → member x xs ≡ false
unfolding member
absent x [] l = refl
absent x (y ∷ ys) (first, l) = ground (arith, absent x ys l)

pub Ascending-no_duplicates : (xs : List ℕ) → Ascending xs → no_duplicates xs ≡ true
unfolding no_duplicates
Ascending-no_duplicates [] h = refl
Ascending-no_duplicates (x ∷ xs) (low, h) =
    ground (arith, absent x xs low, Ascending-no_duplicates xs h)

insert_first : (x : ℕ) (xs : List ℕ) → All (λ y. x < y) xs → insert ltb x xs ≡ x ∷ xs
unfolding insert
insert_first x [] l = refl
insert_first x (y ∷ ys) (first, l) = ground arith

pub sorted-Ascending : (xs : List ℕ) → Ascending xs → sorted ltb xs ≡ xs
unfolding sorted
sorted-Ascending [] h = refl
sorted-Ascending (x ∷ xs) (low, h) =
    ap (insert ltb x) (sorted-Ascending xs h) ∙ insert_first x xs low

heads_eq :
    (x y : ℕ) (xs ys : List ℕ)
    → All (λ z. x < z) xs
    → All (λ z. y < z) ys
    → ((z : ℕ) → member z (x ∷ xs) ≡ member z (y ∷ ys))
    → x ≡ y
unfolding member
heads_eq x y xs ys lx ly same = elim (Bool-cases (x == y)) [
  | inl here ↦ (==_iff x y).0 here
  | inr apart ↦ elim (Bool-cases (ltb x y)) [
    | inl less ↦
        let missing = absent x ys (All-map (λ z l. omega (arith, ltb→lt x y less)) ys ly) in
        ground (arith, same x)
    | inr more ↦
        let missing = absent y xs (All-map (λ z l. ground arith) xs lx) in ground (arith, same y)
  ]
]

-- Ascending lists with the same members are equal.
pub Ascending-ext :
    (xs ys : List ℕ) → Ascending xs → Ascending ys → ((z : ℕ) → member z xs ≡ member z ys) → xs ≡ ys
unfolding member
Ascending-ext [] [] hx hy same = refl
Ascending-ext [] (y ∷ ys) hx hy same = ground (arith, same y)
Ascending-ext (x ∷ xs) [] hx hy same = ground (arith, same x)
Ascending-ext (x ∷ xs) (y ∷ ys) (lx, hx) (ly, hy) same =
    let first : x ≡ y = heads_eq x y xs ys lx ly same in
    let ly' : All (λ z. x < z) ys = subst (λ w. All (λ z. w < z) ys) (sym first) ly in
    ap₂ ◌∷◌ first (
      Ascending-ext xs ys hx hy (λ z. elim (Bool-cases (z == x)) [
        | inl here ↦ rw ((==_iff z x).0 here) (absent x xs lx ∙ sym (absent x ys ly'))
        | inr apart ↦
            let apart' : (z == y) ≡ false = ap (λ w. z == w) (sym first) ∙ apart in
            ground (arith, same z, apart')
      ]))
