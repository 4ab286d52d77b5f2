-- ===== src/Base/Lists.antt =====
-- Lists measured and sliced by native numbers, under the library's names.
use mathlib.Core.Logic.{◌≢◌}
use Prim.Native.Nat.{◌<◌, ℕ, zero, suc, ◌+◌, ◌-◌, ◌≤◌}
use mathlib.Core.Path.{◌≡◌, refl, ap, sym, ◌∙◌}
use mathlib.Core.Option.{Option, none, some}
use mathlib.Core.List.{List, [], ◌∷◌, ◌++◌}
use native.Mathlib.Nat.{zero-add, add-zero, suc-add}
use native.Mathlib.Omega.{arith}

module _ {ℓ} {A : Type ℓ} where
  abbrev pub length : List A → ℕ
  length [] = 0
  length (x ∷ xs) = suc (length xs)

  abbrev pub take : ℕ → List A → List A
  take zero xs = []
  take (suc n) [] = []
  take (suc n) (x ∷ xs) = x ∷ take n xs

  abbrev pub drop : ℕ → List A → List A
  drop zero xs = xs
  drop (suc n) [] = []
  drop (suc n) (x ∷ xs) = drop n xs

  -- Python's `x[i]`, for `i` from 0 on; `none` is its IndexError.
  abbrev pub get_elem? : List A → ℕ → Option A
  get_elem? [] i = none
  get_elem? (x ∷ xs) zero = some x
  get_elem? (x ∷ xs) (suc i) = get_elem? xs i

  -- Python's `x[i:j]`.
  abbrev pub slice : ℕ → ℕ → List A → List A
  slice i j xs = take (j - i) (drop i xs)

  abbrev pub replicate : ℕ → A → List A
  replicate zero a = []
  replicate (suc n) a = a ∷ replicate n a

  -- A predicate on each element.
  abbrev pub All {κ} : (A → Type κ) → List A → Type κ
  All P [] = Unit {κ}
  All P (x ∷ xs) = P x × All P xs

  abbrev pub concat : List (List A) → List A
  concat [] = []
  concat (x ∷ xs) = x ++ concat xs

module _ {ℓ} {A : Type ℓ} where
  pub length-append : (xs ys : List A) → length (xs ++ ys) ≡ length xs + length ys
  length-append [] ys = omega arith
  length-append (x ∷ xs) ys = omega (arith, length-append xs ys)

  pub get_elem?-ne-none : (xs : List A) (i : ℕ) → i < length xs → get_elem? xs i ≢ none
  get_elem?-ne-none [] i h e = absurd (omega arith)
  get_elem?-ne-none (x ∷ xs) zero h e = cc
  get_elem?-ne-none (x ∷ xs) (suc i) h e = get_elem?-ne-none xs i (omega arith) e

  pub take-append-drop : (n : ℕ) (xs : List A) → take n xs ++ drop n xs ≡ xs
  take-append-drop zero xs = refl
  take-append-drop (suc n) [] = refl
  take-append-drop (suc n) (x ∷ xs) = ap (◌∷◌ x) (take-append-drop n xs)

  pub length-take : (n : ℕ) (xs : List A) → n ≤ length xs → length (take n xs) ≡ n
  length-take zero xs h = refl
  length-take (suc n) [] h = absurd (omega arith)
  length-take (suc n) (x ∷ xs) h = ap suc (length-take n xs (omega arith))

  pub length-drop : (n : ℕ) (xs : List A) → length (drop n xs) ≡ length xs - n
  length-drop zero xs = omega arith
  length-drop (suc n) [] = omega arith
  length-drop (suc n) (x ∷ xs) = omega (arith, length-drop n xs)

  pub take-append : (xs ys : List A) (n : ℕ) → length xs ≡ n → take n (xs ++ ys) ≡ xs
  take-append [] ys zero h = refl
  take-append [] ys (suc n) h = absurd (omega arith)
  take-append (x ∷ xs) ys zero h = absurd (omega arith)
  take-append (x ∷ xs) ys (suc n) h = ap (◌∷◌ x) (take-append xs ys n (omega arith))

  pub drop-append : (xs ys : List A) (n : ℕ) → length xs ≡ n → drop n (xs ++ ys) ≡ ys
  drop-append [] ys zero h = refl
  drop-append [] ys (suc n) h = absurd (omega arith)
  drop-append (x ∷ xs) ys zero h = absurd (omega arith)
  drop-append (x ∷ xs) ys (suc n) h = drop-append xs ys n (omega arith)

  -- A slice that covers the middle part of a list.
  pub slice_middle :
      (n k : ℕ) (xs ys zs : List A)
      → length xs ≡ n
      → length ys ≡ k
      → slice n (n + k) (xs ++ (ys ++ zs)) ≡ ys
  slice_middle n k xs ys zs hx hy =
      let width : n + k - n ≡ k = omega arith in
      rw (drop-append xs (ys ++ zs) n hx, width) (take-append ys zs k hy)

  pub get_elem?_middle :
      (xs : List A) (y : A) (zs : List A) → get_elem? (xs ++ (y ∷ zs)) (length xs) ≡ some y
  get_elem?_middle [] y zs = refl
  get_elem?_middle (x ∷ xs) y zs = get_elem?_middle xs y zs

  pub drop-drop : (n m : ℕ) (xs : List A) → drop n (drop m xs) ≡ drop (m + n) xs
  drop-drop n zero xs = rw zero-add
  drop-drop zero (suc m) [] = rw add-zero
  drop-drop (suc n) (suc m) [] = rw suc-add
  drop-drop n (suc m) (x ∷ xs) = rw suc-add (drop-drop n m xs)

  -- Walking over a list from the offset `n`, `k` elements at a time.
  pub drop_step :
      (n k : ℕ) (bs xs ys : List A)
      → drop n bs ≡ xs ++ ys
      → length xs ≡ k
      → (drop (n + k) bs ≡ ys) × (slice n (n + k) bs ≡ xs)
  drop_step n k bs xs ys e h =
      let width : n + k - n ≡ k = omega arith in
      (
        sym (drop-drop k n bs) ∙ ap (drop k) e ∙ drop-append xs ys k h,
        rw (width, e) (take-append xs ys k h),
      )

  pub slice-drop : (n k : ℕ) (bs : List A) → drop n bs ≡ slice n (n + k) bs ++ drop (n + k) bs
  slice-drop n k bs =
      let width : n + k - n ≡ k = omega arith in
      rw (width, ← drop-drop k n bs) (sym (take-append-drop k (drop n bs)))

  pub length-slice : (n k : ℕ) (bs : List A) → n + k ≤ length bs → length (slice n (n + k) bs) ≡ k
  length-slice n k bs h =
      let width : n + k - n ≡ k = omega arith in
      rw width (length-take k (drop n bs) (omega (arith, length-drop n bs)))

  pub take_all : (n : ℕ) (xs : List A) → length xs ≤ n → take n xs ≡ xs
  take_all zero [] h = refl
  take_all zero (x ∷ xs) h = absurd (omega arith)
  take_all (suc n) [] h = refl
  take_all (suc n) (x ∷ xs) h = ap (◌∷◌ x) (take_all n xs (omega arith))

  pub eq_nil_of_length : (xs : List A) → length xs ≡ 0 → xs ≡ []
  eq_nil_of_length [] h = refl
  eq_nil_of_length (x ∷ xs) h = absurd (omega arith)

module _ {ℓ} {A : Type ℓ} where
  -- Two splits of one list with tails of one length are the same split.
  pub append_injective :
      (xs ys us vs : List A) → length ys ≡ length vs → xs ++ ys ≡ us ++ vs → (xs ≡ us) × (ys ≡ vs)
  append_injective xs ys us vs h e =
      let heads : length us ≡ length xs =
        omega (arith, length-append xs ys, length-append us vs, ap length e) in
      (
        sym (take-append xs ys (length xs) refl)
            ∙ ap (take (length xs)) e
            ∙ take-append us vs (length xs) heads,
        sym (drop-append xs ys (length xs) refl)
            ∙ ap (drop (length xs)) e
            ∙ drop-append us vs (length xs) heads,
      )

pub All-map {ℓ κ μ} :
    {A : Type ℓ} {P : A → Type κ} {Q : A → Type μ}
    → ((x : A) → P x → Q x)
    → (xs : List A) → All P xs
    → All Q xs
All-map f [] h = tt
All-map f (x ∷ xs) (p, h) = (f x p, All-map f xs h)

module _ {ℓ κ} {A : Type ℓ} (P : A → Type κ) where
  pub All-append : (xs ys : List A) → All P xs → All P ys → All P (xs ++ ys)
  All-append [] ys h k = k
  All-append (x ∷ xs) ys (p, h) k = (p, All-append xs ys h k)

  pub All-left : (xs ys : List A) → All P (xs ++ ys) → All P xs
  All-left [] ys h = tt
  All-left (x ∷ xs) ys (p, h) = (p, All-left xs ys h)

  pub All-right : (xs ys : List A) → All P (xs ++ ys) → All P ys
  All-right [] ys h = h
  All-right (x ∷ xs) ys (p, h) = All-right xs ys h

  pub All-take : (n : ℕ) (xs : List A) → All P xs → All P (take n xs)
  All-take zero xs h = tt
  All-take (suc n) [] h = tt
  All-take (suc n) (x ∷ xs) (p, h) = (p, All-take n xs h)

  pub All-drop : (n : ℕ) (xs : List A) → All P xs → All P (drop n xs)
  All-drop zero xs h = h
  All-drop (suc n) [] h = tt
  All-drop (suc n) (x ∷ xs) (p, h) = All-drop n xs h
