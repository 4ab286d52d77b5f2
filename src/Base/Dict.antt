-- ===== src/Base/Dict.antt =====
-- Python's dicts and sets, where their order is not read: association lists and lists, over keys
-- that have an equality test.
use tensor_po_w.Base.Tests.{if◌then◌else◌, Bool-cases, ◌==◌, ==_iff}
use tensor_po_w.Base.Bytes.{Bytes, beq, beq_iff}
use Prim.Native.Nat.{ℕ}
use mathlib.Core.Path.{◌≡◌, refl, sym}
use mathlib.Core.Logic.{◌↔◌, inl, inr}
use mathlib.Core.Bool.{Bool, true, false, not, ◌&&◌}
use mathlib.Core.Option.{Option, none, some}
use mathlib.Core.List.{List, [], ◌∷◌}
use native.Mathlib.Omega.{arith}

-- `==` of a type of keys.
pub record Eq {ℓ} (A : Type ℓ) : Type ℓ where
  pub eq : A → A → Bool
  pub eq_iff : (a b : A) → (eq a b ≡ true) ↔ (a ≡ b)

instance abbrev pub bytes_eq : Eq Bytes
bytes_eq = record { eq = beq; eq_iff = beq_iff }

pub nat_eq_iff : (a b : ℕ) → ((a == b) ≡ true) ↔ (a ≡ b)
nat_eq_iff a b = ==_iff a b

instance abbrev pub nat_eq : Eq ℕ
nat_eq = record { eq = ◌==◌; eq_iff = nat_eq_iff }

abbrev pub is_some {ℓ} : {A : Type ℓ} → Option A → Bool
is_some none = false
is_some (some a) = true

pub none_of_is_some {ℓ} : {A : Type ℓ} (o : Option A) → is_some o ≡ false → o ≡ none
none_of_is_some none h = refl
none_of_is_some (some a) h = cc

pub some_of_is_some {ℓ} : {A : Type ℓ} (o : Option A) → is_some o ≡ true → (a : A) × (o ≡ some a)
some_of_is_some none h = cc
some_of_is_some (some a) h = (a, refl)

module _ {ℓ} {K : Type ℓ} ⦃e : Eq K⦄ where
  pub eq_refl : (k : K) → e.eq k k ≡ true
  eq_refl k = (e.eq_iff k k).1 refl

  pub eq_false_sym : (j k : K) → e.eq j k ≡ false → e.eq k j ≡ false
  eq_false_sym j k h = elim (Bool-cases (e.eq k j)) [
    | inr other ↦ other
    | inl same ↦
        let swapped : e.eq j k ≡ true = (e.eq_iff j k).1 (sym ((e.eq_iff k j).0 same)) in cc
  ]

  -- `x in xs`
  unfoldable pub member : K → List K → Bool
  member x [] = false
  member x (y ∷ ys) = if e.eq x y then true else member x ys

  -- The set `xs` without `x`.
  unfoldable pub discard : K → List K → List K
  discard x [] = []
  discard x (y ∷ ys) = if e.eq x y then discard x ys else y ∷ discard x ys

  pub discard_absent : (x : K) (ys : List K) → member x ys ≡ false → discard x ys ≡ ys
  unfolding member discard
  discard_absent x [] m = refl
  discard_absent x (y ∷ ys) m = ground (arith, discard_absent x ys (ground arith))

  pub member-discard :
      (x y : K) (ys : List K) → member x (discard y ys) ≡ (if e.eq x y then false else member x ys)
  unfolding member discard
  member-discard x y [] = ground arith
  member-discard x y (z ∷ ys) = elim (Bool-cases (e.eq y z)) [
    | inl here ↦ rw (here, ← (e.eq_iff y z).0 here, member-discard x y ys) (ground arith)
    | inr other ↦ elim (Bool-cases (e.eq x y)) [
      | inr apart ↦
          rw (other, apart) (let rest = rw apart at (member-discard x y ys) in rw rest refl)
      | inl same ↦
          let rest = rw same at (member-discard x y ys) in
          let apart : e.eq x z ≡ false = rw ((e.eq_iff x y).0 same) other in
          rw (other, same, apart) rest
    ]
  ]

  -- `len(set(xs)) == len(xs)`
  unfoldable pub no_duplicates : List K → Bool
  unfolding member
  no_duplicates [] = true
  no_duplicates (x ∷ xs) = not (member x xs) && no_duplicates xs

  -- `set(xs) | set(ys)`, for lists without duplicates.
  unfoldable pub union : List K → List K → List K
  unfolding member
  union [] ys = ys
  union (x ∷ xs) ys = if member x ys then union xs ys else x ∷ union xs ys

module _ {ℓ κ} {K : Type ℓ} {V : Type κ} ⦃e : Eq K⦄ where
  -- `d.get(k)`
  unfoldable pub lookup : K → List (K × V) → Option V
  lookup k [] = none
  lookup k ((j, v) ∷ d) = if e.eq k j then some v else lookup k d

  -- `d` without the key `k`.
  unfoldable pub without : K → List (K × V) → List (K × V)
  without k [] = []
  without k ((j, v) ∷ d) = if e.eq k j then without k d else (j, v) ∷ without k d

  -- `d[k] = v`
  abbrev pub assign : K → V → List (K × V) → List (K × V)
  assign k v d = (k, v) ∷ without k d

  pub lookup-cons :
      (j k : K) (v : V) (d : List (K × V))
      → lookup j ((k, v) ∷ d) ≡ (if e.eq j k then some v else lookup j d)
  unfolding lookup
  lookup-cons j k v d = refl

  pub lookup-without :
      (j k : K) (d : List (K × V))
      → lookup j (without k d) ≡ (if e.eq j k then none else lookup j d)
  unfolding lookup without
  lookup-without j k [] = ground arith
  lookup-without j k ((i, v) ∷ d) = elim (Bool-cases (e.eq k i)) [
    | inl here ↦ rw (here, ← (e.eq_iff k i).0 here, lookup-without j k d) (ground arith)
    | inr other ↦ elim (Bool-cases (e.eq j k)) [
      | inr apart ↦
          rw (other, apart) (let rest = rw apart at (lookup-without j k d) in rw rest refl)
      | inl same ↦
          let rest = rw same at (lookup-without j k d) in
          let apart : e.eq j i ≡ false = rw ((e.eq_iff j k).0 same) other in
          rw (other, same, apart) rest
    ]
  ]

  pub lookup-without_other :
      (j k : K) (d : List (K × V)) → e.eq j k ≡ false → lookup j (without k d) ≡ lookup j d
  lookup-without_other j k d h = rw h at (lookup-without j k d)

  pub lookup-without_self : (k : K) (d : List (K × V)) → lookup k (without k d) ≡ none
  lookup-without_self k d = rw (eq_refl k) at (lookup-without k k d)

  pub lookup-assign :
      (j k : K) (v : V) (d : List (K × V))
      → lookup j (assign k v d) ≡ (if e.eq j k then some v else lookup j d)
  unfolding lookup
  lookup-assign j k v d = elim (Bool-cases (e.eq j k)) [
    | inl here ↦ rw here refl
    | inr other ↦ rw other (lookup-without_other j k d other)
  ]
