-- ===== src/Base/Sums.antt =====
-- Sums over the numbers below a bound, and how often a residue occurs among them.
use tensor_po_w.Base.Tests.{ltb, ◌==◌, if◌then◌else◌, Bool-cases, ==_iff}
use Prim.Native.Nat.{ℕ, zero, suc, ◌+◌, ◌*◌, ◌%◌, ◌≤◌, ◌<◌}
use mathlib.Core.Path.{◌≡◌, refl, sym, ap, ◌∙◌}
use mathlib.Core.Logic.{inl, inr}
use mathlib.Core.Bool.{Bool}
use native.Mathlib.Omega.{arith}
use native.Mathlib.Nat.{add-zero, zero-mul, suc-mul, mod-eq_of_lt, mul-add-mod_self_right}

-- `sum(f(r) for r in range(n))`
unfoldable pub sum_to : ℕ → (ℕ → ℕ) → ℕ
sum_to zero f = 0
sum_to (suc n) f = sum_to n f + f n

abbrev pub one_if : Bool → ℕ
one_if b = if b then 1 else 0

pub sum_to-add : (n : ℕ) (f g : ℕ → ℕ) → sum_to n (λ r. f r + g r) ≡ sum_to n f + sum_to n g
unfolding sum_to
sum_to-add zero f g = omega arith
sum_to-add (suc n) f g = omega (arith, sum_to-add n f g)

pub sum_to-ext : (n : ℕ) (f g : ℕ → ℕ) → ((r : ℕ) → r < n → f r ≡ g r) → sum_to n f ≡ sum_to n g
unfolding sum_to
sum_to-ext zero f g h = refl
sum_to-ext (suc n) f g h =
    omega (arith, sum_to-ext n f g (λ r l. h r (omega arith)), h n (omega arith))

pub sum_to-zero : (n : ℕ) → sum_to n (λ r. 0) ≡ 0
unfolding sum_to
sum_to-zero zero = refl
sum_to-zero (suc n) = omega (arith, sum_to-zero n)

pub sum_to-one : (n : ℕ) → sum_to n (λ r. 1) ≡ n
unfolding sum_to
sum_to-one zero = refl
sum_to-one (suc n) = omega (arith, sum_to-one n)

pub sum_to-le : (n : ℕ) (f : ℕ → ℕ) → ((r : ℕ) → r < n → f r ≤ 1) → sum_to n f ≤ n
unfolding sum_to
sum_to-le zero f h = omega arith
sum_to-le (suc n) f h = omega (arith, sum_to-le n f (λ r l. h r (omega arith)), h n (omega arith))

-- Terms of at most one that add up to their number are all one.
pub sum_to-full :
    (n : ℕ) (f : ℕ → ℕ) → ((r : ℕ) → r < n → f r ≤ 1) → sum_to n f ≡ n → (r : ℕ) → r < n → f r ≡ 1
unfolding sum_to
sum_to-full zero f h total r l = absurd (omega arith)
sum_to-full (suc n) f h total r l =
    let small : (r : ℕ) → r < n → f r ≤ 1 = λ r l. h r (omega arith) in
    let before = sum_to-le n f small in
    let last = h n (omega arith) in
    elim (Bool-cases (r == n)) [
      | inl here ↦ ap f ((==_iff r n).0 here) ∙ omega arith
      | inr apart ↦ sum_to-full n f small (omega arith) r (ground arith)
    ]

-- How often the residue `p` of `k` occurs below a number.
occurrences : ℕ → ℕ → ℕ → ℕ
occurrences k p n = sum_to n (λ r. one_if (p == r % k))

occurrences-zero : (k p : ℕ) → occurrences k p 0 ≡ 0
unfolding occurrences sum_to
occurrences-zero k p = refl

occurrences-suc :
    (k p q j : ℕ)
    → j < k
    → occurrences k p (suc (q * k + j)) ≡ occurrences k p (q * k + j) + one_if (p == j)
unfolding occurrences sum_to
occurrences-suc k p q j h =
    let place : (q * k + j) % k ≡ j = mul-add-mod_self_right q k j ∙ mod-eq_of_lt h in
    ap (λ m. sum_to (q * k + j) (λ r. one_if (p == r % k)) + one_if (p == m)) place

-- Among the first `q * k + j` numbers the residue occurs `q` times, and once more where it is below
-- `j`.
occurrences_lem : (k p q j : ℕ) → p < k → j ≤ k → occurrences k p (q * k + j) ≡ q + one_if (ltb p j)
occurrences_lem k p zero zero hp hj =
    ap (occurrences k p) (let e : 0 * k + 0 ≡ 0 = omega (arith, zero-mul k) in e)
    ∙ occurrences-zero k p
    ∙ ground arith
occurrences_lem k p (suc q) zero hp hj =
    ap (occurrences k p) (let e : suc q * k + 0 ≡ q * k + k = omega (arith, suc-mul q k) in e)
    ∙ occurrences_lem k p q k hp (omega arith)
    ∙ ground arith
occurrences_lem k p q (suc j) hp hj =
    ap (occurrences k p) (let e : q * k + suc j ≡ suc (q * k + j) = omega arith in e)
    ∙ occurrences-suc k p q j (omega arith)
    ∙ ap (λ n. n + one_if (p == j)) (occurrences_lem k p q j hp (omega arith))
    ∙ ground arith

pub sum_to-residue : (q k p : ℕ) → p < k → sum_to (q * k) (λ r. one_if (p == r % k)) ≡ q
unfolding occurrences
sum_to-residue q k p h =
    ap (occurrences k p) (sym (add-zero (q * k)))
    ∙ occurrences_lem k p q 0 h (omega arith)
    ∙ ground arith
