-- ===== src/Mempool/ShardTree/Counting.antt =====
-- How many of the leaves select a route, and how many routes a leaf covers.
use tensor_po_w.Base.{
  ℕ, suc, zero, ◌+◌, ◌-◌, ◌*◌, ◌%◌, ◌^◌, ◌≤◌, ltb, ◌==◌, ==_iff, ◌≡◌, refl, sym, ap, ap₂, ◌∙◌, List,
  [], ◌∷◌, All,
}
use tensor_po_w.Base.{true, false, arith, inl, inr, subst, Bool-cases}
use tensor_po_w.Base.Dict.{nat_eq, member, discard, no_duplicates, discard_absent}
use tensor_po_w.Base.Sorted.{insert, sorted}
use tensor_po_w.Base.Sums.{one_if, sum_to, sum_to-add, sum_to-zero, sum_to-residue}
use tensor_po_w.Mempool.ShardTree.Ids.{depth_of, path_of, low_bits}
use tensor_po_w.Mempool.ShardTree.Ids.Laws.{IsShardId, selects, low_bits-low_bits}
use native.Mathlib.Nat.{pow-suc, one-mul, zero-add, suc-add, mul_comm, mul_assoc}

-- The number of the leaves that select the route.
unfoldable pub hits : List ℕ → ℕ → ℕ
hits [] route = 0
hits (id ∷ ids) route = one_if (selects id route) + hits ids route

-- The number of the routes of 16 bits that the leaves cover, counted with multiplicity.
unfoldable pub coverage : List ℕ → ℕ
coverage [] = 0
coverage (id ∷ ids) = 2 ^ (16 - depth_of id) + coverage ids

pow-split : (d k : ℕ) → 2 ^ k * 2 ^ d ≡ 2 ^ (k + d)
pow-split d zero = rw (one-mul (2 ^ d), zero-add d) refl
pow-split d (suc k) =
    rw
      (pow-suc 2 k, suc-add k d, pow-suc 2 (k + d), mul_comm (2 ^ k) 2, mul_assoc 2 (2 ^ k) (2 ^ d))
      (rw (pow-split d k) (mul_comm 2 (2 ^ (k + d))))

-- A leaf selects as many routes as it covers.
sum_to-selects :
    (id : ℕ) → IsShardId id → sum_to (2 ^ 16) (λ r. one_if (selects id r)) ≡ 2 ^ (16 - depth_of id)
unfolding selects
sum_to-selects id h =
    let width : 16 - depth_of id + depth_of id ≡ 16 = omega (arith, h) in
    ap (λ n. sum_to n (λ r. one_if (path_of id == r % 2 ^ depth_of id)))
      (ap (λ n. 2 ^ n) (sym width) ∙ sym (pow-split (depth_of id) (16 - depth_of id)))
    ∙ sum_to-residue (2 ^ (16 - depth_of id)) (2 ^ depth_of id) (path_of id) h.path_fits

pub sum_to-hits : (ids : List ℕ) → All IsShardId ids → sum_to (2 ^ 16) (hits ids) ≡ coverage ids
unfolding hits coverage
sum_to-hits [] h = sum_to-zero (2 ^ 16)
sum_to-hits (id ∷ ids) (hx, h) =
    sum_to-add (2 ^ 16) (λ r. one_if (selects id r)) (hits ids)
    ∙ ap₂ ◌+◌ (sum_to-selects id hx) (sum_to-hits ids h)

-- A route selects as its 16 low bits do.
pub hits-low_bits :
    (ids : List ℕ) (r : ℕ) → All IsShardId ids → hits ids (low_bits 16 r) ≡ hits ids r
unfolding hits selects
hits-low_bits [] r h = refl
hits-low_bits (id ∷ ids) r (hx, h) =
    rw (low_bits-low_bits (depth_of id) 16 r hx.depth_fits, hits-low_bits ids r h) refl

pub hits-member :
    (x r : ℕ) (ids : List ℕ) → member x ids ≡ true → selects x r ≡ true → 1 ≤ hits ids r
unfolding hits member
hits-member x r [] m s = cc
hits-member x r (y ∷ ys) m s = elim (Bool-cases (x == y)) [
  | inl here ↦
      let e : selects y r ≡ true = subst (λ z. selects z r ≡ true) ((==_iff x y).0 here) s in
      rw e (omega arith)
  | inr apart ↦ omega (arith, hits-member x r ys (ground arith) s)
]

pub hits-discard :
    (x r : ℕ) (ids : List ℕ)
    → no_duplicates ids ≡ true
    → member x ids ≡ true
    → one_if (selects x r) + hits (discard x ids) r ≡ hits ids r
unfolding hits member discard no_duplicates
hits-discard x r [] d m = cc
hits-discard x r (y ∷ ys) d m = elim (Bool-cases (x == y)) [
  | inl here ↦
      let same = (==_iff x y).0 here in
      let absent : member x ys ≡ false = rw same (ground arith) in
      rw (here, discard_absent x ys absent, same) refl
  | inr apart ↦
      let rest = hits-discard x r ys (ground arith) (ground arith) in rw apart (omega (arith, rest))
]

hits-insert :
    (x : ℕ) (xs : List ℕ) (r : ℕ) → hits (insert ltb x xs) r ≡ one_if (selects x r) + hits xs r
unfolding hits insert
hits-insert x [] r = refl
hits-insert x (y ∷ ys) r = elim (Bool-cases (ltb y x)) [
  | inl earlier ↦ rw earlier (omega (arith, hits-insert x ys r))
  | inr later ↦ rw later refl
]

pub hits-sorted : (ids : List ℕ) (r : ℕ) → hits (sorted ltb ids) r ≡ hits ids r
unfolding hits sorted
hits-sorted [] r = refl
hits-sorted (x ∷ xs) r = rw (hits-insert x (sorted ltb xs) r, hits-sorted xs r) refl
