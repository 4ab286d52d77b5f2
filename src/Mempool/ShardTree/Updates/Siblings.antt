-- ===== src/Mempool/ShardTree/Updates/Siblings.antt =====
-- `require_sibling_shards` returns the two children of one shard, in their order.
use tensor_po_w.Base.{
  ℕ, ◌+◌, ◌-◌, ◌*◌, ◌/◌, ◌^◌, ◌<◌, ltb, not, ◌==◌, ==_iff, ◌≡◌, refl, sym, ap, ap₂, ◌∙◌,
}
use tensor_po_w.Base.{
  true, false, arith, inl, inr, ◌⊎◌, le→ltb-false, lt→ltb, if◌then◌else◌, ok, value_error, raise_if,
}
use tensor_po_w.Base.{>>-eq-ok, >>=-eq-ok, raise_if-eq-ok, ok-injective, not-false}
use tensor_po_w.Mempool.ShardTree.Ids.{
  depth_of, path_of, low_bits, opposite, require_sibling_shards, decode_shard_id, parent_shard_id,
}
use tensor_po_w.Mempool.ShardTree.Ids.Laws.{
  IsShardId, id_of, id_of_parts, id_of-IsShardId, encode_lem, decode-IsShardId, decode-eq-ok,
  low_bits-lt, pow-next, pow-le-pow,
}
use tensor_po_w.Mempool.ShardTree.Updates.Splitting.{left_of, right_of}
use native.Mathlib.Nat.{div-add-mod, mod-eq_of_lt}

-- What the guards say of two siblings of depth `suc d`.
record Guards (a b d : ℕ) : Type 0 where
  a_valid : IsShardId a
  b_valid : IsShardId b
  a_depth : depth_of a ≡ d + 1
  b_depth : depth_of b ≡ d + 1
  same_low : low_bits d (path_of a) ≡ low_bits d (path_of b)
  halves : opposite (path_of a / 2 ^ d) (path_of b / 2 ^ d) ≡ true

Guards-eq-ok :
    (a b : ℕ) {l r : ℕ}
    → require_sibling_shards (a, b) ≡ ok (l, r)
    → Guards a b (depth_of a - 1) × ◌≡◌ {A = ℕ × ℕ} (if ltb b a then (b, a) else (a, b)) (l, r)
unfolding require_sibling_shards
Guards-eq-ok a b e =
    let (pa, da, e₁) = >>=-eq-ok (decode_shard_id a) _ e in
    let (pb, db, e₂) = >>=-eq-ok (decode_shard_id b) _ e₁ in
    let (a_valid, a_depth, a_path) = decode-eq-ok a da in
    let (b_valid, b_depth, b_path) = decode-eq-ok b db in
    let e₃ = rw (sym a_depth, sym a_path, sym b_depth, sym b_path) at e₂ in
    let (_, e₄) = >>-eq-ok (raise_if (a == b) value_error) _ e₃ in
    let (level, e₅) = >>-eq-ok (raise_if (not (depth_of a == depth_of b)) value_error) _ e₄ in
    let (deep, e₆) = >>-eq-ok (raise_if (depth_of a == 0) value_error) _ e₅ in
    let (low, e₇) =
      >>-eq-ok
        (raise_if
          (not (low_bits (depth_of a - 1) (path_of a) == low_bits (depth_of a - 1) (path_of b)))
          value_error)
        _ e₆ in
    let (halves, e₈) =
      >>-eq-ok
        (raise_if
          (not (opposite (path_of a / 2 ^ (depth_of a - 1)) (path_of b / 2 ^ (depth_of b - 1))))
          value_error)
        _ e₇ in
    let same : depth_of a ≡ depth_of b = (==_iff _ _).0 (not-false _ (raise_if-eq-ok _ _ level)) in
    let deep' : (depth_of a == 0) ≡ false = raise_if-eq-ok _ _ deep in
    (
      record {
        a_valid = a_valid;
        b_valid = b_valid;
        a_depth = ground arith;
        b_depth = ground arith;
        same_low = (==_iff _ _).0 (not-false _ (raise_if-eq-ok _ _ low));
        halves =
            ap (λ n. opposite (path_of a / 2 ^ (depth_of a - 1)) (path_of b / 2 ^ (n - 1))) same
            ∙ not-false _ (raise_if-eq-ok _ _ halves);
      },
      ok-injective e₈,
    )

-- A path of one bit more is its low bits, or those and the new bit.
path-halves : (d q h : ℕ) → q / 2 ^ d ≡ h → q ≡ 2 ^ d * h + low_bits d q
path-halves d q h e = sym (div-add-mod q (2 ^ d)) ∙ ap (λ n. 2 ^ d * n + low_bits d q) e

-- The parent of the two.
parent_of : ℕ → ℕ → ℕ
parent_of a d = id_of d (low_bits d (path_of a))

opposite-cases : (u v : ℕ) → opposite u v ≡ true → ((u ≡ 0) × (v ≡ 1)) ⊎ ((u ≡ 1) × (v ≡ 0))
unfolding opposite
opposite-cases u v e = ground arith

id_at : (x d q : ℕ) → depth_of x ≡ d → path_of x ≡ q → x ≡ id_of d q
id_at x d q hd hq = sym (id_of_parts x) ∙ ap₂ id_of hd hq

children_of :
    (p d q : ℕ)
    → depth_of p ≡ d
    → path_of p ≡ q
    → (left_of p ≡ id_of (d + 1) q) × (right_of p ≡ id_of (d + 1) (q + 2 ^ d))
children_of p d q hd hq =
    (ap₂ (λ n m. id_of (n + 1) m) hd hq, ap₂ (λ n m. id_of (n + 1) (m + 2 ^ n)) hd hq)

siblings_lem :
    (a b d : ℕ)
    → Guards a b d
    → IsShardId (parent_of a d)
      × (depth_of (parent_of a d) < 16)
      × (((a ≡ left_of (parent_of a d)) × (b ≡ right_of (parent_of a d)))
          ⊎ ((a ≡ right_of (parent_of a d)) × (b ≡ left_of (parent_of a d))))
unfolding parent_of
siblings_lem a b d g =
    let q = low_bits d (path_of a) in
    let shallow : d < 16 = omega (arith, g) in
    let low = low_bits-lt d (path_of a) in
    let (_, depth, path) = encode_lem d q (omega arith) low in
    let (left, right) = children_of (id_of d q) d q depth path in
    (
      id_of-IsShardId d q (omega arith) low,
      omega arith,
      elim (opposite-cases _ _ g.halves) [
        | inl (u, v) ↦
            let pa = path-halves d (path_of a) 0 u in
            let pb = path-halves d (path_of b) 1 v in
            inl (
              id_at a (d + 1) q g.a_depth (omega arith) ∙ sym left,
              id_at b (d + 1) (q + 2 ^ d) g.b_depth (omega (arith, g)) ∙ sym right,
            )
        | inr (u, v) ↦
            let pa = path-halves d (path_of a) 1 u in
            let pb = path-halves d (path_of b) 0 v in
            inr (
              id_at a (d + 1) (q + 2 ^ d) g.a_depth (omega arith) ∙ sym right,
              id_at b (d + 1) q g.b_depth (omega (arith, g)) ∙ sym left,
            )
      ],
    )

pub left_right : (p : ℕ) → left_of p < right_of p
left_right p = omega (arith, pow-le-pow 0 (depth_of p) (omega arith))

in_order :
    (a b p : ℕ) {l r : ℕ}
    → ((a ≡ left_of p) × (b ≡ right_of p)) ⊎ ((a ≡ right_of p) × (b ≡ left_of p))
    → ◌≡◌ {A = ℕ × ℕ} (if ltb b a then (b, a) else (a, b)) (l, r)
    → (l ≡ left_of p) × (r ≡ right_of p)
in_order a b p (inl (la, rb)) e =
    let kept : ltb b a ≡ false = le→ltb-false b a (omega (arith, left_right p)) in
    let pair = rw kept at e in (sym (ap (λ x. x.0) pair) ∙ la, sym (ap (λ x. x.1) pair) ∙ rb)
in_order a b p (inr (ra, lb)) e =
    let swapped : ltb b a ≡ true = lt→ltb b a (omega (arith, left_right p)) in
    let pair = rw swapped at e in (sym (ap (λ x. x.0) pair) ∙ lb, sym (ap (λ x. x.1) pair) ∙ ra)

pub require_sibling_shards-eq-ok :
    (a b : ℕ) {l r : ℕ}
    → require_sibling_shards (a, b) ≡ ok (l, r)
    → (p : ℕ) × IsShardId p × (depth_of p < 16) × (l ≡ left_of p) × (r ≡ right_of p)
require_sibling_shards-eq-ok a b e =
    let (g, order) = Guards-eq-ok a b e in
    let p = parent_of a (depth_of a - 1) in
    let (valid, shallow, sides) = siblings_lem a b (depth_of a - 1) g in
    let (left, right) = in_order a b p sides order in (p, valid, shallow, left, right)

-- The parent of a left child.
pub parent_shard_id-left_of :
    (p : ℕ) → IsShardId p → depth_of p < 16 → parent_shard_id (left_of p) ≡ ok p
unfolding parent_shard_id
parent_shard_id-left_of p h shallow =
    let double = pow-next (depth_of p) in
    let fits = h.path_fits in
    let valid = id_of-IsShardId (depth_of p + 1) (path_of p) (omega arith) (omega arith) in
    let (_, depth, path) = encode_lem (depth_of p + 1) (path_of p) (omega arith) (omega arith) in
    let (back, _, _) = encode_lem (depth_of p) (path_of p) (omega arith) fits in
    let up : depth_of p + 1 - 1 ≡ depth_of p = omega arith in
    let deep : (depth_of p + 1 == 0) ≡ false = ground arith in
    rw
      (
        decode-IsShardId (left_of p) valid,
        depth,
        path,
        up,
        deep,
        mod-eq_of_lt fits,
        back,
        id_of_parts p,
      )
      refl
