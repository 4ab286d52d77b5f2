-- ===== src/Mempool/ShardTree/Updates/Merging.antt =====
-- A merge keeps the partition, and exchanges exactly two siblings and their parent.
use tensor_po_w.Base.{ℕ, ◌+◌, ◌≤◌, ◌<◌, ltb, ◌==◌, ◌≡◌, refl, sym, ap, ◌∙◌, List, [], ◌∷◌}
use tensor_po_w.Base.{true, false, arith, if◌then◌else◌, ok, ap₂}
use tensor_po_w.Base.Dict.{nat_eq, member, discard, union, member-discard}
use tensor_po_w.Base.Sorted.{sorted}
use tensor_po_w.Base.Sorted.Ascending.{member-sorted}
use tensor_po_w.Base.Sums.{one_if}
use tensor_po_w.Mempool.ShardTree.Ids.{depth_of, path_of, parent_shard_id, require_sibling_shards}
use tensor_po_w.Mempool.ShardTree.Ids.Laws.{IsShardId, selects}
use tensor_po_w.Mempool.ShardTree.Tree.{ShardTree, new}
use tensor_po_w.Mempool.ShardTree.Partition.{IsPartition}
use tensor_po_w.Mempool.ShardTree.Partition.Ancestors.{selects_own}
use tensor_po_w.Mempool.ShardTree.Partition.Validation.{validate_iff}
use tensor_po_w.Mempool.ShardTree.Updates.{apply_merge}
use tensor_po_w.Mempool.ShardTree.Updates.Splitting.{left_of, right_of, Splits, splits}
use tensor_po_w.Mempool.ShardTree.Updates.Siblings.{
  require_sibling_shards-eq-ok, parent_shard_id-left_of, left_right,
}
use tensor_po_w.Mempool.ShardTree.Updates.Exchange.{
  IsPartial, IsPartition-IsPartial, IsPartial-discard, IsPartial-cons, IsPartial-sorted,
  absent_of_free,
}

module _ (ids : List ℕ) (p : ℕ) (h : IsPartition ids) (left_there : member (left_of p) ids ≡ true)
    (right_there : member (right_of p) ids ≡ true) (valid : IsShardId p) (s : Splits p) where
  rest : List ℕ
  rest = discard (right_of p) (discard (left_of p) ids)

  free : ℕ → ℕ
  free r = 0 + one_if (selects (left_of p) r) + one_if (selects (right_of p) r)

  right_still : member (right_of p) (discard (left_of p) ids) ≡ true
  right_still =
      let other : (right_of p == left_of p) ≡ false = let less = left_right p in ground arith in
      member-discard (right_of p) (left_of p) ids ∙ rw other right_there

  rest-IsPartial : IsPartial rest free
  unfolding rest free
  rest-IsPartial =
      IsPartial-discard (right_of p) (discard (left_of p) ids)
        (λ r. 0 + one_if (selects (left_of p) r)) right_still
        (IsPartial-discard (left_of p) ids (λ _. 0) left_there (IsPartition-IsPartial ids h))

  parent_absent : member p rest ≡ false
  unfolding free
  parent_absent =
      let own : 1 ≤ one_if (selects p (path_of p)) = rw (selects_own p valid) (omega arith) in
      absent_of_free p rest free rest-IsPartial valid (omega (arith, s.share (path_of p)))

  merged_leaves : union (p ∷ []) rest ≡ p ∷ rest
  unfolding union
  merged_leaves = rw parent_absent refl

  merged-IsPartition : IsPartition (sorted ltb (p ∷ rest))
  unfolding free
  merged-IsPartition =
      IsPartial-sorted _
        (IsPartial-cons p rest free (λ _. 0) rest-IsPartial valid (λ r. omega (arith, s.share r)))

  pub apply_merge_leaves :
      (tree : ShardTree) (siblings : ℕ × ℕ)
      → tree.leaf_shard_ids ≡ ids
      → require_sibling_shards siblings ≡ ok (left_of p, right_of p)
      → parent_shard_id (left_of p) ≡ ok p
      → (tree' : ShardTree) × (apply_merge tree siblings ≡ ok tree')
        × IsPartition tree'.leaf_shard_ids
        × ((x : ℕ)
            → member x tree'.leaf_shard_ids ≡ (
                if x == p
                then true
                else if x == right_of p
                then false
                else if x == left_of p
                then false
                else member x ids))
  unfolding apply_merge new member rest
  apply_merge_leaves tree siblings same checked up = (
    record { leaf_shard_ids = sorted ltb (p ∷ rest) },
    rw
        (
          checked,
          same,
          left_there,
          right_there,
          up,
          merged_leaves,
          (validate_iff _).1 merged-IsPartition,
        )
        refl,
    merged-IsPartition,
    λ x.
        rw
          (
            member-sorted x (p ∷ rest),
            member-discard x (right_of p) (discard (left_of p) ids),
            member-discard x (left_of p) ids,
          )
          refl,
  )

apply_merge_at :
    (tree : ShardTree) (a b left right p : ℕ)
    → IsPartition tree.leaf_shard_ids
    → require_sibling_shards (a, b) ≡ ok (left, right)
    → member left tree.leaf_shard_ids ≡ true
    → member right tree.leaf_shard_ids ≡ true
    → IsShardId p
    → depth_of p < 16
    → left ≡ left_of p
    → right ≡ right_of p
    → (parent_shard_id left ≡ ok p)
      × (tree' : ShardTree) × (apply_merge tree (a, b) ≡ ok tree')
      × IsPartition tree'.leaf_shard_ids
      × ((x : ℕ)
          → member x tree'.leaf_shard_ids ≡ (
              if x == p
              then true
              else if x == right
              then false
              else if x == left
              then false
              else member x tree.leaf_shard_ids))
apply_merge_at tree a b left right p h e ml mr valid shallow el er =
    let e' : require_sibling_shards (a, b) ≡ ok (left_of p, right_of p) =
      e ∙ ap₂ (λ l r. ok (l, r)) el er in
    let ml' : member (left_of p) tree.leaf_shard_ids ≡ true =
      ap (λ l. member l tree.leaf_shard_ids) (sym el) ∙ ml in
    let mr' : member (right_of p) tree.leaf_shard_ids ≡ true =
      ap (λ l. member l tree.leaf_shard_ids) (sym er) ∙ mr in
    let up = parent_shard_id-left_of p valid shallow in
    let (tree', made, part, members) =
      apply_merge_leaves tree.leaf_shard_ids p h ml' mr' valid (splits p valid shallow) tree (a, b)
        refl e' up in
    rw (el, er) (up, tree', made, part, members)

-- In a partition two sibling leaves can be merged: the constructor accepts the new leaf set, which
-- is again a partition, and which holds their parent in their place and every other leaf as before.
pub apply_merge_lem :
    (tree : ShardTree) (a b left right : ℕ)
    → IsPartition tree.leaf_shard_ids
    → require_sibling_shards (a, b) ≡ ok (left, right)
    → member left tree.leaf_shard_ids ≡ true
    → member right tree.leaf_shard_ids ≡ true
    → (p : ℕ) × (parent_shard_id left ≡ ok p)
      × (tree' : ShardTree) × (apply_merge tree (a, b) ≡ ok tree')
      × IsPartition tree'.leaf_shard_ids
      × ((x : ℕ)
          → member x tree'.leaf_shard_ids ≡ (
              if x == p
              then true
              else if x == right
              then false
              else if x == left
              then false
              else member x tree.leaf_shard_ids))
apply_merge_lem tree a b left right h e ml mr =
    let (p, valid, shallow, el, er) = require_sibling_shards-eq-ok a b e in
    let (up, tree', made, part, members) =
      apply_merge_at tree a b left right p h e ml mr valid shallow el er in
    (p, up, tree', made, part, members)
