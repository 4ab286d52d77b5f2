-- ===== src/Mempool/ShardTree/Updates/Splitting.antt =====
-- A split keeps the partition and exchanges exactly the leaf and its children.
use tensor_po_w.Base.{ℕ, ◌+◌, ◌^◌, ◌≤◌, ◌<◌, ltb, ◌==◌, ◌≡◌, refl, sym, ap, ◌∙◌, List, [], ◌∷◌}
use tensor_po_w.Base.{true, false, arith, if◌then◌else◌, ok}
use tensor_po_w.Base.Dict.{nat_eq, member, discard, union, member-discard}
use tensor_po_w.Base.Sorted.{sorted}
use tensor_po_w.Base.Sorted.Ascending.{member-sorted}
use tensor_po_w.Base.Sums.{one_if}
use tensor_po_w.Mempool.ShardTree.Ids.{depth_of, path_of, child_shard_ids}
use tensor_po_w.Mempool.ShardTree.Ids.Laws.{
  IsShardId, selects, id_of, id_of_parts, id_of-IsShardId, encode_lem, decode-IsShardId,
}
use tensor_po_w.Mempool.ShardTree.Ids.Laws.{selects-children, require_shard_id_iff, pow-next}
use tensor_po_w.Mempool.ShardTree.Tree.{ShardTree, new}
use tensor_po_w.Mempool.ShardTree.Partition.{IsPartition}
use tensor_po_w.Mempool.ShardTree.Partition.Ancestors.{selects_own}
use tensor_po_w.Mempool.ShardTree.Partition.Validation.{validate_iff}
use tensor_po_w.Mempool.ShardTree.Updates.{apply_split}
use tensor_po_w.Mempool.ShardTree.Updates.Exchange.{
  IsPartial, IsPartition-IsPartial, IsPartial-discard, IsPartial-cons, IsPartial-sorted,
  absent_of_free, All-member,
}

-- The two children of a shard.
abbrev pub left_of : ℕ → ℕ
left_of id = id_of (depth_of id + 1) (path_of id)

abbrev pub right_of : ℕ → ℕ
right_of id = id_of (depth_of id + 1) (path_of id + 2 ^ depth_of id)

-- A shard that can be split, and what its children are.
pub record Splits (id : ℕ) : Type 0 where
  pub children : child_shard_ids id ≡ ok (left_of id, right_of id)
  pub left_valid : IsShardId (left_of id)
  pub right_valid : IsShardId (right_of id)
  pub share :
      (r : ℕ)
      → one_if (selects (left_of id) r) + one_if (selects (right_of id) r) ≡ one_if (selects id r)

pub splits : (id : ℕ) → IsShardId id → depth_of id < 16 → Splits id
unfolding child_shard_ids
splits id h shallow =
    let double = pow-next (depth_of id) in
    let fits = h.path_fits in
    let (left, _, _) = encode_lem (depth_of id + 1) (path_of id) (omega arith) (omega arith) in
    let (right, _, _) =
      encode_lem (depth_of id + 1) (path_of id + 2 ^ depth_of id) (omega arith) (omega arith) in
    record {
      children = rw (decode-IsShardId id h, left, right) (ground arith);
      left_valid = id_of-IsShardId (depth_of id + 1) (path_of id) (omega arith) (omega arith);
      right_valid =
          id_of-IsShardId (depth_of id + 1) (path_of id + 2 ^ depth_of id) (omega arith)
            (omega arith);
      share = λ r.
          selects-children (depth_of id) (path_of id) r shallow fits
          ∙ ap (λ x. one_if (selects x r)) (id_of_parts id);
    }

-- The leaves of the split tree before they are sorted.
module _ (ids : List ℕ) (id : ℕ) (h : IsPartition ids) (m : member id ids ≡ true)
    (s : Splits id) where
  rest : List ℕ
  rest = discard id ids

  free : ℕ → ℕ
  free r = 0 + one_if (selects id r)

  rest-IsPartial : IsPartial rest free
  unfolding rest free
  rest-IsPartial = IsPartial-discard id ids (λ _. 0) m (IsPartition-IsPartial ids h)

  child_absent :
      (x : ℕ)
      → IsShardId x
      → ((r : ℕ) → one_if (selects x r) ≤ one_if (selects id r))
      → member x rest ≡ false
  unfolding free
  child_absent x valid below =
      let own : 1 ≤ one_if (selects x (path_of x)) = rw (selects_own x valid) (omega arith) in
      absent_of_free x rest free rest-IsPartial valid (omega (arith, below (path_of x)))

  split_leaves : union (left_of id ∷ right_of id ∷ []) rest ≡ left_of id ∷ right_of id ∷ rest
  unfolding union
  split_leaves =
      rw
        (
          child_absent (left_of id) s.left_valid (λ r. omega (arith, s.share r)),
          child_absent (right_of id) s.right_valid (λ r. omega (arith, s.share r)),
        )
        refl

  split-IsPartition : IsPartition (sorted ltb (left_of id ∷ right_of id ∷ rest))
  unfolding free
  split-IsPartition = IsPartial-sorted _ (
      IsPartial-cons (left_of id) (right_of id ∷ rest) (λ r. one_if (selects (left_of id) r))
        (λ _. 0)
        (IsPartial-cons (right_of id) rest free (λ r. one_if (selects (left_of id) r))
          rest-IsPartial s.right_valid (λ r. omega (arith, s.share r)))
        s.left_valid (λ r. omega arith))

  pub children_absent : (member (left_of id) ids ≡ false) × (member (right_of id) ids ≡ false)
  unfolding rest
  children_absent =
      let left = child_absent (left_of id) s.left_valid (λ r. omega (arith, s.share r)) in
      let right = child_absent (right_of id) s.right_valid (λ r. omega (arith, s.share r)) in
      let left' : (left_of id == id) ≡ false = ground arith in
      let right' : (right_of id == id) ≡ false = ground arith in
      (
        rw left' at (sym (member-discard (left_of id) id ids) ∙ left),
        rw right' at (sym (member-discard (right_of id) id ids) ∙ right),
      )

-- In a partition a leaf above the last depth can be split: the constructor accepts the new leaf set,
-- which is again a partition, and which holds the two children in the place of the leaf and every
-- other leaf as before.
pub apply_split_lem :
    (tree : ShardTree) (id : ℕ)
    → IsPartition tree.leaf_shard_ids
    → member id tree.leaf_shard_ids ≡ true
    → depth_of id < 16
    → (tree' : ShardTree) × (apply_split tree id ≡ ok tree')
      × IsPartition tree'.leaf_shard_ids
      × ((x : ℕ)
          → member x tree'.leaf_shard_ids ≡ (
              if x == left_of id
              then true
              else if x == right_of id
              then true
              else if x == id
              then false
              else member x tree.leaf_shard_ids))
unfolding apply_split new member rest
apply_split_lem tree id h m shallow =
    let valid = All-member id tree.leaf_shard_ids h.valid m in
    let s = splits id valid shallow in
    let part = split-IsPartition tree.leaf_shard_ids id h m s in
    (
      record {
        leaf_shard_ids = sorted ltb (left_of id ∷ right_of id ∷ discard id tree.leaf_shard_ids);
      },
      rw
          (
            (require_shard_id_iff id).1 valid,
            m,
            s.children,
            split_leaves tree.leaf_shard_ids id h m s,
            (validate_iff _).1 part,
          )
          refl,
      part,
      λ x.
          rw
            (
              member-sorted x (left_of id ∷ right_of id ∷ discard id tree.leaf_shard_ids),
              member-discard x id tree.leaf_shard_ids,
            )
            refl,
    )
