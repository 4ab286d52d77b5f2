-- ===== src/Mempool/ShardTree/Updates.antt =====
-- Splits and merges of src/tensorpow/mempool/shard_tree.py, and when they are due.
use tensor_po_w.Base.{
  ℕ, suc, zero, ◌+◌, ◌-◌, ◌*◌, ltb, leb, not, ◌==◌, ◌&&◌, ◌||◌, Bool, true, false, List, [], ◌∷◌,
  ◌++◌, length, drop,
}
use tensor_po_w.Base.{Result, ok, err, value_error, raise_if, ◌>>◌, ◌>>=◌, if◌then◌else◌}
use tensor_po_w.Base.Dict.{nat_eq, member, discard, union}
use tensor_po_w.Base.Sorted.{sorted}
use tensor_po_w.Mempool.ShardTree.Ids.{
  require_shard_id, decode_shard_id, parent_shard_id, child_shard_ids, require_sibling_shards,
  shard_max_depth,
}
use tensor_po_w.Mempool.ShardTree.Tree.{ShardTree, new}
pub mod Exchange
pub mod Splitting
pub mod Siblings
pub mod Merging
pub mod Undoing
pub mod Batch

-- `apply_split`
unfoldable pub apply_split : ShardTree → ℕ → Result ShardTree
apply_split tree shard_id = do
  _ ← require_shard_id shard_id
  raise_if (not (member shard_id tree.leaf_shard_ids)) value_error
  (left, right) ← child_shard_ids shard_id
  new (sorted ltb (union (left ∷ right ∷ []) (discard shard_id tree.leaf_shard_ids)))

-- `apply_merge`
unfoldable pub apply_merge : ShardTree → ℕ × ℕ → Result ShardTree
apply_merge tree siblings = do
  (left, right) ← require_sibling_shards siblings
  raise_if (not (member left tree.leaf_shard_ids) || not (member right tree.leaf_shard_ids))
      value_error
  parent ← parent_shard_id left
  new (sorted ltb (union (parent ∷ []) (discard right (discard left tree.leaf_shard_ids))))

-- `ShardTreeOperation`
pub data Operation : Type 0 where
  shard_split : (shard_id : ℕ) → Operation
  shard_merge : (siblings : ℕ × ℕ) → Operation

-- `ShardSplit(shard_id)`
unfoldable pub new_split : ℕ → Result Operation
new_split shard_id = require_shard_id shard_id >>= λ id. ok (shard_split id)

-- `ShardMerge(siblings)`
unfoldable pub new_merge : ℕ × ℕ → Result Operation
new_merge siblings = require_sibling_shards siblings >>= λ pair. ok (shard_merge pair)

-- `_operation_parent`
unfoldable pub operation_parent : Operation → Result ℕ
operation_parent (shard_split shard_id) = ok shard_id
operation_parent (shard_merge (left, right)) = parent_shard_id left

-- `_apply_operation`
unfoldable pub apply_operation : ShardTree → Operation → Result ShardTree
apply_operation tree (shard_split shard_id) = apply_split tree shard_id
apply_operation tree (shard_merge siblings) = apply_merge tree siblings

pub record ShardTreeUpdate : Type 0 where
  pub tree : ShardTree
  pub applied : List Operation
  pub queued : List Operation

-- The loop of `apply_operations`.
unfoldable pub apply_loop : List ℕ → ShardTreeUpdate → List Operation → Result ShardTreeUpdate
apply_loop used_parents u [] = ok u
apply_loop used_parents u (o ∷ os) = do
  parent ← operation_parent o
  elim (member parent used_parents) [
    | true ↦ apply_loop used_parents (record u { queued = u.queued ++ (o ∷ []) }) os
    | false ↦ apply_operation u.tree o >>= λ next_tree.
        apply_loop (parent ∷ used_parents)
          (record u { tree = next_tree; applied = u.applied ++ (o ∷ []) }) os
  ]

-- `_require_operation_tuple`
unfoldable pub require_operation_tuple : List Operation → Result (Unit {0})
require_operation_tuple [] = ok tt
require_operation_tuple (o ∷ os) = operation_parent o >>= λ _. require_operation_tuple os

-- `apply_operations`, with the constructor of the update at its end.
unfoldable pub apply_operations : ShardTree → List Operation → Result ShardTreeUpdate
apply_operations tree operations = do
  u ← apply_loop [] (record { tree = tree; applied = []; queued = [] }) operations
  require_operation_tuple u.applied
  require_operation_tuple u.queued
  ok u
