-- ===== src/Mempool/ShardTreeTests.antt =====
-- The theorems on shard trees at concrete inputs.
use tensor_po_w.Mempool.ShardTree.Updates.{
  require_operation_tuple, apply_operation, operation_parent, apply_loop, apply_split, apply_merge,
  apply_operations, Operation, ShardTreeUpdate,
}
use tensor_po_w.Mempool.ShardTree.Ids.{
  parent_shard_id, opposite, encode_shard_id, decode_shard_id, require_shard_id, child_shard_ids,
  require_sibling_shards,
}
use tensor_po_w.Base.Sorted.{insert, sorted}
use tensor_po_w.Base.Dict.{discard, union, no_duplicates, nat_eq, member}
use tensor_po_w.Mempool.ShardTree.Tree.{
  check_ancestors, check_leaves, ShardTree, new, serialize, deserialize, route_tx,
  validate_leaf_partition,
}
use tensor_po_w.Base.Bytes.{beq, from_le}
use tensor_po_w.Base.{
  ℕ, ◌≡◌, ◌==◌, ltb, refl, [], ◌∷◌, List, ok, err, true, false, replicate, arith, ◌↔◌,
  if◌then◌else◌, length, shard_tree_decode_error,
}
use tensor_po_w.Mempool.ShardTree.Ids.Laws.{selects}
use tensor_po_w.Mempool.ShardTree.Partition.{IsPartition}
use tensor_po_w.Mempool.ShardTree.Partition.Validation.{validate_iff}
use tensor_po_w.Mempool.ShardTree.Routing.{route_tx_lem}
use tensor_po_w.Mempool.ShardTree.Encoding.{tree_deserialize-serialize}
use tensor_po_w.Mempool.ShardTree.Updates.Splitting.{left_of, right_of, apply_split_lem}
use tensor_po_w.Mempool.ShardTree.Updates.Undoing.{apply_merge-apply_split}
use tensor_po_w.Mempool.ShardTree.Updates.Batch.{IsBatch, Separates, apply_operations_lem}

-- The tree of the root, and the tree of its two children.
abbrev pub one_leaf : ShardTree
one_leaf = record { leaf_shard_ids = 0 ∷ [] }

abbrev two_leaves : ShardTree
two_leaves = record { leaf_shard_ids = 65536 ∷ 65537 ∷ [] }

two_leaves-new : new (65536 ∷ 65537 ∷ []) ≡ ok two_leaves
unfolding new validate_leaf_partition beq sorted no_duplicates check_leaves decode_shard_id
    require_shard_id check_ancestors encode_shard_id
two_leaves-new = refl

one_leaf-validate : validate_leaf_partition (0 ∷ []) ≡ ok tt
unfolding validate_leaf_partition beq sorted no_duplicates check_leaves decode_shard_id
    require_shard_id check_ancestors
one_leaf-validate = refl

one_leaf-IsPartition : IsPartition one_leaf.leaf_shard_ids
one_leaf-IsPartition = (validate_iff (0 ∷ [])).0 one_leaf-validate

validate_iff_example :
    (validate_leaf_partition (65536 ∷ 65537 ∷ []) ≡ ok tt) ↔ IsPartition (65536 ∷ 65537 ∷ [])
validate_iff_example = validate_iff (65536 ∷ 65537 ∷ [])

route_tx_lem_example :
    (id : ℕ) × (route_tx two_leaves (replicate 32 5) ≡ ok id)
    × (member id two_leaves.leaf_shard_ids ≡ true)
    × (selects id (from_le (replicate 32 5)) ≡ true)
    × ((x : ℕ)
        → member x two_leaves.leaf_shard_ids ≡ true
        → selects x (from_le (replicate 32 5)) ≡ true
        → x ≡ id)
route_tx_lem_example =
    route_tx_lem (65536 ∷ 65537 ∷ []) two_leaves (replicate 32 5) two_leaves-new refl

apply_split_lem_example :
    (tree' : ShardTree) × (apply_split one_leaf 0 ≡ ok tree')
    × IsPartition tree'.leaf_shard_ids
    × ((x : ℕ)
        → member x tree'.leaf_shard_ids ≡ (
            if x == left_of 0
            then true
            else if x == right_of 0
            then true
            else if x == 0
            then false
            else member x one_leaf.leaf_shard_ids))
unfolding member
apply_split_lem_example = apply_split_lem one_leaf 0 one_leaf-IsPartition refl (omega arith)

one_leaf_split : apply_split one_leaf 0 ≡ ok two_leaves
unfolding apply_split require_shard_id member child_shard_ids decode_shard_id encode_shard_id new
    validate_leaf_partition sorted union discard beq no_duplicates check_leaves check_ancestors
one_leaf_split = refl

root_children : child_shard_ids 0 ≡ ok (65536, 65537)
unfolding child_shard_ids decode_shard_id require_shard_id encode_shard_id
root_children = refl

apply_merge-apply_split_example : apply_merge two_leaves (65536, 65537) ≡ ok one_leaf
apply_merge-apply_split_example =
    apply_merge-apply_split one_leaf two_leaves 0 65536 65537 one_leaf-IsPartition one_leaf_split
      root_children

tree_deserialize-serialize_example : deserialize (serialize one_leaf) ≡ (
    if ltb 65535 (length one_leaf.leaf_shard_ids) then err shard_tree_decode_error else ok one_leaf)
tree_deserialize-serialize_example = tree_deserialize-serialize one_leaf one_leaf-IsPartition

-- The second operation finds the parent of the first one in use.
abbrev batch : List Operation
batch = Operation.shard_split 0 ∷ Operation.shard_merge (65536, 65537) ∷ []

abbrev batch_update : ShardTreeUpdate
batch_update = record {
  tree = two_leaves;
  applied = Operation.shard_split 0 ∷ [];
  queued = Operation.shard_merge (65536, 65537) ∷ [];
}

batch_applied : apply_operations one_leaf batch ≡ ok batch_update
unfolding apply_operations apply_loop operation_parent member apply_operation apply_split
    require_shard_id child_shard_ids decode_shard_id encode_shard_id new validate_leaf_partition
    sorted union discard beq no_duplicates insert opposite parent_shard_id require_sibling_shards
    check_ancestors check_leaves apply_merge require_operation_tuple
batch_applied = refl

apply_operations_lem_example :
    ((used : List ℕ) × IsBatch one_leaf used batch_update)
    × Separates [] batch batch_update.applied batch_update.queued
apply_operations_lem_example = apply_operations_lem one_leaf batch batch_update batch_applied
