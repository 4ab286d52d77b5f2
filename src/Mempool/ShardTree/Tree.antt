-- ===== src/Mempool/ShardTree/Tree.antt =====
-- `class ShardTree` of src/tensorpow/mempool/shard_tree.py: the constructor's test that the leaves
-- partition the root, routing and the encoding.
use tensor_po_w.Base.{
  ℕ, zero, suc, ◌+◌, ◌-◌, ◌^◌, ltb, ◌==◌, not, length, List, [], ◌∷◌, ◌++◌, map, concat,
}
use tensor_po_w.Base.{
  Result, ok, err, value_error, assertion_error, raise_if, ◌>>◌, ◌>>=◌, if◌then◌else◌,
}
use tensor_po_w.Base.{tx_decode_error, shard_tree_decode_error}
use tensor_po_w.Base.Bytes.{Bytes, beq, to_le, from_le}
use tensor_po_w.Base.Dict.{nat_eq, member, no_duplicates}
use tensor_po_w.Base.Sorted.{sorted}
use tensor_po_w.Checks.{require_hash}
use tensor_po_w.Crypto.Primitives.{Primitives}
use tensor_po_w.Crypto.Hash.{domain_hash, shard_tree}
use tensor_po_w.Tx.Reader.{Parser, read_u32, read_many, read_all}
use tensor_po_w.Tx.Reader.{◌>>=◌ as bind_parser}
use tensor_po_w.Mempool.ShardTree.Ids.{shard_max_depth, encode_shard_id, decode_shard_id, low_bits}

abbrev pub shard_tree_max_bytes : ℕ
shard_tree_max_bytes = 262_144

pub record ShardTree : Type 0 where
  pub leaf_shard_ids : List ℕ

-- The loop over the ancestors of one leaf, `n` depths from `ancestor_depth` on.
unfoldable pub check_ancestors : ℕ → ℕ → ℕ → List ℕ → Result (Unit {0})
check_ancestors zero ancestor_depth path seen = ok tt
check_ancestors (suc n) ancestor_depth path seen = do
  ancestor ← encode_shard_id ancestor_depth (low_bits ancestor_depth path)
  raise_if (member ancestor seen) value_error
  check_ancestors n (suc ancestor_depth) path seen

-- The loop over the leaves; the result is the coverage.
unfoldable pub check_leaves : List ℕ → List ℕ → ℕ → Result ℕ
check_leaves [] seen coverage = ok coverage
check_leaves (shard_id ∷ ids) seen coverage = do
  (depth, path) ← decode_shard_id shard_id
  check_ancestors depth 0 path seen
  check_leaves ids (shard_id ∷ seen) (coverage + 2 ^ (shard_max_depth - depth))

-- `_validate_leaf_partition`
unfoldable pub validate_leaf_partition : List ℕ → Result (Unit {0})
validate_leaf_partition ids = do
  raise_if (length ids == 0) value_error
  raise_if (not (beq (sorted ltb ids) ids)) value_error
  raise_if (not (no_duplicates ids)) value_error
  coverage ← check_leaves ids [] 0
  raise_if (not (coverage == 2 ^ shard_max_depth)) value_error

-- `ShardTree(leaf_shard_ids)`
unfoldable pub new : List ℕ → Result ShardTree
new ids = do validate_leaf_partition ids; ok (record { leaf_shard_ids = ids })

-- The loop of `route_tx`.
unfoldable pub find_leaf : ℕ → List ℕ → Result ℕ
find_leaf route [] = err assertion_error
find_leaf route (shard_id ∷ ids) = do
  (depth, path) ← decode_shard_id shard_id
  if path == low_bits depth route then ok shard_id else find_leaf route ids

-- `route_tx`
unfoldable pub route_tx : ShardTree → Bytes → Result ℕ
route_tx tree tx_hash = do require_hash tx_hash; find_leaf (from_le tx_hash) tree.leaf_shard_ids

unfoldable pub serialize : ShardTree → Bytes
serialize tree = to_le 4 (length tree.leaf_shard_ids) ++ concat (map (to_le 4) tree.leaf_shard_ids)

-- The reader is the transactions': its TxDecodeError stands for the ShardTreeDecodeError that this
-- module's reader raises, and the constructor's errors become one.
unfoldable pub as_shard_tree_error : {A : Type 0} → Result A → Result A
as_shard_tree_error (ok a) = ok a
as_shard_tree_error (err value_error) = err shard_tree_decode_error
as_shard_tree_error (err tx_decode_error) = err shard_tree_decode_error
as_shard_tree_error (err e) = err e

unfoldable pub read_leaves : Parser (List ℕ)
read_leaves = bind_parser read_u32 (λ leaf_count. read_many leaf_count read_u32)

unfoldable pub deserialize : Bytes → Result ShardTree
deserialize bs = as_shard_tree_error (do
  raise_if (ltb shard_tree_max_bytes (length bs)) shard_tree_decode_error
  ids ← read_all read_leaves bs
  new ids)

module _ (p : Primitives) where
  -- `shard_tree_root`
  unfoldable pub shard_tree_root : Bytes → Result Bytes
  shard_tree_root bs = do
    raise_if (ltb shard_tree_max_bytes (length bs)) value_error
    ok (domain_hash p shard_tree bs)

  -- `state_root` and `commitment_root`
  unfoldable pub state_root : ShardTree → Result Bytes
  state_root tree = shard_tree_root (serialize tree)
