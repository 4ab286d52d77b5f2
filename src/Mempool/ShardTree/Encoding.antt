-- ===== src/Mempool/ShardTree/Encoding.antt =====
-- The encoding of a shard tree is read back, up to the bound on its size.
use tensor_po_w.Base.{
  ℕ, ◌+◌, ◌*◌, ◌^◌, ◌<◌, ltb, ◌≡◌, refl, List, [], ◌∷◌, All, length, map, concat, length-append,
}
use tensor_po_w.Base.{ok, err, arith, inl, inr, Bool-cases, if◌then◌else◌, shard_tree_decode_error}
use tensor_po_w.Base.Bytes.{to_le, length-to_le}
use tensor_po_w.Tx.Reader.{read_u32}
use tensor_po_w.Tx.Reader.Laws.{Accepts, >>=-Accepts, read_uint-Accepts, read_many-Accepts}
use tensor_po_w.Tx.RoundTrip.{read_all-Accepts}
use tensor_po_w.Mempool.ShardTree.Ids.Laws.{IsShardId}
use tensor_po_w.Mempool.ShardTree.Tree.{
  ShardTree, new, serialize, deserialize, read_leaves, as_shard_tree_error,
}
use tensor_po_w.Mempool.ShardTree.Partition.{IsPartition}
use tensor_po_w.Mempool.ShardTree.Partition.Validation.{validate_iff}

length-leaves : (ids : List ℕ) → length (concat (map (to_le 4) ids)) ≡ 4 * length ids
length-leaves [] = omega arith
length-leaves (x ∷ xs) = omega (
  arith,
  length-append (to_le 4 x) (concat (map (to_le 4) xs)),
  length-to_le 4 x,
  length-leaves xs,
)

length-serialize : (t : ShardTree) → length (serialize t) ≡ 4 + 4 * length t.leaf_shard_ids
unfolding serialize
length-serialize t = omega (
  arith,
  length-append (to_le 4 (length t.leaf_shard_ids)) (concat (map (to_le 4) t.leaf_shard_ids)),
  length-to_le 4 (length t.leaf_shard_ids),
  length-leaves t.leaf_shard_ids,
)

leaves-Accept :
    (ids : List ℕ) → All IsShardId ids → All (λ id. Accepts read_u32 (to_le 4 id) id) ids
leaves-Accept [] h = tt
leaves-Accept (id ∷ ids) (hx, h) =
    (read_uint-Accepts 4 id (omega arith) (omega (arith, hx.depth_fits)), leaves-Accept ids h)

read_leaves-Accepts :
    (t : ShardTree)
    → All IsShardId t.leaf_shard_ids
    → length t.leaf_shard_ids < 2 ^ 16
    → Accepts read_leaves (serialize t) t.leaf_shard_ids
unfolding read_leaves serialize
read_leaves-Accepts t valid few =
    >>=-Accepts _ _ (read_uint-Accepts 4 (length t.leaf_shard_ids) (omega arith) (omega arith))
      (read_many-Accepts read_u32 (to_le 4) t.leaf_shard_ids (leaves-Accept t.leaf_shard_ids valid))

too_long : (t : ShardTree) → ltb 262144 (length (serialize t)) ≡ ltb 65535 (length t.leaf_shard_ids)
too_long t = ground (arith, length-serialize t)

-- A tree that the constructor accepts is read back from its serialization exactly if it has fewer
-- than 2 ^ 16 leaves: the tree of all the 2 ^ 16 shards of depth 16 is valid, but its count takes
-- four bytes over the bound, and ShardTreeDecodeError refuses it.
pub tree_deserialize-serialize :
    (t : ShardTree)
    → IsPartition t.leaf_shard_ids
    → deserialize (serialize t)
      ≡ (if ltb 65535 (length t.leaf_shard_ids) then err shard_tree_decode_error else ok t)
unfolding deserialize as_shard_tree_error new
tree_deserialize-serialize t h = elim (Bool-cases (ltb 65535 (length t.leaf_shard_ids))) [
  | inl many ↦ rw (too_long t, many) refl
  | inr few ↦
      let accepted = read_leaves-Accepts t h.valid (ground arith) in
      rw
        (
          too_long t,
          few,
          read_all-Accepts read_leaves accepted,
          (validate_iff t.leaf_shard_ids).1 h,
        )
        refl
]
