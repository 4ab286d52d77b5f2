-- ===== src/Mempool/ShardTree/Routing.antt =====
-- Routing in a tree that the constructor accepted.
use tensor_po_w.Base.{ℕ, ◌==◌, ==_iff, ◌≡◌, refl, sym, ap, ◌∙◌, List, [], ◌∷◌, All, length}
use tensor_po_w.Base.{true, ok, arith, inl, inr, Bool-cases, if◌then◌else◌}
use tensor_po_w.Base.{checked-eq-ok}
use tensor_po_w.Base.Bytes.{Bytes, from_le}
use tensor_po_w.Base.Dict.{nat_eq, member}
use tensor_po_w.Checks.{require_hash_lem}
use tensor_po_w.Mempool.ShardTree.Ids.Laws.{IsShardId, selects, decode-IsShardId}
use tensor_po_w.Mempool.ShardTree.Tree.{
  ShardTree, new, find_leaf, route_tx, validate_leaf_partition,
}
use tensor_po_w.Mempool.ShardTree.Counting.{hits, hits-member}
use tensor_po_w.Mempool.ShardTree.Partition.{IsPartition}
use tensor_po_w.Mempool.ShardTree.Partition.Validation.{validate_iff}

find_leaf-cons :
    (r id : ℕ) (ids : List ℕ)
    → IsShardId id
    → find_leaf r (id ∷ ids) ≡ (if selects id r then ok id else find_leaf r ids)
unfolding find_leaf selects
find_leaf-cons r id ids h = rw (decode-IsShardId id h) refl

-- Where one leaf selects the route, the loop finds it.
find_leaf_lem :
    (r : ℕ) (ids : List ℕ)
    → All IsShardId ids
    → hits ids r ≡ 1
    → (id : ℕ) × (find_leaf r ids ≡ ok id)
      × (member id ids ≡ true)
      × (selects id r ≡ true)
      × ((x : ℕ) → member x ids ≡ true → selects x r ≡ true → x ≡ id)
unfolding hits member
find_leaf_lem r [] valid once = cc
find_leaf_lem r (id ∷ ids) (here, valid) once = elim (Bool-cases (selects id r)) [
  | inl chosen ↦
      let none_later : hits ids r ≡ 0 = ground arith in
      (
        id,
        find_leaf-cons r id ids here ∙ rw chosen refl,
        ground arith,
        chosen,
        λ x m s. elim (Bool-cases (x == id)) [
          | inl same ↦ (==_iff x id).0 same
          | inr apart ↦
              let again = hits-member x r ids (ground (arith, m)) s in absurd (omega arith)
        ],
      )
  | inr other ↦
      let (found, e, place, chosen, alone) = find_leaf_lem r ids valid (ground arith) in
      (
        found,
        find_leaf-cons r id ids here ∙ rw other e,
        ground arith,
        chosen,
        λ x m s. elim (Bool-cases (x == id)) [
          | inl same ↦
              let s' : selects id r ≡ true =
                ap (λ z. selects z r) (sym ((==_iff x id).0 same)) ∙ s in
              absurd (cc (s', other))
          | inr apart ↦ alone x (ground (arith, m)) s
        ],
      )
]

pub new-IsPartition :
    (ids : List ℕ) {tree : ShardTree}
    → new ids ≡ ok tree
    → (tree.leaf_shard_ids ≡ ids) × IsPartition tree.leaf_shard_ids
unfolding new
new-IsPartition ids {tree} e =
    let (made, checked) = checked-eq-ok (validate_leaf_partition ids) _ e in
    rw made (refl, (validate_iff ids).0 checked)

-- In a tree that the constructor accepted, `route_tx` sends every hash of 32 bytes to a leaf, and to
-- the only leaf that selects the hash: the loop never runs into its AssertionError.
pub route_tx_lem :
    (ids : List ℕ) (tree : ShardTree) (tx_hash : Bytes)
    → new ids ≡ ok tree
    → length tx_hash ≡ 32
    → (id : ℕ) × (route_tx tree tx_hash ≡ ok id)
      × (member id tree.leaf_shard_ids ≡ true)
      × (selects id (from_le tx_hash) ≡ true)
      × ((x : ℕ)
          → member x tree.leaf_shard_ids ≡ true
          → selects x (from_le tx_hash) ≡ true
          → x ≡ id)
unfolding route_tx
route_tx_lem ids tree tx_hash made size =
    let (_, part) = new-IsPartition ids made in
    let (id, found, place, chosen, alone) =
      find_leaf_lem (from_le tx_hash) tree.leaf_shard_ids part.valid
        (part.covered (from_le tx_hash)) in
    (id, rw (require_hash_lem tx_hash size) found, place, chosen, alone)
