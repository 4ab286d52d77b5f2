-- ===== src/State/Proofs.antt =====
-- Sparse Merkle proofs of src/tensorpow/state/utxo.py: the proofs and `UTXOSet.verify_proof`. The
-- tree has 256 levels, and the bits of an outpoint's key say the way down from the root.
use tensor_po_w.Base.{
  ℕ, suc, zero, ◌-◌, ◌/◌, ◌%◌, ◌^◌, ◌==◌, ◌++◌, ltb, not, Bool, true, false, List, [], ◌∷◌,
}
use tensor_po_w.Base.{
  length, get_elem?, none, some, Result, ok, err, raise_if, value_error, ◌>>◌, if◌then◌else◌,
}
use tensor_po_w.Base.Bytes.{Bytes, beq, to_le, distinct}
use tensor_po_w.Checks.{require_hash, require_uint, u16_max}
use tensor_po_w.Crypto.Primitives.{Primitives}
use tensor_po_w.Crypto.Hash.{domain_hash, merkle_leaf, merkle_node, merkle_empty, merkle_depth_bits}
use tensor_po_w.State.Outpoint.{Outpoint, key}
use tensor_po_w.State.Utxo.{Utxo, value_hash}
use tensor_po_w.State.UtxoSet.{same}

-- `UTXOInclusionProof`, `UTXONonInclusionProof`
pub data Proof : Type 0 where
  inclusion : (outpoint : Outpoint) (utxo : Utxo) (siblings : List Bytes) → Proof
  non_inclusion : (outpoint : Outpoint) (empty_depth : ℕ) (siblings : List Bytes) → Proof

unfoldable pub require_each_hash : List Bytes → Result (Unit {0})
require_each_hash [] = ok tt
require_each_hash (h ∷ hs) = do require_hash h; require_each_hash hs

-- `_require_siblings`
unfoldable pub require_siblings : List Bytes → ℕ → Result (Unit {0})
require_siblings siblings expected_len = do
  raise_if (not (length siblings == expected_len)) value_error
  require_each_hash siblings
  raise_if (not (distinct siblings)) value_error

-- The two `__post_init__`.
unfoldable pub check : Proof → Result (Unit {0})
check (inclusion outpoint utxo siblings) = do
  raise_if (not (same utxo.outpoint outpoint)) value_error
  require_siblings siblings merkle_depth_bits
check (non_inclusion outpoint empty_depth siblings) = do
  require_uint empty_depth u16_max
  raise_if (ltb merkle_depth_bits empty_depth) value_error
  require_siblings siblings empty_depth

-- `_bit_at`, for a bit of the key.
unfoldable pub bit_at : Bytes → ℕ → ℕ
bit_at k bit_index = elim (get_elem? k (bit_index / 8)) [
  | none ↦ 0
  | some b ↦ (b / 2 ^ (7 - bit_index % 8)) % 2
]

module _ (p : Primitives) where
  -- `_leaf_hash`, of a key and a value that are hashes.
  unfoldable pub leaf_hash : Bytes → Bytes → Bytes
  leaf_hash k value = domain_hash p merkle_leaf (k ++ value)

  -- `_node_hash`, of hashes at a depth below 256.
  unfoldable pub node_hash : ℕ → Bytes → Bytes → Bytes
  node_hash depth left right = domain_hash p merkle_node (to_le 2 depth ++ (left ++ right))

  -- `_empty_hash`, at a depth of at most 256.
  unfoldable pub empty_hash : ℕ → Bytes
  empty_hash depth = domain_hash p merkle_empty (to_le 2 depth)

  -- The loop of `verify_proof` from the depth down to the root; `none` is an index past the
  -- siblings, which their length test excludes.
  unfoldable pub climb : Bytes → List Bytes → ℕ → Bytes → Bytes
  climb k siblings zero node = node
  climb k siblings (suc bit_index) node = elim (get_elem? siblings bit_index) [
    | none ↦ []
    | some sibling ↦ climb k siblings bit_index (
        if bit_at k bit_index == 0
        then node_hash bit_index node sibling
        else node_hash bit_index sibling node)
  ]

  -- The test of the siblings, whose ValueError is an answer.
  unfoldable pub has_siblings : List Bytes → ℕ → Bool
  has_siblings siblings expected_len = elim (require_siblings siblings expected_len) [
    | ok _ ↦ true
    | err _ ↦ false
  ]

  -- The answer of `verify_proof` behind the check of the root.
  unfoldable pub matches : Outpoint → Proof → Bytes → Bool
  matches o (inclusion outpoint utxo siblings) root =
      if not (same outpoint o)
      then false
      else if not (has_siblings siblings merkle_depth_bits)
      then false
      else if not (same utxo.outpoint o)
      then false
      else beq
          (climb (key p o) siblings merkle_depth_bits (leaf_hash (key p o) (value_hash p utxo)))
          root
  matches o (non_inclusion outpoint empty_depth siblings) root =
      if not (same outpoint o)
      then false
      else if not (has_siblings siblings empty_depth)
      then false
      else if ltb merkle_depth_bits empty_depth
      then false
      else beq (climb (key p o) siblings empty_depth (empty_hash empty_depth)) root

  -- `verify_proof`
  unfoldable pub verify_proof : Outpoint → Proof → Bytes → Result Bool
  verify_proof o proof root = do require_hash root; ok (matches o proof root)
