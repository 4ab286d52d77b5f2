-- ===== src/Chain/Merkle.antt =====
-- The ordered Merkle roots of src/tensorpow/chain/merkle.py.
pub mod Total
use tensor_po_w.Base.{
  ℕ, suc, zero, ◌++◌, not, Bool, ◌&&◌, List, [], ◌∷◌, length, Result, ok, err, stuck, value_error,
  raise_if, ◌>>◌, ◌>>=◌,
}
use tensor_po_w.Base.Bytes.{Bytes, to_le, int_to_bytes, distinct}
use tensor_po_w.Checks.{require_max_len, u32_max}
use tensor_po_w.Crypto.Hash.{
  Domain, domain_hash, merkle_leaf_tag, merkle_node_tag, merkle_empty_tag,
}
use tensor_po_w.Crypto.Primitives.{Primitives}

-- `_require_bytes` on each item.
unfoldable pub require_items : List Bytes → Result (Unit {0})
require_items [] = ok tt
require_items (item ∷ items) = do require_max_len item u32_max; require_items items

module _ (p : Primitives) (domain : Domain) where
  -- The leaf of the item at the index `i`.
  unfoldable pub leaf : ℕ → Bytes → Result Bytes
  unfolding int_to_bytes
  leaf i item = do
    index ← int_to_bytes 4 i
    size ← int_to_bytes 4 (length item)
    ok (domain_hash p domain (merkle_leaf_tag ∷ (index ++ (size ++ item))))

  -- The leaves of the items from the index `i` on.
  unfoldable pub leaves : ℕ → List Bytes → Result (List Bytes)
  unfolding leaf
  leaves i [] = ok []
  leaves i (item ∷ items) = do first ← leaf i item; rest ← leaves (suc i) items; ok (first ∷ rest)

  unfoldable pub empty_node : ℕ → ℕ → Result Bytes
  unfolding int_to_bytes
  empty_node level_number i = do
    depth ← int_to_bytes 2 level_number
    index ← int_to_bytes 4 i
    ok (domain_hash p domain (merkle_empty_tag ∷ (depth ++ index)))

  unfoldable pub node : ℕ → ℕ → Bytes → Bytes → Result Bytes
  unfolding int_to_bytes
  node level_number i left right = do
    depth ← int_to_bytes 2 level_number
    index ← int_to_bytes 4 i
    ok (domain_hash p domain (merkle_node_tag ∷ (depth ++ (index ++ (left ++ right)))))

  -- One round of the `while` loop: the pairs of a level, the `i`th first.
  unfoldable pub next_level : ℕ → ℕ → List Bytes → Result (List Bytes)
  unfolding empty_node node
  next_level level_number i [] = ok []
  next_level level_number i (left ∷ []) = do
    right ← empty_node level_number i
    parent ← node level_number i left right
    ok (parent ∷ [])
  next_level level_number i (left ∷ right ∷ level) = do
    parent ← node level_number i left right
    parents ← next_level level_number (suc i) level
    ok (parent ∷ parents)

  -- The `while` loop, on fuel.
  unfoldable pub reduce : ℕ → ℕ → List Bytes → Result Bytes
  reduce fuel level_number [] = err stuck
  reduce fuel level_number (root ∷ []) = ok root
  reduce zero level_number (left ∷ right ∷ level) = err stuck
  reduce (suc fuel) level_number (left ∷ right ∷ level) = do
    parents ← next_level level_number 0 (left ∷ right ∷ level)
    reduce fuel (suc level_number) parents

  -- The tree over the items; a level is longer than the next one, so `length items` rounds do.
  unfoldable pub root_of : List Bytes → Result Bytes
  root_of [] = ok (domain_hash p domain (merkle_empty_tag ∷ to_le 4 0))
  root_of (item ∷ items) = do level ← leaves 0 (item ∷ items); reduce (suc (length items)) 0 level

  -- `ordered_merkle_root`
  unfoldable pub ordered_merkle_root : List Bytes → Bool → Result Bytes
  ordered_merkle_root items reject_duplicates = do
    require_items items
    raise_if (reject_duplicates && not (distinct items)) value_error
    root_of items
