-- ===== src/Chain/Tests.antt =====
-- The theorems on headers and Merkle roots at concrete inputs.
use tensor_po_w.Base.{◌≡◌, refl, [], ◌∷◌, List, length, ok, true, false, not, ◌&&◌, replicate}
use tensor_po_w.Base.{◌^◌, ◌≤◌, ◌<◌, ◌⊎◌, err, overflow_error}
use tensor_po_w.Base.Bytes.{Bytes, distinct, beq, contains}
use tensor_po_w.Crypto.Hash.{tx_merkle_root}
use tensor_po_w.Crypto.Toy.{toy}
use tensor_po_w.Chain.Headers.{require_format_epoch, require_sig_mask, require_shard_id}
use tensor_po_w.Chain.Headers.Fruit
use tensor_po_w.Chain.Headers.Fruit.{FruitHeader, fruit_deserialize-serialize}
use tensor_po_w.Chain.Headers.Anchor
use tensor_po_w.Chain.Headers.Anchor.{AnchorHeader, anchor_deserialize-serialize}
use tensor_po_w.Chain.Merkle.{require_items, ordered_merkle_root}
use tensor_po_w.Chain.Merkle.Total.{ordered_merkle_root-total}

-- The shard id has depth 2 and path 3.
abbrev fruit : FruitHeader
fruit = record {
  version = 0;
  sig_type_supported = 1;
  parent_selected = replicate 32 1;
  parent_bitmap = 5 ∷ 0 ∷ [];
  latest_anchor = replicate 32 2;
  tx_merkle_root = replicate 32 3;
  timestamp_ms = 1700000000000;
  shard_id = 0x2_0003;
  nonce = 9;
}

fruit-check : Fruit.check fruit ≡ ok tt
unfolding Fruit.check require_format_epoch require_sig_mask require_shard_id
fruit-check = refl

-- Bits 0 and 2 select their candidates.
fruit-effective :
    Fruit.effective_parent_hashes fruit (replicate 32 7 ∷ replicate 32 8 ∷ replicate 32 9 ∷ [])
    ≡ ok (replicate 32 1 ∷ replicate 32 7 ∷ replicate 32 9 ∷ [])
unfolding Fruit.effective_parent_hashes Fruit.require_hashes Fruit.selected Fruit.bit
    Fruit.has_bits_beyond Fruit.has_bits distinct contains beq
fruit-effective = refl

abbrev anchor : AnchorHeader
anchor = record {
  version = 0;
  parent_anchor = replicate 32 1;
  fruit_set_root = replicate 32 2;
  parent_candidate_root = replicate 32 3;
  shard_tree_state_root = replicate 32 4;
  fee_floor_set_root = replicate 32 5;
  anchor_reward_root = replicate 32 6;
  timestamp_ms = 1700000000000;
  nonce = 9;
}

anchor-check : Anchor.check anchor ≡ ok tt
unfolding Anchor.check require_format_epoch
anchor-check = refl

abbrev three_items : List Bytes
three_items = (1 ∷ []) ∷ (2 ∷ []) ∷ (3 ∷ []) ∷ []

three_items-required : require_items three_items ≡ ok tt
unfolding require_items
three_items-required = refl

three_items-distinct : (true && not (distinct three_items)) ≡ false
unfolding distinct contains beq
three_items-distinct = refl

ordered_merkle_root-total_example :
    ((length three_items ≤ 2 ^ 32)
      × ((root : Bytes) × (ordered_merkle_root toy tx_merkle_root three_items true ≡ ok root)
          × (length root ≡ 32)))
    ⊎ ((2 ^ 32 < length three_items)
        × (ordered_merkle_root toy tx_merkle_root three_items true ≡ err overflow_error))
ordered_merkle_root-total_example =
    ordered_merkle_root-total toy tx_merkle_root three_items true three_items-required
      three_items-distinct
