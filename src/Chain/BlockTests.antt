-- ===== src/Chain/BlockTests.antt =====
-- The theorems on block bodies at concrete inputs.
use tensor_po_w.Mempool.ShardTree.Tree.{serialize}
use tensor_po_w.Chain.Merkle.{
  next_level, leaves, reduce, root_of, require_items, ordered_merkle_root,
}
use tensor_po_w.Chain.Blocks.{
  parent_candidate_root, fee_floor_set_root, anchor_reward_root, fruit_set_root, require_hash_tuple,
  tx_id, tx_merkle_root, require_root, payload_sum, fruit_payload_size_bytes, require_tx_tuple,
  FeeFloorEntry, entry_bytes, check_entry,
}
use tensor_po_w.Base.Sorted.{insert, blt, sorted}
use tensor_po_w.Base.Dict.{member, no_duplicates}
use tensor_po_w.Base.Bytes.{contains, distinct, beq, Bytes, to_le}
use tensor_po_w.Tx.Payload.{require_template_payload}
use tensor_po_w.Chain.Headers.{require_shard_id, require_sig_mask, require_format_epoch}
use tensor_po_w.Base.{◌≡◌, refl, [], ◌∷◌, length, ok, replicate, arith, ◌++◌}
use tensor_po_w.Crypto.Hash.{
  domain_hash, merkle_leaf_tag, merkle_empty_tag, tx_id as tx_id_domain,
  tx_merkle_root as tx_domain, fruit_set_root as fruit_domain,
  parent_candidate_root as candidate_domain, shard_tree as shard_domain, fee_floor as fee_domain,
  anchor_reward_root as reward_domain, Domain,
}
use tensor_po_w.Crypto.Toy.{toy}
use tensor_po_w.Chain.Headers.Fruit.{FruitHeader as FruitHeaderData}
use tensor_po_w.Chain.Headers.Anchor.{AnchorHeader as AnchorHeaderData}
use tensor_po_w.Chain.Blocks.Fruit.{Fruit, fruit_body_deserialize-serialize}
use tensor_po_w.Chain.Blocks.Anchor.{Anchor}
use tensor_po_w.Chain.Blocks.Anchor.RoundTrip.{Holds, anchor_body_deserialize-serialize}
use tensor_po_w.Tx.Output.{Output}
use tensor_po_w.Chain.Headers.Fruit as FruitHeader
use tensor_po_w.Chain.Headers.Anchor as AnchorHeader
use tensor_po_w.Chain.Blocks.Fruit as FruitBody
use tensor_po_w.Chain.Blocks.Anchor as AnchorBody
use tensor_po_w.Tx.Output

-- The root over one item.
abbrev root_of_one : Domain → Bytes → Bytes
root_of_one d item =
    domain_hash toy d (merkle_leaf_tag ∷ (to_le 4 0 ++ (to_le 4 (length item) ++ item)))

abbrev tx_bytes : Bytes
tx_bytes = 1 ∷ 2 ∷ 3 ∷ []

abbrev fruit_body : Fruit
fruit_body = record {
  header = record {
    version = 0;
    sig_type_supported = 1;
    parent_selected = replicate 32 1;
    parent_bitmap = 5 ∷ 0 ∷ [];
    latest_anchor = replicate 32 2;
    tx_merkle_root = root_of_one tx_domain (domain_hash toy tx_id_domain tx_bytes);
    timestamp_ms = 1700000000000;
    shard_id = 0;
    nonce = 9;
  };
  transactions = tx_bytes ∷ [];
}

fruit_body-header : FruitHeader.check fruit_body.header ≡ ok tt
unfolding FruitHeader.check require_format_epoch require_sig_mask domain_hash require_shard_id
fruit_body-header = refl

fruit_body-check : FruitBody.check toy fruit_body ≡ ok tt
unfolding FruitBody.check require_tx_tuple fruit_payload_size_bytes payload_sum require_root
    tx_merkle_root ordered_merkle_root require_items tx_id domain_hash root_of reduce leaves beq
    to_le
fruit_body-check = refl

fruit_body_deserialize-serialize_example :
    FruitBody.deserialize toy (FruitBody.serialize fruit_body) ≡ ok fruit_body
fruit_body_deserialize-serialize_example =
    fruit_body_deserialize-serialize toy fruit_body fruit_body-header fruit_body-check

abbrev entry : FeeFloorEntry
entry = record { shard_id = 0; floor_matoms_per_kb = 7 }

abbrev reward : Output
reward = record {
  amount_matoms = 10;
  template_id = 0;
  locktime_ms = 0;
  lockheight = 0;
  payload = replicate 32 4;
}

abbrev tree_bytes : Bytes
tree_bytes = 1 ∷ 0 ∷ 0 ∷ 0 ∷ 0 ∷ 0 ∷ 0 ∷ 0 ∷ []

abbrev anchor_body : Anchor
anchor_body = record {
  header = record {
    version = 0;
    parent_anchor = replicate 32 1;
    fruit_set_root = root_of_one fruit_domain (replicate 32 8);
    parent_candidate_root = domain_hash toy candidate_domain (merkle_empty_tag ∷ to_le 4 0);
    shard_tree_state_root = domain_hash toy shard_domain tree_bytes;
    fee_floor_set_root = root_of_one fee_domain (entry_bytes entry);
    anchor_reward_root = root_of_one reward_domain (Output.to_bytes reward);
    timestamp_ms = 1700000000000;
    nonce = 9;
  };
  covered_fruit_hashes = replicate 32 8 ∷ [];
  parent_candidate_hashes = [];
  shard_tree_bytes = tree_bytes;
  fee_floor_entries = entry ∷ [];
  anchor_reward_outputs = reward ∷ [];
  genesis_commitment = replicate 32 0;
}

anchor_body-header : AnchorHeader.check anchor_body.header ≡ ok tt
unfolding AnchorHeader.check require_format_epoch domain_hash
anchor_body-header = refl

reward-check : Output.check reward ≡ ok tt
unfolding Output.check require_template_payload
reward-check = refl

anchor_body-check : AnchorBody.check toy anchor_body ≡ ok tt
unfolding AnchorBody.check AnchorBody.check_shape require_hash_tuple distinct
    FruitHeader.require_hashes AnchorBody.same_hashes sorted beq AnchorBody.same_entries
    no_duplicates AnchorBody.check_genesis AnchorBody.check_roots require_root fruit_set_root
    ordered_merkle_root require_items root_of contains to_le member blt insert
    AnchorBody.validate_genesis_empty_state anchor_reward_root entry_bytes fee_floor_set_root
    parent_candidate_root leaves next_level reduce domain_hash serialize Output.to_bytes
anchor_body-check = refl

entry-check : check_entry entry ≡ ok tt
unfolding check_entry require_shard_id
entry-check = refl

anchor_body-Holds : Holds anchor_body
anchor_body-Holds = record {
  header_ok = anchor_body-header;
  entries_ok = (entry-check, tt);
  outputs_ok = (reward-check, tt);
  covered_fit = omega arith;
  entries_fit = omega arith;
  outputs_fit = omega arith;
}

anchor_body_deserialize-serialize_example :
    (bs : Bytes) × (AnchorBody.serialize anchor_body ≡ ok bs)
    × (AnchorBody.deserialize toy bs ≡ ok anchor_body)
anchor_body_deserialize-serialize_example =
    anchor_body_deserialize-serialize toy anchor_body anchor_body-Holds anchor_body-check
