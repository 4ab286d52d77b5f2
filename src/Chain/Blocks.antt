-- ===== src/Chain/Blocks.antt =====
-- The bodies of src/tensorpow/chain/blocks.py: what fruits and anchors share.
use tensor_po_w.Base.{
  ℕ, ◌+◌, ◌≡◌, ◌++◌, ltb, not, Bool, true, false, ◌&&◌, ◌==◌, List, [], ◌∷◌, map, length, Result,
  ok, err,
}
use tensor_po_w.Base.{value_error, tx_decode_error, block_decode_error, raise_if, ◌>>◌, ◌>>=◌}
use tensor_po_w.Base.Bytes.{Bytes, beq, to_le, distinct}
use tensor_po_w.Checks.{require_uint, require_hash, require_max_len, u16_max, u64_max}
use tensor_po_w.Crypto.Primitives.{Primitives}
use tensor_po_w.Crypto.Hash.{
  domain_hash, tx_id as tx_id_domain, tx_merkle_root as tx_merkle_root_domain,
}
use tensor_po_w.Crypto.Hash.{
  fruit_set_root as fruit_set_root_domain, parent_candidate_root as parent_candidate_root_domain,
}
use tensor_po_w.Crypto.Hash.{
  fee_floor as fee_floor_domain, anchor_reward_root as anchor_reward_root_domain,
}
use tensor_po_w.Chain.Headers.{require_shard_id}
use tensor_po_w.Chain.Headers.Fruit.{require_hashes}
use tensor_po_w.Chain.Merkle.{ordered_merkle_root}
use tensor_po_w.Tx.Output
use tensor_po_w.Tx.Output.{Output}
pub mod Fruit
pub mod Anchor

abbrev pub max_fruit_payload_bytes : ℕ
max_fruit_payload_bytes = 8192

abbrev pub min_fruit_tx_count : ℕ
min_fruit_tx_count = 1

abbrev pub u16_bytes : ℕ
u16_bytes = 2

abbrev pub parent_candidate_max_count : ℕ
parent_candidate_max_count = 10_000

-- `_require_tx_tuple`
unfoldable pub require_tx_tuple : List Bytes → Result (Unit {0})
require_tx_tuple [] = ok tt
require_tx_tuple (tx ∷ txs) = do require_max_len tx u16_max; require_tx_tuple txs

unfoldable pub payload_sum : List Bytes → ℕ
payload_sum [] = 0
payload_sum (tx ∷ txs) = u16_bytes + length tx + payload_sum txs

-- `fruit_payload_size_bytes`
unfoldable pub fruit_payload_size_bytes : List Bytes → Result ℕ
fruit_payload_size_bytes txs = do require_tx_tuple txs; ok (u16_bytes + payload_sum txs)

-- `_require_hash_tuple`
unfoldable pub require_hash_tuple : List Bytes → Result (Unit {0})
require_hash_tuple values = do raise_if (not (distinct values)) value_error; require_hashes values

pub record FeeFloorEntry : Type 0 where
  pub shard_id : ℕ
  pub floor_matoms_per_kb : ℕ

-- `FeeFloorEntry.__post_init__`
unfoldable pub check_entry : FeeFloorEntry → Result (Unit {0})
check_entry e = do require_shard_id e.shard_id; require_uint e.floor_matoms_per_kb u64_max

-- `FeeFloorEntry.serialize`
unfoldable pub entry_bytes : FeeFloorEntry → Bytes
entry_bytes e = to_le 4 e.shard_id ++ to_le 8 e.floor_matoms_per_kb

module _ (p : Primitives) where
  -- `tx_id`
  unfoldable pub tx_id : Bytes → Bytes
  tx_id tx_bytes = domain_hash p tx_id_domain tx_bytes

  -- `tx_merkle_root`
  unfoldable pub tx_merkle_root : List Bytes → Result Bytes
  tx_merkle_root txs = ordered_merkle_root p tx_merkle_root_domain (map tx_id txs) false

  -- `fruit_set_root`
  unfoldable pub fruit_set_root : List Bytes → Result Bytes
  fruit_set_root hashes = do
    require_hash_tuple hashes
    ordered_merkle_root p fruit_set_root_domain hashes true

  -- `parent_candidate_root`
  unfoldable pub parent_candidate_root : List Bytes → Result Bytes
  parent_candidate_root hashes = do
    require_hash_tuple hashes
    ordered_merkle_root p parent_candidate_root_domain hashes true

  -- `fee_floor_set_root`
  unfoldable pub fee_floor_set_root : List FeeFloorEntry → Result Bytes
  fee_floor_set_root entries =
      ordered_merkle_root p fee_floor_domain (map entry_bytes entries) false

  -- `anchor_reward_root`
  unfoldable pub anchor_reward_root : List Output → Result Bytes
  anchor_reward_root outputs =
      ordered_merkle_root p anchor_reward_root_domain (map Output.to_bytes outputs) false

  -- `if root != header_root: raise ValueError`
  unfoldable pub require_root : Result Bytes → Bytes → Result (Unit {0})
  require_root computed header_root =
      computed >>= λ root. raise_if (not (beq root header_root)) value_error

-- The reader is the transactions': its TxDecodeError stands for the BlockDecodeError that this
-- module's reader raises, and for the one of `_decode_anchor_reward_output`.
unfoldable pub as_reader_error : {A : Type 0} → Result A → Result A
as_reader_error (ok a) = ok a
as_reader_error (err tx_decode_error) = err block_decode_error
as_reader_error (err e) = err e

-- `except (TypeError, ValueError)` around a constructor.
unfoldable pub as_block_error : {A : Type 0} → Result A → Result A
as_block_error (ok a) = ok a
as_block_error (err value_error) = err block_decode_error
as_block_error (err e) = err e
