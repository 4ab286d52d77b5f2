-- ===== src/Mempool/Pool.antt =====
-- `class Mempool` of src/tensorpow/mempool/mempool.py: its state and the records it hands out. The
-- dicts are association lists: where the code reads their order, it sorts by a key that tells any
-- two entries apart.
use tensor_po_w.Base.{
  ℕ, ◌*◌, ◌/◌, ltb, not, ◌==◌, Bool, true, false, List, [], ◌∷◌, Option, none, some, length,
}
use tensor_po_w.Base.{Result, ok, err, value_error, raise_if, ◌>>◌, ◌>>=◌}
use tensor_po_w.Base.Bytes.{Bytes, beq}
use tensor_po_w.Base.Dict.{nat_eq, bytes_eq, lookup, assign}
use tensor_po_w.Checks.{require_hash}
use tensor_po_w.Crypto.Primitives.{Primitives}
use tensor_po_w.State.Outpoint.{Outpoint}
use tensor_po_w.State.Utxo.{Utxo}
use tensor_po_w.Tx.Transaction.{Transaction, tx_id, max_tx_bytes}
use tensor_po_w.Mempool.ShardTree.Ids.{require_shard_id}
use tensor_po_w.Mempool.ShardTree.Tree.{ShardTree}
pub mod Fees
pub mod Spends
pub mod Marks
pub mod Adding
pub mod Removing
pub mod Selection
pub mod Consistent
pub mod Outcome
pub mod Reachable
pub mod ByShard

abbrev pub bytes_per_kb : ℕ
bytes_per_kb = 1000

-- `UTXOView.get`
abbrev pub View : Type 0
View = Outpoint → Option Utxo

-- The texts of `MempoolAddResult.reason`.
pub data Reason : Type 0 where
  malformed bad_shard wrong_shard duplicate below_fee_floor : Reason
  coinbase_not_relayable missing_utxo_view tx_lock_unmatured : Reason
  duplicate_input conflict missing_input script_failed negative_fee : Reason

pub record AddResult : Type 0 where
  pub accepted : Bool
  pub result_tx_id : Option Bytes
  pub result_shard_id : Option ℕ
  pub reason : Option Reason
  pub result_fee : Option ℕ
  pub result_fee_rate : Option ℕ

-- `MempoolAddResult.reject`
abbrev pub reject : Reason → Option Bytes → Option ℕ → AddResult
reject reason id shard_id = record {
  accepted = false;
  result_tx_id = id;
  result_shard_id = shard_id;
  reason = some reason;
  result_fee = none;
  result_fee_rate = none;
}

-- `MempoolAddResult.ok`
abbrev pub accept : Bytes → ℕ → ℕ → ℕ → AddResult
accept id shard_id fee rate = record {
  accepted = true;
  result_tx_id = some id;
  result_shard_id = some shard_id;
  reason = none;
  result_fee = some fee;
  result_fee_rate = some rate;
}

-- `MempoolEntry`
pub record Entry : Type 0 where
  pub tx : Transaction
  pub entry_id : Bytes
  pub shard_id : ℕ
  pub tx_size_bytes : ℕ
  pub fee_matoms : ℕ
  pub fee_rate_matoms_per_kb : ℕ
  pub is_coinbase : Bool

-- `MempoolEntry.__post_init__`
unfoldable pub check_entry : Primitives → Entry → Result (Unit {0})
check_entry p e = do
  require_hash e.entry_id
  raise_if (not (beq (tx_id p e.tx) e.entry_id)) value_error
  _ ← require_shard_id e.shard_id
  raise_if (e.tx_size_bytes == 0) value_error
  raise_if (ltb max_tx_bytes e.tx_size_bytes) value_error

-- `FeeFloorSample`
pub record FeeSample : Type 0 where
  pub sample_shard : ℕ
  pub floor_eligible_fees_matoms : ℕ
  pub payload_bytes : ℕ

pub record Mempool : Type 0 where
  pub shard_tree : ShardTree
  pub utxo_view : Option View
  pub entries : List (Bytes × Entry)
  pub entries_by_shard : List (ℕ × List (Bytes × Entry))
  pub spent_outpoints : List (Outpoint × Bytes)
  pub fee_floors : List (ℕ × ℕ)
  pub fee_histories : List (ℕ × List FeeSample)

-- `Mempool(shard_tree=…, utxo_view=…)`
abbrev pub empty : ShardTree → Option View → Mempool
empty tree view = record {
  shard_tree = tree;
  utxo_view = view;
  entries = [];
  entries_by_shard = [];
  spent_outpoints = [];
  fee_floors = [];
  fee_histories = [];
}

-- `get_entry`
unfoldable pub get_entry : Mempool → Bytes → Option Entry
get_entry m id = lookup id m.entries
