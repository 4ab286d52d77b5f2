-- ===== src/Mempool/Pool/Adding.antt =====
-- `Mempool.add_tx` of src/tensorpow/mempool/mempool.py.
use tensor_po_w.Base.{ℕ, ltb, ◌==◌, false, [], Option, none, some, length, if◌then◌else◌}
use tensor_po_w.Base.{Result, ok, err, ◌>>◌, ◌>>=◌}
use tensor_po_w.Base.Bytes.{Bytes}
use tensor_po_w.Base.Dict.{nat_eq, bytes_eq, lookup, assign, is_some}
use tensor_po_w.Crypto.Primitives.{Primitives}
use tensor_po_w.Tx.Transaction.{Transaction, tx_id}
use tensor_po_w.Mempool.ShardTree.Ids.{require_shard_id}
use tensor_po_w.Mempool.ShardTree.Tree.{route_tx}
use tensor_po_w.Mempool.Pool.{Mempool, Entry, View, AddResult, reject, accept, check_entry}
use tensor_po_w.Mempool.Pool.{malformed, bad_shard, wrong_shard, duplicate, below_fee_floor}
use tensor_po_w.Mempool.Pool.Fees.{fee_floor, or_else}
use tensor_po_w.Mempool.Pool.Spends.{
  Submission, decode_canonical_tx, Assessment, spendable, unspendable, assess_spends,
}
use tensor_po_w.Mempool.Pool.Marks.{mark}

-- `spend_view`
abbrev pub first_of {ℓ} : {A : Type ℓ} → Option A → Option A → Option A
first_of none b = b
first_of (some a) b = some a

-- The new entry in the three dicts.
unfoldable pub put_entry : Mempool → Entry → Mempool
put_entry m e = record m {
  entries = assign e.entry_id e m.entries;
  entries_by_shard =
      assign e.shard_id (assign e.entry_id e (or_else (lookup e.shard_id m.entries_by_shard) []))
        m.entries_by_shard;
  spent_outpoints = mark e.entry_id e.tx.inputs m.spent_outpoints;
}

-- The call with the time and the height at which the locks are tested.
pub record Request : Type 0 where
  pub submitted : Submission
  pub requested_shard : Option ℕ
  pub request_view : Option View
  pub current_time_ms : ℕ
  pub current_height : ℕ

-- The requested shard against the routed one.
unfoldable pub check_shard : Option ℕ → ℕ → Bytes → Option AddResult
check_shard none routed id = none
check_shard (some shard_id) routed id = elim (require_shard_id shard_id) [
  | err _ ↦ some (reject bad_shard (some id) none)
  | ok requested ↦
      if requested == routed then none else some (reject wrong_shard (some id) (some requested))
]

module _ (p : Primitives) where
  -- The entry that `add_tx` builds.
  abbrev pub entry_of : Transaction → ℕ → ℕ → ℕ → ℕ → Entry
  entry_of tx tx_size_bytes routed fee rate = record {
    tx = tx;
    entry_id = tx_id p tx;
    shard_id = routed;
    tx_size_bytes = tx_size_bytes;
    fee_matoms = fee;
    fee_rate_matoms_per_kb = rate;
    is_coinbase = false;
  }

  -- The end of `add_tx`, after the assessment.
  unfoldable pub admit : Mempool → Transaction → ℕ → ℕ → Assessment → Result (AddResult × Mempool)
  admit m tx tx_size_bytes routed (unspendable why) =
      ok (reject why (some (tx_id p tx)) (some routed), m)
  admit m tx tx_size_bytes routed (spendable fee rate) = fee_floor m routed >>= λ floor.
      if ltb rate floor
      then ok (reject below_fee_floor (some (tx_id p tx)) (some routed), m)
      else (check_entry p (entry_of tx tx_size_bytes routed fee rate)
          >> ok (
            accept (tx_id p tx) routed fee rate,
            put_entry m (entry_of tx tx_size_bytes routed fee rate),
          ))

  -- `add_tx` of a decoded transaction.
  unfoldable pub add_decoded :
      Mempool → Request → Transaction → Bytes → Result (AddResult × Mempool)
  add_decoded m r tx raw = do
    routed ← route_tx m.shard_tree (tx_id p tx)
    elim (check_shard r.requested_shard routed (tx_id p tx)) [
      | some refusal ↦ ok (refusal, m)
      | none ↦
          if is_some (lookup (tx_id p tx) m.entries)
          then ok (reject duplicate (some (tx_id p tx)) (some routed), m)
          else (assess_spends p m.spent_outpoints tx (length raw)
                (first_of r.request_view m.utxo_view) r.current_time_ms r.current_height
              >>= admit m tx (length raw) routed)
    ]

  -- `add_tx`
  unfoldable pub add_tx : Mempool → Request → Result (AddResult × Mempool)
  add_tx m r = elim (decode_canonical_tx r.submitted) [
    | none ↦ ok (reject malformed none none, m)
    | some (tx, raw) ↦ add_decoded m r tx raw
  ]
