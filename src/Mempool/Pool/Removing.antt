-- ===== src/Mempool/Pool/Removing.antt =====
-- Removal and eviction of src/tensorpow/mempool/mempool.py.
use tensor_po_w.Base.{ℕ, ltb, not, ◌&&◌, List, [], ◌∷◌, Option, none, some, if◌then◌else◌}
use tensor_po_w.Base.{Result, ok, ◌>>=◌}
use tensor_po_w.Base.Bytes.{Bytes}
use tensor_po_w.Base.Dict.{nat_eq, bytes_eq, lookup, without, assign}
use tensor_po_w.Base.Sorted.{blt, sorted}
use tensor_po_w.Tx.Transaction.{Transaction}
use tensor_po_w.Mempool.ShardTree.Ids.{require_shard_id}
use tensor_po_w.Mempool.Pool.{Mempool, Entry}
use tensor_po_w.Mempool.Pool.Fees.{fee_floor, set_fee_floor, or_else}
use tensor_po_w.Mempool.Pool.Marks.{release}

-- `if not shard_entries: del self._entries_by_shard[entry.shard_id]`
unfoldable pub store_shard :
    ℕ → List (Bytes × Entry) → List (ℕ × List (Bytes × Entry)) → List (ℕ × List (Bytes × Entry))
store_shard shard_id [] d = without shard_id d
store_shard shard_id (x ∷ xs) d = assign shard_id (x ∷ xs) d

unfoldable pub drop_from_shard :
    ℕ → Bytes → List (ℕ × List (Bytes × Entry)) → List (ℕ × List (Bytes × Entry))
drop_from_shard shard_id id d = elim (lookup shard_id d) [
  | none ↦ d
  | some shard_entries ↦ store_shard shard_id (without id shard_entries) d
]

-- `_remove_entry`
unfoldable pub remove_entry : Bytes → Mempool → Option Entry × Mempool
remove_entry id m = elim (lookup id m.entries) [
  | none ↦ (none, m)
  | some e ↦ (
    some e,
    record m {
      entries = without id m.entries;
      entries_by_shard = drop_from_shard e.shard_id id m.entries_by_shard;
      spent_outpoints = release id e.tx.inputs m.spent_outpoints;
    },
  )
]

-- `remove`
unfoldable pub remove : Mempool → Bytes → Option Transaction × Mempool
remove m id =
    let (found, m') = remove_entry id m in (elim found [ none ↦ none | some e ↦ some e.tx ], m')

-- `for tx_id in evicted_tx_ids: self._remove_entry(tx_id)`
unfoldable pub remove_all : List Bytes → Mempool → Mempool
remove_all [] m = m
remove_all (id ∷ ids) m = let (_, m') = remove_entry id m in remove_all ids m'

-- The ids of the shard's entries below the floor.
unfoldable pub below_floor : ℕ → List (Bytes × Entry) → List Bytes
below_floor floor [] = []
below_floor floor ((id, e) ∷ d) =
    let rest = below_floor floor d in
    if not e.is_coinbase && ltb e.fee_rate_matoms_per_kb floor then id ∷ rest else rest

-- The eviction at a floor.
unfoldable pub evict_at : Mempool → ℕ → ℕ → List Bytes × Mempool
evict_at m shard_id floor =
    let ids = sorted blt (below_floor floor (or_else (lookup shard_id m.entries_by_shard) [])) in
    (ids, remove_all ids m)

-- `evict_below_floor`
unfoldable pub evict_below_floor : Mempool → ℕ → Option ℕ → Result (List Bytes × Mempool)
evict_below_floor m shard_id none = do
  id ← require_shard_id shard_id
  floor ← fee_floor m id
  ok (evict_at m id floor)
evict_below_floor m shard_id (some floor) = do
  id ← require_shard_id shard_id
  m' ← set_fee_floor m id floor
  ok (evict_at m' id floor)
