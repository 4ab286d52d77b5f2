-- ===== src/Mempool/Pool/Selection.antt =====
-- `Mempool.select_for_fruit` of src/tensorpow/mempool/mempool.py.
pub mod Greedy
pub mod Division
use tensor_po_w.Base.{ℕ, ◌+◌, ltb, leb, ◌==◌, ◌&&◌, ◌||◌, Bool, List, [], ◌∷◌, map, if◌then◌else◌}
use tensor_po_w.Base.{Result, ok, value_error, raise_if, ◌>>◌, ◌>>=◌}
use tensor_po_w.Base.Bytes.{Bytes}
use tensor_po_w.Base.Dict.{nat_eq, lookup}
use tensor_po_w.Base.Sorted.{blt, sorted}
use tensor_po_w.Tx.Transaction.{Transaction}
use tensor_po_w.Mempool.ShardTree.Ids.{require_shard_id}
use tensor_po_w.Mempool.ShardTree.Utilization.{max_fruit_payload_bytes}
use tensor_po_w.Mempool.Pool.{Mempool, Entry}
use tensor_po_w.Mempool.Pool.Fees.{fee_floor, or_else}

-- The entries that the floor lets pass.
unfoldable pub eligible : ℕ → List (Bytes × Entry) → List Entry
eligible floor [] = []
eligible floor ((id, e) ∷ d) =
    let rest = eligible floor d in
    if e.is_coinbase || leb floor e.fee_rate_matoms_per_kb then e ∷ rest else rest

-- The order of `_selection_key`.
unfoldable pub better : Entry → Entry → Bool
better a b =
    ltb b.fee_rate_matoms_per_kb a.fee_rate_matoms_per_kb
    || (a.fee_rate_matoms_per_kb == b.fee_rate_matoms_per_kb && blt a.entry_id b.entry_id)

-- The loop: an entry that does not fit is passed over.
unfoldable pub choose : ℕ → ℕ → List Entry → List Entry
choose payload_budget used_bytes [] = []
choose payload_budget used_bytes (e ∷ es) =
    if ltb payload_budget (used_bytes + e.tx_size_bytes)
    then choose payload_budget used_bytes es
    else e ∷ choose payload_budget (used_bytes + e.tx_size_bytes) es

abbrev pub entry_tx : Entry → Transaction
entry_tx e = e.tx

-- The entries of the shard that are chosen at a floor.
unfoldable pub chosen : Mempool → ℕ → ℕ → ℕ → List Entry
chosen m shard_id floor payload_budget =
    choose payload_budget 0
      (sorted better (eligible floor (or_else (lookup shard_id m.entries_by_shard) [])))

-- `select_for_fruit`
unfoldable pub select_for_fruit : Mempool → ℕ → ℕ → Result (List Transaction)
select_for_fruit m shard_id payload_budget = do
  id ← require_shard_id shard_id
  raise_if (ltb max_fruit_payload_bytes payload_budget) value_error
  floor ← fee_floor m id
  ok (map entry_tx (chosen m id floor payload_budget))

unfoldable pub total_size : List Entry → ℕ
total_size [] = 0
total_size (e ∷ es) = e.tx_size_bytes + total_size es
