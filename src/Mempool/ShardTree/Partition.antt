-- ===== src/Mempool/ShardTree/Partition.antt =====
-- What a leaf set is: a partition of the routes.
use tensor_po_w.Base.{ℕ, ◌≡◌, List, All}
use tensor_po_w.Base.Sorted.Ascending.{Ascending}
use tensor_po_w.Mempool.ShardTree.Ids.Laws.{IsShardId}
use tensor_po_w.Mempool.ShardTree.Counting.{hits}
pub mod Ancestors
pub mod Validation

-- Canonical identifiers in strictly ascending order, of which each route selects exactly one.
pub record IsPartition (ids : List ℕ) : Type 0 where
  pub valid : All IsShardId ids
  pub ascending : Ascending ids
  pub covered : (route : ℕ) → hits ids route ≡ 1
