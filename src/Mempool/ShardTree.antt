-- ===== src/Mempool/ShardTree.antt =====
-- The hierarchical shard tree of src/tensorpow/mempool/shard_tree.py.
pub mod Ids
pub mod Tree
pub mod Counting
pub mod Partition
pub mod Routing
pub mod Updates
pub mod Utilization
pub mod Encoding
