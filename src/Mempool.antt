-- ===== src/Mempool.antt =====
-- The waiting transactions and their shards, of src/tensorpow/mempool.
pub mod ShardTree
pub mod Pool
pub mod ShardTreeTests
pub mod Tests
