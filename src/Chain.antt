-- ===== src/Chain.antt =====
-- src/tensorpow/chain/: headers, and the ordered Merkle roots of block bodies.
pub mod Headers
pub mod Merkle
pub mod Blocks
pub mod BlockTests
pub mod Tests
