-- ===== src/Pow.antt =====
-- src/tensorpow/pow/: the part that does not call PyTorch.
pub mod Challenge
pub mod Tests
