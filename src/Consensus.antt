-- ===== src/Consensus.antt =====
-- src/tensorpow/consensus/: finality tiers, anchor targets, issuance and rewards.
pub mod Finality
pub mod Targets
pub mod Issuance
pub mod Rewards
pub mod Daa
pub mod Tests
