-- ===== src/State.antt =====
-- src/tensorpow/state: unspent outputs.
pub mod Limits
pub mod Outpoint
pub mod Utxo
pub mod UtxoSet
pub mod Proofs
pub mod Tests
