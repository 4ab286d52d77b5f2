-- ===== src/Tx.antt =====
-- src/tensorpow/tx/transaction.py: transactions and their byte layout.
pub mod Reader
pub mod Payload
pub mod Input
pub mod Output
pub mod Transaction
pub mod Decode
pub mod RoundTrip
pub mod Canonical
pub mod Sighash
mod Tests
