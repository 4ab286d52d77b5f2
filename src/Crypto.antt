-- ===== src/Crypto.antt =====
-- src/tensorpow/crypto: the hash domains and signature verification, over the primitives of the
-- `blake3` and `cryptography` packages.
pub mod Primitives
pub mod Hash
pub mod Signatures
pub mod Toy
mod Tests
