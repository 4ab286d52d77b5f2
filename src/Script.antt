-- ===== src/Script.antt =====
-- src/tensorpow/tx/script.py: the stack machine and the standard spending templates.
pub mod Stack
pub mod Multisig
pub mod Machine
pub mod Template
pub mod Tests
