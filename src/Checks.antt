-- ===== src/Checks.antt =====
-- The `_require_…` guards that src/tensorpow/state/utxo.py, tx/transaction.py, tx/script.py and
-- chain/ repeat: a value out of range raises ValueError. Their `isinstance` tests are the static
-- types of the model, and a Python int that may be negative is a number of ℕ, since each guard
-- refuses the negative ones.
use tensor_po_w.Base.{ℕ, ◌≡◌, ◌≤◌, not, ltb, ◌==◌, length, Result, ok, value_error}
use tensor_po_w.Base.{raise_if, arith}
use tensor_po_w.Base.Bytes.{Bytes}

abbrev pub u8_max : ℕ
u8_max = 0xff

abbrev pub u16_max : ℕ
u16_max = 0xffff

abbrev pub u32_max : ℕ
u32_max = 0xffff_ffff

abbrev pub u64_max : ℕ
u64_max = 0xffff_ffff_ffff_ffff

abbrev pub require_uint : ℕ → ℕ → Result (Unit {0})
require_uint value max_value = raise_if (ltb max_value value) value_error

abbrev pub require_hash : Bytes → Result (Unit {0})
require_hash value = raise_if (not (length value == 32)) value_error

-- `_require_bytes(name, value, max_len=…)`
abbrev pub require_max_len : Bytes → ℕ → Result (Unit {0})
require_max_len value max_len = raise_if (ltb max_len (length value)) value_error

pub require_uint_lem : (v m : ℕ) → v ≤ m → require_uint v m ≡ ok tt
require_uint_lem v m h = ground arith

pub require_hash_lem : (v : Bytes) → length v ≡ 32 → require_hash v ≡ ok tt
require_hash_lem v h = ground arith

pub require_max_len_lem : (v : Bytes) (m : ℕ) → length v ≤ m → require_max_len v m ≡ ok tt
require_max_len_lem v m h = ground arith

pub require_uint-eq-ok : (v m : ℕ) → require_uint v m ≡ ok tt → v ≤ m
require_uint-eq-ok v m h = ground arith

pub require_hash-eq-ok : (v : Bytes) → require_hash v ≡ ok tt → length v ≡ 32
require_hash-eq-ok v h = ground arith

pub require_max_len-eq-ok : (v : Bytes) (m : ℕ) → require_max_len v m ≡ ok tt → length v ≤ m
require_max_len-eq-ok v m h = ground arith
