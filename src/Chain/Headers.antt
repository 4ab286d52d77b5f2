-- ===== src/Chain/Headers.antt =====
-- The fruit and anchor headers of src/tensorpow/chain/headers.py: the checks that both share.
use tensor_po_w.Base.{ℕ, ◌/◌, ◌%◌, ◌^◌, not, ltb, ◌==◌, Result, ok, err, raise_if}
use tensor_po_w.Base.{value_error, tx_decode_error, header_decode_error}
use tensor_po_w.Base.{◌>>◌ as then_result}
use tensor_po_w.Checks.{require_uint, u16_max, u32_max}
pub mod Fruit
pub mod Anchor

abbrev pub parent_bitmap_max_bytes : ℕ
parent_bitmap_max_bytes = 1250

abbrev pub shard_max_depth : ℕ
shard_max_depth = 16

abbrev pub shard_id_depth_shift : ℕ
shard_id_depth_shift = 16

-- `_require_format_epoch`
unfoldable pub require_format_epoch : ℕ → Result (Unit {0})
require_format_epoch value =
    then_result (require_uint value u16_max) (raise_if (not (value == 0)) value_error)

-- `_require_sig_mask`; the active Ed25519 bit is 1.
unfoldable pub require_sig_mask : ℕ → Result (Unit {0})
require_sig_mask value =
    then_result (require_uint value u16_max) (raise_if (not (value == 1)) value_error)

-- `_require_shard_id`: the depth stands above 16 bits of path.
unfoldable pub require_shard_id : ℕ → Result (Unit {0})
require_shard_id value =
    let depth = value / 2 ^ shard_id_depth_shift in
    let path = value % 2 ^ shard_id_depth_shift in
    then_result (require_uint value u32_max) (
      then_result (raise_if (ltb shard_max_depth depth) value_error)
        (raise_if (not (ltb path (2 ^ depth))) value_error))

-- What the readers and the constructors raise becomes HeaderDecodeError. Their shared reader here
-- is the transactions', whose TxDecodeError stands for the one that this module's reader raises.
unfoldable pub as_header_error : {A : Type 0} → Result A → Result A
as_header_error (ok a) = ok a
as_header_error (err value_error) = err header_decode_error
as_header_error (err tx_decode_error) = err header_decode_error
as_header_error (err e) = err e
