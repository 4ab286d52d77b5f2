-- ===== src/State/Utxo.antt =====
-- `class UTXO` of src/tensorpow/state/utxo.py: an unspent output and its byte layout.
pub mod Codec
use tensor_po_w.Base.{
  ℕ, ◌+◌, ◌++◌, not, ltb, ◌==◌, length, drop, slice, Option, none, some, Result, ok,
}
use tensor_po_w.Base.{value_error, raise_if, ◌>>=◌, ◌>>◌}
use tensor_po_w.Base.Bytes.{Bytes, beq, to_le, from_le}
use tensor_po_w.Checks.{require_hash, require_uint, u16_max, u64_max}
use tensor_po_w.Crypto.Primitives.{Primitives}
use tensor_po_w.Crypto.Hash.{hash_len_bytes, domain_hash, utxo}
use tensor_po_w.State.Outpoint
use tensor_po_w.State.Outpoint.{Outpoint, outpoint_bytes}
use tensor_po_w.State.Limits.{max_supply_matoms, tx_output_payload_max_bytes, is_active}

-- 36 + 8 + 2 + 32 + 8 + 8 + 2
abbrev pub utxo_fixed_bytes : ℕ
utxo_fixed_bytes = outpoint_bytes + 8 + 2 + hash_len_bytes + 8 + 8 + 2

pub record Utxo : Type 0 where
  pub outpoint : Outpoint
  pub amount_matoms : ℕ
  pub template_id : ℕ
  pub owner_pubkey_hash : Bytes
  pub locktime_ms : ℕ
  pub lockheight : ℕ
  pub payload : Bytes

-- `UTXO.__post_init__`
unfoldable pub check : Utxo → Result (Unit {0})
check u = do
  require_uint u.amount_matoms u64_max
  raise_if (u.amount_matoms == 0) value_error
  raise_if (ltb max_supply_matoms u.amount_matoms) value_error
  require_uint u.template_id u16_max
  raise_if (not (is_active u.template_id)) value_error
  require_hash u.owner_pubkey_hash
  require_uint u.locktime_ms u64_max
  require_uint u.lockheight u64_max
  raise_if (ltb tx_output_payload_max_bytes (length u.payload)) value_error

-- The call `UTXO(…)` with these fields.
unfoldable pub new : Utxo → Result Utxo
unfolding check
new u = do check u; ok u

unfoldable pub to_bytes : Utxo → Bytes
to_bytes u =
    Outpoint.to_bytes u.outpoint
    ++ (to_le 8 u.amount_matoms
        ++ (to_le 2 u.template_id
            ++ (u.owner_pubkey_hash
                ++ (to_le 8 u.locktime_ms
                    ++ (to_le 8 u.lockheight ++ (to_le 2 (length u.payload) ++ u.payload))))))

abbrev pub outpoint_key : Primitives → Utxo → Bytes
outpoint_key p u = Outpoint.key p u.outpoint

unfoldable pub value_hash : Primitives → Utxo → Bytes
value_hash p u = domain_hash p utxo (to_bytes u)

-- The fields that `from_bytes` slices out, each behind the one before it.
abbrev pub fields : Outpoint → Bytes → Utxo
fields o bs = record {
  outpoint = o;
  amount_matoms = from_le (slice 36 (36 + 8) bs);
  template_id = from_le (slice 44 (44 + 2) bs);
  owner_pubkey_hash = slice 46 (46 + 32) bs;
  locktime_ms = from_le (slice 78 (78 + 8) bs);
  lockheight = from_le (slice 86 (86 + 8) bs);
  payload = drop 96 bs;
}

-- `if expected_outpoint_key is not None`
unfoldable pub check_key : Primitives → Option Bytes → Utxo → Result (Unit {0})
check_key p none u = ok tt
check_key p (some key) u = do
  require_hash key
  raise_if (not (beq (outpoint_key p u) key)) value_error

unfoldable pub from_bytes : Primitives → Bytes → Option Bytes → Result Utxo
from_bytes p bs expected_outpoint_key = do
  raise_if (ltb (length bs) utxo_fixed_bytes) value_error
  o ← Outpoint.from_bytes (slice 0 (0 + 36) bs)
  let payload_len = from_le (slice 94 (94 + 2) bs)
  raise_if (not (length bs == utxo_fixed_bytes + payload_len)) value_error
  u ← new (fields o bs)
  check_key p expected_outpoint_key u
  ok u
