-- ===== src/Tx/Input.antt =====
-- `class Input` of src/tensorpow/tx/transaction.py.
use tensor_po_w.Base.{
  ℕ, ◌≡◌, ◌≤◌, ◌++◌, not, ◌==◌, length, Result, ok, arith, value_error, raise_if,
}
use tensor_po_w.Base.{◌>>◌, checked-eq-ok}
use tensor_po_w.Base.Bytes.{Bytes, to_le}
use tensor_po_w.Checks.{require_uint, require_max_len, u32_max}
use tensor_po_w.State.Outpoint
use tensor_po_w.State.Outpoint.{Outpoint}

abbrev pub tx_sequence_final : ℕ
tx_sequence_final = 0xffff_ffff

abbrev pub tx_witness_max_bytes : ℕ
tx_witness_max_bytes = 2048

pub record Input : Type 0 where
  pub previous_outpoint : Outpoint
  pub sequence : ℕ
  pub witness : Bytes

-- `Input.__post_init__`
unfoldable pub check : Input → Result (Unit {0})
check i = do
  require_uint i.sequence u32_max
  raise_if (not (i.sequence == tx_sequence_final)) value_error
  require_max_len i.witness tx_witness_max_bytes

-- The call `Input(…)` with these fields.
unfoldable pub new : Input → Result Input
unfolding check
new i = do check i; ok i

unfoldable pub to_bytes : Input → Bytes
to_bytes i =
    Outpoint.to_bytes i.previous_outpoint
    ++ (to_le 4 i.sequence ++ (to_le 2 (length i.witness) ++ i.witness))

-- What the constructors accept.
pub record IsValid (i : Input) : Type 0 where
  pub outpoint_valid : Outpoint.IsValid i.previous_outpoint
  pub checked : check i ≡ ok tt

pub check_sequence : (i : Input) → check i ≡ ok tt → i.sequence ≡ tx_sequence_final
unfolding check
check_sequence i h = ground arith

pub check_witness : (i : Input) → check i ≡ ok tt → length i.witness ≤ tx_witness_max_bytes
unfolding check
check_witness i h = ground arith

pub new_lem : (i : Input) → check i ≡ ok tt → new i ≡ ok i
unfolding new
new_lem i h = rw h

pub new-eq-ok : (i : Input) {j : Input} → new i ≡ ok j → (j ≡ i) × (check i ≡ ok tt)
unfolding new
new-eq-ok i e = checked-eq-ok (check i) i e
