-- ===== src/Tx/Output.antt =====
-- `class Output` of src/tensorpow/tx/transaction.py.
use tensor_po_w.Base.{ℕ, ◌≡◌, ◌≤◌, ◌++◌, not, ltb, ◌==◌, length, Result, ok, arith}
use tensor_po_w.Base.{value_error, raise_if}
use tensor_po_w.Base.{◌>>◌, ◌≢◌, checked-eq-ok}
use tensor_po_w.Base.Bytes.{Bytes, to_le}
use tensor_po_w.Checks.{require_uint, require_max_len, u16_max, u64_max}
use tensor_po_w.State.Limits.{max_supply_matoms, tx_output_payload_max_bytes, is_active}
use tensor_po_w.Tx.Payload.{require_template_payload}

pub record Output : Type 0 where
  pub amount_matoms : ℕ
  pub template_id : ℕ
  pub locktime_ms : ℕ
  pub lockheight : ℕ
  pub payload : Bytes

-- `Output.__post_init__`
unfoldable pub check : Output → Result (Unit {0})
check o = do
  require_uint o.amount_matoms u64_max
  raise_if (o.amount_matoms == 0) value_error
  raise_if (ltb max_supply_matoms o.amount_matoms) value_error
  require_uint o.template_id u16_max
  raise_if (not (is_active o.template_id)) value_error
  require_uint o.locktime_ms u64_max
  require_uint o.lockheight u64_max
  require_max_len o.payload tx_output_payload_max_bytes
  require_template_payload o.template_id o.payload

-- The call `Output(…)` with these fields.
unfoldable pub new : Output → Result Output
unfolding check
new o = do check o; ok o

unfoldable pub to_bytes : Output → Bytes
to_bytes o =
    to_le 8 o.amount_matoms
    ++ (to_le 2 o.template_id
        ++ (to_le 8 o.locktime_ms
            ++ (to_le 8 o.lockheight ++ (to_le 2 (length o.payload) ++ o.payload))))

-- The widths that the constructor guarantees.
pub record Fits (o : Output) : Type 0 where
  pub amount : o.amount_matoms ≤ max_supply_matoms
  pub nonzero : o.amount_matoms ≢ 0
  pub template : o.template_id ≤ u16_max
  pub time : o.locktime_ms ≤ u64_max
  pub height : o.lockheight ≤ u64_max
  pub size : length o.payload ≤ tx_output_payload_max_bytes

pub check-Fits : (o : Output) → check o ≡ ok tt → Fits o
unfolding check
check-Fits o h = ground arith

pub new_lem : (o : Output) → check o ≡ ok tt → new o ≡ ok o
unfolding new
new_lem o h = rw h

pub new-eq-ok : (o : Output) {o' : Output} → new o ≡ ok o' → (o' ≡ o) × (check o ≡ ok tt)
unfolding new
new-eq-ok o e = checked-eq-ok (check o) o e
