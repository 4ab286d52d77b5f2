-- ===== src/Tx/Decode.antt =====
-- The decoders of src/tensorpow/tx/transaction.py: `_read_input`, `_read_output` and the three
-- `from_bytes`.
use tensor_po_w.Base.{not, Result, ok, raise_if, tx_decode_error}
use tensor_po_w.Base.{◌>>=◌ as bind_result, ◌>>◌ as then_result}
use tensor_po_w.Base.Bytes.{Bytes, beq}
use tensor_po_w.Checks.{require_max_len}
use tensor_po_w.State.Outpoint
use tensor_po_w.State.Outpoint.{outpoint_bytes}
use tensor_po_w.Tx.Input
use tensor_po_w.Tx.Input.{Input}
use tensor_po_w.Tx.Output
use tensor_po_w.Tx.Output.{Output}
use tensor_po_w.Tx.Transaction
use tensor_po_w.Tx.Transaction.{Transaction, max_tx_bytes}
use tensor_po_w.Tx.Reader.{Parser, ◌>>=◌, lift, pure, read_bytes, read_u8, read_u16}
use tensor_po_w.Tx.Reader.{read_u32, read_u64, read_sized, read_many, read_all, as_decode_error}

unfoldable pub read_input : Parser Input
read_input = do
  raw ← read_bytes outpoint_bytes
  previous_outpoint ← lift (Outpoint.from_bytes raw)
  sequence ← read_u32
  witness ← read_sized
  lift (
      Input.new
        (record { previous_outpoint = previous_outpoint; sequence = sequence; witness = witness }))

unfoldable pub read_output : Parser Output
read_output = do
  amount_matoms ← read_u64
  template_id ← read_u16
  locktime_ms ← read_u64
  lockheight ← read_u64
  payload ← read_sized
  lift (
      Output.new (record {
        amount_matoms = amount_matoms;
        template_id = template_id;
        locktime_ms = locktime_ms;
        lockheight = lockheight;
        payload = payload;
      }))

-- The fields of a transaction, in the order of `Transaction.from_bytes`.
unfoldable pub read_fields : Parser Transaction
read_fields = do
  version ← read_u16
  sig_type ← read_u8
  locktime_ms ← read_u64
  lockheight ← read_u64
  input_count ← read_u16
  inputs ← read_many input_count read_input
  output_count ← read_u16
  outputs ← read_many output_count read_output
  pure (record {
    version = version;
    sig_type = sig_type;
    locktime_ms = locktime_ms;
    lockheight = lockheight;
    inputs = inputs;
    outputs = outputs;
  })

-- `Input.from_bytes`
unfoldable pub input_from_bytes : Bytes → Result Input
unfolding as_decode_error
input_from_bytes bs = as_decode_error (read_all read_input bs)

-- `Output.from_bytes`
unfoldable pub output_from_bytes : Bytes → Result Output
unfolding as_decode_error
output_from_bytes bs = as_decode_error (read_all read_output bs)

-- The `try` block of `Transaction.from_bytes`.
unfoldable pub decode : Bytes → Result Transaction
unfolding as_decode_error
decode bs = as_decode_error (
    then_result (require_max_len bs max_tx_bytes)
      (bind_result (read_all read_fields bs) Transaction.new))

-- `Transaction.from_bytes`: the decoded transaction is encoded again and compared.
unfoldable pub from_bytes : Bytes → Result Transaction
unfolding decode
from_bytes bs =
    bind_result (decode bs) (λ tx.
      then_result (raise_if (not (beq (Transaction.to_bytes tx) bs)) tx_decode_error) (ok tx))
