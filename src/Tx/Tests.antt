-- ===== src/Tx/Tests.antt =====
-- Runs of the transaction code, and its theorems at concrete inputs.
use tensor_po_w.Base.{ℕ, ◌≡◌, ◌++◌, refl, [], ◌∷◌, ok, err, arith, tx_decode_error, ◌↔◌}
use tensor_po_w.Base.{replicate}
use tensor_po_w.Base.Bytes.{Bytes, IsBytes, to_le, from_le}
use tensor_po_w.State.Outpoint
use tensor_po_w.State.Outpoint.{Outpoint}
use tensor_po_w.Tx.Input
use tensor_po_w.Tx.Input.{Input}
use tensor_po_w.Tx.Output
use tensor_po_w.Tx.Output.{Output}
use tensor_po_w.Tx.Transaction
use tensor_po_w.Tx.Transaction.{Transaction, without_witnesses, sighash_preimage, sighash}
use tensor_po_w.Tx.Payload.{require_template_payload}
use tensor_po_w.Tx.Reader.{read_all, read_uint, read_bytes}
use tensor_po_w.Tx.Decode.{read_fields, from_bytes, decode}
use tensor_po_w.Tx.RoundTrip.{IsValid}
use tensor_po_w.Tx.Canonical.{from_bytes-decode, from_bytes_iff}
use tensor_po_w.Tx.Sighash.{stripped, without_witnesses_lem, sighash_preimage-commits}

abbrev spent : Outpoint
spent = record { tx_id = replicate 32 7; output_index = 3 }

abbrev input : Input
input = record { previous_outpoint = spent; sequence = 0xffff_ffff; witness = 1 ∷ 2 ∷ 3 ∷ [] }

abbrev output : Output
output = record {
  amount_matoms = 500;
  template_id = 0;
  locktime_ms = 0;
  lockheight = 9;
  payload = replicate 32 5;
}

abbrev tx : Transaction
tx = record {
  version = 0;
  sig_type = 0;
  locktime_ms = 0;
  lockheight = 0;
  inputs = input ∷ [];
  outputs = output ∷ [];
}

output-check : Output.check output ≡ ok tt
unfolding Output.check require_template_payload
output-check = refl

input-IsValid : Input.IsValid input
unfolding Input.check
input-IsValid = record {
  outpoint_valid = record { tx_id_length = refl; index_fits = omega arith };
  checked = refl;
}

tx-check : Transaction.check tx ≡ ok tt
unfolding Transaction.check Transaction.to_bytes Input.to_bytes Output.to_bytes Outpoint.to_bytes
    to_le
tx-check = refl

tx-IsValid : IsValid tx
tx-IsValid = record {
  checked = tx-check;
  inputs_valid = (input-IsValid, tt);
  outputs_valid = (output-check, tt);
}

-- A byte is missing.
abbrev short_bytes : Bytes
short_bytes = 0 ∷ 0 ∷ 0 ∷ []

decode-short : decode short_bytes ≡ err tx_decode_error
unfolding decode read_fields read_all read_uint read_bytes from_le
decode-short = refl

tx_encoded-IsBytes : IsBytes (Transaction.to_bytes tx)
unfolding Transaction.to_bytes Input.to_bytes Output.to_bytes Outpoint.to_bytes to_le
tx_encoded-IsBytes = omega arith

from_bytes-decode_example : from_bytes (Transaction.to_bytes tx) ≡ decode (Transaction.to_bytes tx)
from_bytes-decode_example = from_bytes-decode (Transaction.to_bytes tx) tx_encoded-IsBytes

from_bytes_iff_example :
    (from_bytes (Transaction.to_bytes tx) ≡ ok tx)
    ↔ (IsValid tx × (Transaction.to_bytes tx ≡ Transaction.to_bytes tx))
from_bytes_iff_example = from_bytes_iff (Transaction.to_bytes tx) tx tx_encoded-IsBytes

without_witnesses_lem_example :
    (without_witnesses tx ≡ ok (stripped tx))
    × (sighash_preimage tx 0 ≡ Transaction.to_bytes (stripped tx) ++ to_le 4 0)
without_witnesses_lem_example = without_witnesses_lem tx 0 tx-IsValid

sighash_preimage-commits_example : (stripped tx ≡ stripped tx) × (◌≡◌ {A = ℕ} 0 0)
sighash_preimage-commits_example =
    sighash_preimage-commits tx tx 0 0 tx-IsValid tx-IsValid (omega arith) (omega arith) refl
