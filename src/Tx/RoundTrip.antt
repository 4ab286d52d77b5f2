-- ===== src/Tx/RoundTrip.antt =====
-- Decoding what was encoded, for inputs, outputs and whole transactions.
use tensor_po_w.Base.{◌≡◌, ◌≤◌, ◌<◌, ◌^◌, ◌≢◌, length, All, List, [], ◌∷◌, ok, arith}
use tensor_po_w.Base.Bytes.{Bytes, beq_refl}
use tensor_po_w.Checks.{u16_max, require_max_len_lem}
use tensor_po_w.State.Outpoint
use tensor_po_w.Tx.Input
use tensor_po_w.Tx.Input.{Input}
use tensor_po_w.Tx.Output
use tensor_po_w.Tx.Output.{Output}
use tensor_po_w.Tx.Transaction
use tensor_po_w.Tx.Transaction.{Transaction}
use tensor_po_w.Tx.Reader.{Parser, read_all, as_decode_error}
use tensor_po_w.Tx.Reader.Laws.{Accepts, >>=-Accepts, >>=-Accepts_last, pure-Accepts, lift-Accepts}
use tensor_po_w.Tx.Reader.Laws.{read_bytes-Accepts, read_uint-Accepts, read_sized-Accepts}
use tensor_po_w.Tx.Reader.Laws.{read_many-Accepts, Accepts-whole}
use tensor_po_w.Tx.Decode.{
  read_input, read_output, read_fields, decode, from_bytes, input_from_bytes, output_from_bytes,
}

-- What the constructors guarantee of a transaction and of all that is in it.
pub record IsValid (t : Transaction) : Type 0 where
  pub checked : Transaction.check t ≡ ok tt
  pub inputs_valid : All Input.IsValid t.inputs
  pub outputs_valid : All (λ o. Output.check o ≡ ok tt) t.outputs

read_input-Accepts : (i : Input) → Input.IsValid i → Accepts read_input (Input.to_bytes i) i
unfolding read_input Input.to_bytes
read_input-Accepts i v =
    >>=-Accepts _ _
      (read_bytes-Accepts 36 (Outpoint.to_bytes i.previous_outpoint)
        (Outpoint.length-to_bytes i.previous_outpoint v.outpoint_valid) (omega arith))
      (>>=-Accepts _ _ {xs = []}
        (lift-Accepts _ _ (Outpoint.from_bytes-to_bytes i.previous_outpoint v.outpoint_valid))
        (>>=-Accepts _ _
          (read_uint-Accepts 4 i.sequence (omega arith)
            (omega (arith, Input.check_sequence i v.checked)))
          (>>=-Accepts_last _ _
            (read_sized-Accepts i.witness (omega (arith, Input.check_witness i v.checked)))
            (lift-Accepts _ _ (Input.new_lem i v.checked)))))

read_output-Accepts :
    (o : Output) → Output.check o ≡ ok tt → Accepts read_output (Output.to_bytes o) o
unfolding read_output Output.to_bytes
read_output-Accepts o v =
    let fits = Output.check-Fits o v in
    >>=-Accepts _ _ (read_uint-Accepts 8 o.amount_matoms (omega arith) (omega (arith, fits))) (
      >>=-Accepts _ _ (read_uint-Accepts 2 o.template_id (omega arith) (omega (arith, fits))) (
        >>=-Accepts _ _ (read_uint-Accepts 8 o.locktime_ms (omega arith) (omega (arith, fits))) (
          >>=-Accepts _ _ (read_uint-Accepts 8 o.lockheight (omega arith) (omega (arith, fits))) (
            >>=-Accepts_last _ _ (read_sized-Accepts o.payload (omega (arith, fits)))
              (lift-Accepts _ _ (Output.new_lem o v))))))

inputs_accept :
    (is : List Input) → All Input.IsValid is → All (λ i. Accepts read_input (Input.to_bytes i) i) is
inputs_accept [] h = tt
inputs_accept (i ∷ is) (v, h) = (read_input-Accepts i v, inputs_accept is h)

outputs_accept :
    (os : List Output)
    → All (λ o. Output.check o ≡ ok tt) os
    → All (λ o. Accepts read_output (Output.to_bytes o) o) os
outputs_accept [] h = tt
outputs_accept (o ∷ os) (v, h) = (read_output-Accepts o v, outputs_accept os h)

-- The widths of the fields of a checked transaction.
pub record Fits (t : Transaction) : Type 0 where
  pub version : t.version ≡ 0
  pub sig_type : t.sig_type ≡ 0
  pub time : t.locktime_ms < 2 ^ 64
  pub height : t.lockheight < 2 ^ 64
  pub input_count : length t.inputs ≤ u16_max
  pub output_count : length t.outputs ≤ u16_max
  pub some_output : length t.outputs ≢ 0
  pub size : length (Transaction.to_bytes t) ≤ 8192

pub check-Fits : (t : Transaction) → Transaction.check t ≡ ok tt → Fits t
unfolding Transaction.check
check-Fits t h = ground arith

read_fields-Accepts : (t : Transaction) → IsValid t → Accepts read_fields (Transaction.to_bytes t) t
unfolding read_fields Transaction.to_bytes
read_fields-Accepts t v =
    let fits = check-Fits t v.checked in
    >>=-Accepts _ _ (read_uint-Accepts 2 t.version (omega arith) (omega (arith, fits))) (
      >>=-Accepts _ _ (read_uint-Accepts 1 t.sig_type (omega arith) (omega (arith, fits))) (
        >>=-Accepts _ _ (read_uint-Accepts 8 t.locktime_ms (omega arith) (omega (arith, fits))) (
          >>=-Accepts _ _ (read_uint-Accepts 8 t.lockheight (omega arith) (omega (arith, fits))) (
            >>=-Accepts _ _
              (read_uint-Accepts 2 (length t.inputs) (omega arith) (omega (arith, fits)))
              (>>=-Accepts _ _
                (read_many-Accepts read_input Input.to_bytes t.inputs
                  (inputs_accept t.inputs v.inputs_valid))
                (>>=-Accepts _ _
                  (read_uint-Accepts 2 (length t.outputs) (omega arith) (omega (arith, fits)))
                  (>>=-Accepts_last _ _
                    (read_many-Accepts read_output Output.to_bytes t.outputs
                      (outputs_accept t.outputs v.outputs_valid))
                    (pure-Accepts t))))))))

pub read_all-Accepts :
    {A : Type 0} (m : Parser A) {xs : Bytes} {a : A} → Accepts m xs a → read_all m xs ≡ ok a
unfolding read_all
read_all-Accepts m accepted = let (r, e, done) = Accepts-whole m accepted in rw (e, done)

decode-to_bytes : (t : Transaction) → IsValid t → decode (Transaction.to_bytes t) ≡ ok t
unfolding decode as_decode_error
decode-to_bytes t v =
    let fits = check-Fits t v.checked in
    rw (
      require_max_len_lem (Transaction.to_bytes t) 8192 fits.size,
      read_all-Accepts read_fields (read_fields-Accepts t v),
      Transaction.new_lem t v.checked,
    )

-- Every transaction that the constructors accept is decoded from its own encoding, unchanged.
pub from_bytes-to_bytes : (t : Transaction) → IsValid t → from_bytes (Transaction.to_bytes t) ≡ ok t
unfolding from_bytes
from_bytes-to_bytes t v = rw (decode-to_bytes t v, beq_refl (Transaction.to_bytes t))

-- Every input that the constructors accept is decoded from its own encoding, unchanged.
pub input_from_bytes-to_bytes :
    (i : Input) → Input.IsValid i → input_from_bytes (Input.to_bytes i) ≡ ok i
unfolding input_from_bytes as_decode_error
input_from_bytes-to_bytes i v = rw (read_all-Accepts read_input (read_input-Accepts i v))

-- Every output that the constructor accepts is decoded from its own encoding, unchanged.
pub output_from_bytes-to_bytes :
    (o : Output) → Output.check o ≡ ok tt → output_from_bytes (Output.to_bytes o) ≡ ok o
unfolding output_from_bytes as_decode_error
output_from_bytes-to_bytes o v = rw (read_all-Accepts read_output (read_output-Accepts o v))
