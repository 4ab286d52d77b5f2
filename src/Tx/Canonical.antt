-- ===== src/Tx/Canonical.antt =====
-- What decodes: only the encoding of the result, so an encoding is the one way to write a
-- transaction, and the re-encoding test at the end of `Transaction.from_bytes` never fails.
use tensor_po_w.Base.{◌≡◌, sym, ◌∙◌, All, ok}
use tensor_po_w.Base.{append-nil, ◌↔◌, >>=-eq-ok, Result-cases, inl, inr}
use tensor_po_w.Base.Bytes.{Bytes, IsBytes, beq_refl}
use tensor_po_w.Checks.{require_max_len}
use tensor_po_w.State.Outpoint
use tensor_po_w.Tx.Input
use tensor_po_w.Tx.Input.{Input}
use tensor_po_w.Tx.Output
use tensor_po_w.Tx.Output.{Output}
use tensor_po_w.Tx.Transaction
use tensor_po_w.Tx.Transaction.{Transaction}
use tensor_po_w.Tx.Reader.{read_all, as_decode_error-eq-ok}
use tensor_po_w.Tx.Reader.Inverse.{Reads, Reads-imp, >>=_reads, pure_reads, lift_reads}
use tensor_po_w.Tx.Reader.Inverse.{
  read_bytes_reads, read_uint_reads, read_sized_reads, read_many_reads, lift_new_reads,
  read_all_reads,
}
use tensor_po_w.Tx.Decode.{read_input, read_output, read_fields, decode, from_bytes}
use tensor_po_w.Tx.RoundTrip.{IsValid, from_bytes-to_bytes}

read_input_reads : Reads read_input (λ i xs. (xs ≡ Input.to_bytes i) × Input.IsValid i)
unfolding read_input Input.to_bytes
read_input_reads = >>=_reads _ _ (
    read_bytes_reads 36 λ raw size bytes. >>=_reads _ _ (
      lift_reads (Outpoint.from_bytes raw) λ o e. >>=_reads _ _ (
        read_uint_reads 4 λ sequence fits. >>=_reads _ _ (
          read_sized_reads λ witness short bytes'. lift_new_reads _ _ λ i made.
            let (same, checked) = Input.new-eq-ok _ made in
            let (valid, written, _) = Outpoint.from_bytes-eq-ok raw bytes e in
            (
              same,
              (rw (written, append-nil), record { outpoint_valid = valid; checked = checked }),
            )))))

read_output_reads : Reads read_output (λ o xs. (xs ≡ Output.to_bytes o) × (Output.check o ≡ ok tt))
unfolding read_output Output.to_bytes
read_output_reads = >>=_reads _ _ (
    read_uint_reads 8 λ amount_matoms ha. >>=_reads _ _ (
      read_uint_reads 2 λ template_id ht. >>=_reads _ _ (
        read_uint_reads 8 λ locktime_ms hl. >>=_reads _ _ (
          read_uint_reads 8 λ lockheight hh. >>=_reads _ _ (
            read_sized_reads λ payload short bytes. lift_new_reads _ _ λ o made.
              let (same, checked) = Output.new-eq-ok _ made in (same, (rw append-nil, checked)))))))

read_fields_reads : Reads read_fields (λ t xs.
    (xs ≡ Transaction.to_bytes t)
    × All Input.IsValid t.inputs
    × All (λ o. Output.check o ≡ ok tt) t.outputs)
unfolding read_fields Transaction.to_bytes
read_fields_reads = >>=_reads _ _ (
    read_uint_reads 2 λ version hv. >>=_reads _ _ (
      read_uint_reads 1 λ sig_type hs. >>=_reads _ _ (
        read_uint_reads 8 λ locktime_ms hl. >>=_reads _ _ (
          read_uint_reads 8 λ lockheight hh. >>=_reads _ _ (
            read_uint_reads 2 λ input_count hi. >>=_reads _ _ (
              Reads-imp
                (read_many_reads read_input Input.to_bytes Input.IsValid read_input_reads
                  input_count)
                λ inputs xs ins. >>=_reads _ _ (
                  read_uint_reads 2 λ output_count ho. >>=_reads _ _ (
                    Reads-imp
                      (read_many_reads read_output Output.to_bytes (λ o. Output.check o ≡ ok tt)
                        read_output_reads output_count)
                      λ outputs ys outs.
                        pure_reads _
                          (rw (append-nil ys, ins.0, outs.0, ins.2, outs.2), ins.1, outs.1)))))))))

-- The steps of a successful decoding.
decode_parts :
    (bs : Bytes) {t : Transaction}
    → decode bs ≡ ok t
    → (read_all read_fields bs ≡ ok t) × (Transaction.check t ≡ ok tt)
unfolding decode
decode_parts bs {t} e =
    let checked = as_decode_error-eq-ok _ e in
    let (u, sized, e') = >>=-eq-ok (require_max_len bs 8192) _ checked in
    let (t', read, made) = >>=-eq-ok (read_all read_fields bs) Transaction.new e' in
    let (same, valid) = Transaction.new-eq-ok t' made in rw same (read, valid)

-- A decoded transaction satisfies every check of its constructors, and its encoding is the input.
pub decode-eq-ok :
    (bs : Bytes) {t : Transaction}
    → IsBytes bs
    → decode bs ≡ ok t
    → IsValid t × (Transaction.to_bytes t ≡ bs)
decode-eq-ok bs {t} bytes e =
    let (read, checked) = decode_parts bs e in
    let (written, ins, outs) = read_all_reads read_fields bs read_fields_reads bytes read in
    (record { checked = checked; inputs_valid = ins; outputs_valid = outs }, sym written)

-- On every byte string `Transaction.from_bytes` answers as its `try` block does: the re-encoded
-- transaction never differs from the input, so the test for non-canonical bytes never raises.
pub from_bytes-decode : (bs : Bytes) → IsBytes bs → from_bytes bs ≡ decode bs
unfolding from_bytes
from_bytes-decode bs bytes = elim (Result-cases (decode bs)) [
  | inl (t, e) ↦ rw (e, (decode-eq-ok bs bytes e).1, beq_refl bs)
  | inr (x, e) ↦ rw e
]

-- A byte string decodes to a transaction exactly when the transaction is valid and the string is
-- its encoding.
pub from_bytes_iff :
    (bs : Bytes) (t : Transaction)
    → IsBytes bs
    → (from_bytes bs ≡ ok t) ↔ (IsValid t × (Transaction.to_bytes t ≡ bs))
from_bytes_iff bs t bytes = (
  λ e. decode-eq-ok bs bytes (sym (from_bytes-decode bs bytes) ∙ e),
  λ h. rw (← h.1) (from_bytes-to_bytes t h.0),
)
