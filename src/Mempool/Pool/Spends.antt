-- ===== src/Mempool/Pool/Spends.antt =====
-- `Mempool._assess_spends` and the decoding of a submitted transaction, of
-- src/tensorpow/mempool/mempool.py.
use tensor_po_w.Base.{
  ℕ, suc, ◌+◌, ◌-◌, ltb, ◌==◌, ◌&&◌, Bool, true, false, List, [], ◌∷◌, Option, none, some, length,
  if◌then◌else◌,
}
use tensor_po_w.Base.{Result, ok, err, ◌>>=◌}
use tensor_po_w.Base.Bytes.{Bytes, beq}
use tensor_po_w.Base.Dict.{lookup, member, is_some}
use tensor_po_w.Crypto.Primitives.{Primitives}
use tensor_po_w.State.Outpoint.{Outpoint}
use tensor_po_w.State.UtxoSet.{same, outpoint_eq}
use tensor_po_w.Tx.Input.{Input}
use tensor_po_w.Tx.Output.{Output}
use tensor_po_w.Tx.Transaction.{Transaction, to_bytes, sighash}
use tensor_po_w.Tx.Decode.{from_bytes}
use tensor_po_w.Script.Template.{check_locks, verify_utxo_spend}
use tensor_po_w.Mempool.Pool.{
  View, Reason, coinbase_not_relayable, missing_utxo_view, tx_lock_unmatured, duplicate_input,
  conflict, missing_input, script_failed, negative_fee,
}
use tensor_po_w.Mempool.Pool.Fees.{fee_rate}

-- `Transaction | bytes`
pub data Submission : Type 0 where
  raw_bytes : (bs : Bytes) → Submission
  transaction : (tx : Transaction) → Submission

-- `==` between inputs, outputs and transactions.
unfoldable pub same_inputs : List Input → List Input → Bool
same_inputs [] [] = true
same_inputs [] (y ∷ ys) = false
same_inputs (x ∷ xs) [] = false
same_inputs (x ∷ xs) (y ∷ ys) =
    same x.previous_outpoint y.previous_outpoint
    && (x.sequence == y.sequence && (beq x.witness y.witness && same_inputs xs ys))

unfoldable pub same_output : Output → Output → Bool
same_output x y =
    x.amount_matoms == y.amount_matoms
    && (x.template_id == y.template_id
        && (x.locktime_ms == y.locktime_ms
            && (x.lockheight == y.lockheight && beq x.payload y.payload)))

unfoldable pub same_outputs : List Output → List Output → Bool
same_outputs [] [] = true
same_outputs [] (y ∷ ys) = false
same_outputs (x ∷ xs) [] = false
same_outputs (x ∷ xs) (y ∷ ys) = same_output x y && same_outputs xs ys

unfoldable pub same_tx : Transaction → Transaction → Bool
same_tx a b =
    a.version == b.version
    && (a.sig_type == b.sig_type
        && (a.locktime_ms == b.locktime_ms
            && (a.lockheight == b.lockheight
                && (same_inputs a.inputs b.inputs && same_outputs a.outputs b.outputs))))

-- `_decode_canonical_tx`; what `Transaction.from_bytes` raises is caught.
unfoldable pub decode_canonical_tx : Submission → Option (Transaction × Bytes)
decode_canonical_tx (raw_bytes bs) = elim (from_bytes bs) [ err _ ↦ none | ok tx ↦ some (tx, bs) ]
decode_canonical_tx (transaction t) = elim (from_bytes (to_bytes t)) [
  | err _ ↦ none
  | ok tx ↦ if same_tx tx t then some (tx, to_bytes t) else none
]

-- A sum, or the reason for which the transaction is refused.
pub data Verdict : Type 0 where
  refused : (why : Reason) → Verdict
  passed : (amount : ℕ) → Verdict

unfoldable pub output_sum : List Output → ℕ
output_sum [] = 0
output_sum (o ∷ os) = o.amount_matoms + output_sum os

-- `_SpendAssessment`: the fee and its rate, or the reason; it is never a coinbase.
pub data Assessment : Type 0 where
  unspendable : (why : Reason) → Assessment
  spendable : (fee_matoms : ℕ) (rate : ℕ) → Assessment

module _ (p : Primitives) (view : View) (spent : List (Outpoint × Bytes)) (tx : Transaction)
    (current_time_ms current_height : ℕ) where
  -- One input, after the tests for duplicates and conflicts.
  unfoldable pub assess_input : ℕ → Input → Result Verdict
  assess_input input_index i = elim (view i.previous_outpoint) [
    | none ↦ ok (refused missing_input)
    | some utxo ↦ sighash p tx input_index >>= λ message. ok (
        if verify_utxo_spend p utxo i.witness message tx.sig_type current_time_ms current_height
        then passed utxo.amount_matoms
        else refused script_failed)
  ]

  -- The loop over the inputs.
  unfoldable pub assess_inputs : ℕ → List Outpoint → ℕ → List Input → Result Verdict
  assess_inputs input_index seen input_sum [] = ok (passed input_sum)
  assess_inputs input_index seen input_sum (i ∷ is) =
      if member i.previous_outpoint seen
      then ok (refused duplicate_input)
      else if is_some (lookup i.previous_outpoint spent)
      then ok (refused conflict)
      else (assess_input input_index i >>= λ verdict. elim verdict [
        | refused why ↦ ok (refused why)
        | passed amount ↦
            assess_inputs (suc input_index) (i.previous_outpoint ∷ seen) (input_sum + amount) is
      ])

-- The fee from the sum of the inputs.
unfoldable pub assess_fee : Transaction → ℕ → Verdict → Result Assessment
assess_fee tx tx_size_bytes (refused why) = ok (unspendable why)
assess_fee tx tx_size_bytes (passed input_sum) =
    if ltb input_sum (output_sum tx.outputs)
    then ok (unspendable negative_fee)
    else (fee_rate (input_sum - output_sum tx.outputs) tx_size_bytes >>= λ rate.
        ok (spendable (input_sum - output_sum tx.outputs) rate))

-- `_assess_spends`
unfoldable pub assess_spends :
    Primitives → List (Outpoint × Bytes) → Transaction → ℕ → Option View → ℕ → ℕ → Result Assessment
assess_spends p spent tx tx_size_bytes none current_time_ms current_height =
    ok (unspendable (if length tx.inputs == 0 then coinbase_not_relayable else missing_utxo_view))
assess_spends p spent tx tx_size_bytes (some view) current_time_ms current_height =
    if length tx.inputs == 0
    then ok (unspendable coinbase_not_relayable)
    else (elim (check_locks (record {
      locktime_ms = tx.locktime_ms;
      lockheight = tx.lockheight;
      current_time_ms = current_time_ms;
      current_height = current_height;
    })) [
      | err _ ↦ ok (unspendable tx_lock_unmatured)
      | ok _ ↦
          assess_inputs p view spent tx current_time_ms current_height 0 [] 0 tx.inputs
          >>= assess_fee tx tx_size_bytes
    ])
