-- ===== src/Tx/Sighash.antt =====
-- Signature hashes: they commit to all of a transaction but its witnesses.
use tensor_po_w.Base.{
  ℕ, suc, ◌+◌, ◌≡◌, ◌≤◌, ◌++◌, refl, sym, ap, ◌∙◌, length, concat, map, All, List, [], ◌∷◌, ok,
  arith,
}
use tensor_po_w.Base.{append-nil, ap₂, append_injective, ok-injective, length-append}
use tensor_po_w.Base.Bytes.{to_le, from_le, length-to_le, from_le-to_le}
use tensor_po_w.Checks.{u32_max}
use tensor_po_w.Crypto.Primitives.{Primitives}
use tensor_po_w.State.Outpoint
use tensor_po_w.Tx.Input
use tensor_po_w.Tx.Input.{Input}
use tensor_po_w.Tx.Transaction
use tensor_po_w.Tx.Transaction.{Transaction, strip, new_inputs, bare_input, without_witnesses}
use tensor_po_w.Tx.Transaction.{bare_bytes, sighash_preimage, sighash}
use tensor_po_w.Tx.Decode.{from_bytes}
use tensor_po_w.Tx.RoundTrip.{IsValid, from_bytes-to_bytes}

-- The transaction with every witness emptied.
abbrev pub stripped : Transaction → Transaction
stripped t = record t { inputs = map strip t.inputs }

strip-check : (i : Input) → Input.check i ≡ ok tt → Input.check (strip i) ≡ ok tt
unfolding Input.check
strip-check i h = ground arith

strip-IsValid : (i : Input) → Input.IsValid i → Input.IsValid (strip i)
strip-IsValid i v = record { outpoint_valid = v.outpoint_valid; checked = strip-check i v.checked }

map-strip-IsValid : (is : List Input) → All Input.IsValid is → All Input.IsValid (map strip is)
map-strip-IsValid [] h = tt
map-strip-IsValid (i ∷ is) (v, h) = (strip-IsValid i v, map-strip-IsValid is h)

new_inputs_lem : (is : List Input) → All Input.IsValid is → new_inputs is ≡ ok (map strip is)
new_inputs_lem [] h = refl
new_inputs_lem (i ∷ is) (v, h) =
    rw (Input.new_lem (strip i) (strip-check i v.checked), new_inputs_lem is h)

length-map-strip : (is : List Input) → length (map strip is) ≡ length is
length-map-strip [] = refl
length-map-strip (i ∷ is) = ap suc (length-map-strip is)

-- A bare input is the encoding of the stripped one.
bare_input-strip : (i : Input) → bare_input i ≡ Input.to_bytes (strip i)
unfolding Input.to_bytes
bare_input-strip i = rw append-nil

length-to_bytes :
    (i : Input)
    → length (Input.to_bytes i)
      ≡ length (Outpoint.to_bytes i.previous_outpoint) + 6 + length i.witness
unfolding Input.to_bytes
length-to_bytes i = simp (length-append, length-to_le) (omega arith)

bare-strip :
    (is : List Input) → concat (map bare_input is) ≡ concat (map Input.to_bytes (map strip is))
bare-strip [] = refl
bare-strip (i ∷ is) = ap₂ ◌++◌ (bare_input-strip i) (bare-strip is)

bare_bytes-stripped : (t : Transaction) → bare_bytes t ≡ Transaction.to_bytes (stripped t)
unfolding bare_bytes Transaction.to_bytes
bare_bytes-stripped t = rw (length-map-strip t.inputs, bare-strip t.inputs)

length-strip :
    (is : List Input)
    → length (concat (map Input.to_bytes (map strip is))) ≤ length (concat (map Input.to_bytes is))
length-strip [] = omega arith
length-strip (i ∷ is) = omega (
  arith,
  length-append (Input.to_bytes (strip i)) (concat (map Input.to_bytes (map strip is))),
  length-append (Input.to_bytes i) (concat (map Input.to_bytes is)),
  length-to_bytes i,
  length-to_bytes (strip i),
  length-strip is,
)

length-stripped :
    (t : Transaction) → length (Transaction.to_bytes (stripped t)) ≤ length (Transaction.to_bytes t)
unfolding Transaction.to_bytes
length-stripped t = simp (length-append, length-to_le) (omega (arith, length-strip t.inputs))

stripped-check :
    (t : Transaction) → Transaction.check t ≡ ok tt → Transaction.check (stripped t) ≡ ok tt
unfolding Transaction.check
stripped-check t h = ground (arith, length-stripped t, length-map-strip t.inputs)

pub stripped-IsValid : (t : Transaction) → IsValid t → IsValid (stripped t)
stripped-IsValid t v = record {
  checked = stripped-check t v.checked;
  inputs_valid = map-strip-IsValid t.inputs v.inputs_valid;
  outputs_valid = v.outputs_valid;
}

-- For a valid transaction `without_witnesses` succeeds; it empties every witness and keeps the
-- rest, and its encoding is what `sighash` hashes in front of the input's index.
pub without_witnesses_lem :
    (t : Transaction) (i : ℕ)
    → IsValid t
    → (without_witnesses t ≡ ok (stripped t))
      × (sighash_preimage t i ≡ Transaction.to_bytes (stripped t) ++ to_le 4 i)
unfolding without_witnesses sighash_preimage
without_witnesses_lem t i v = (
  rw (new_inputs_lem t.inputs v.inputs_valid)
      (Transaction.new_lem (stripped t) (stripped-check t v.checked)),
  rw (bare_bytes-stripped t),
)

bare_input-strips :
    (is : List Input) → concat (map bare_input (map strip is)) ≡ concat (map bare_input is)
bare_input-strips [] = refl
bare_input-strips (i ∷ is) = ap (◌++◌ (bare_input i)) (bare_input-strips is)

sighash_preimage-stripped :
    (t : Transaction) (i : ℕ) → sighash_preimage (stripped t) i ≡ sighash_preimage t i
unfolding sighash_preimage bare_bytes
sighash_preimage-stripped t i = rw (length-map-strip t.inputs, bare_input-strips t.inputs)

-- Emptying the witnesses changes no signature hash, and no refusal of an input's index.
pub sighash-stripped :
    (p : Primitives) (t : Transaction) (i : ℕ) → sighash p (stripped t) i ≡ sighash p t i
unfolding sighash
sighash-stripped p t i = simp (length-map-strip, sighash_preimage-stripped)

to_bytes-injective :
    (t u : Transaction)
    → IsValid t
    → IsValid u
    → Transaction.to_bytes t ≡ Transaction.to_bytes u
    → t ≡ u
to_bytes-injective t u v w e =
    ok-injective (sym (from_bytes-to_bytes t v) ∙ ap from_bytes e ∙ from_bytes-to_bytes u w)

-- Two valid transactions with the same bytes under a signature are equal but for their witnesses,
-- and the signatures are for the same input.
pub sighash_preimage-commits :
    (t u : Transaction) (i j : ℕ)
    → IsValid t
    → IsValid u
    → i ≤ u32_max
    → j ≤ u32_max
    → sighash_preimage t i ≡ sighash_preimage u j
    → (stripped t ≡ stripped u) × (i ≡ j)
sighash_preimage-commits t u i j v w hi hj e =
    let e' : Transaction.to_bytes (stripped t) ++ to_le 4 i
        ≡ Transaction.to_bytes (stripped u) ++ to_le 4 j =
      sym (without_witnesses_lem t i v).1 ∙ e ∙ (without_witnesses_lem u j w).1 in
    let (front, back) = append_injective _ _ _ _ (length-to_le 4 i ∙ sym (length-to_le 4 j)) e' in
    (
      to_bytes-injective (stripped t) (stripped u) (stripped-IsValid t v) (stripped-IsValid u w)
          front,
      sym (from_le-to_le 4 i (omega arith)) ∙ ap from_le back ∙ from_le-to_le 4 j (omega arith),
    )
