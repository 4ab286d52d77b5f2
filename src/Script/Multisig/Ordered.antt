-- ===== src/Script/Multisig/Ordered.antt =====
-- `_verify_ordered_multisig` takes for each signature the first key that fits. It finds an
-- assignment of keys to signatures in order whenever there is one.
use tensor_po_w.Base.{ℕ, ◌≡◌, refl, [], ◌∷◌, List, true, some, ◌↔◌, inl, inr}
use tensor_po_w.Base.{eq_of_some, Bool-cases, Option-cases}
use tensor_po_w.Base.Bytes.{Bytes}
use tensor_po_w.Crypto.Primitives.{Primitives}
use tensor_po_w.Script.Multisig.{verify_signature_bytes, next_match, verify_ordered_multisig}

module _ (p : Primitives) (sig_type : ℕ) (message : Bytes) where
  -- Each signature is by a key of its own, and the keys stand in the order of the signatures.
  pub data SignedInOrder : List Bytes → List Bytes → Type 0 where
    done : {keys : List Bytes} → SignedInOrder [] keys
    skip :
        {sigs keys : List Bytes} {key : Bytes}
        → SignedInOrder sigs keys
        → SignedInOrder sigs (key ∷ keys)
    take_key :
        {sigs keys : List Bytes} {sig key : Bytes}
        → verify_signature_bytes p sig_type message sig key ≡ true
        → SignedInOrder sigs keys
        → SignedInOrder (sig ∷ sigs) (key ∷ keys)

  drop_first :
      {sig : Bytes} {sigs keys : List Bytes}
      → SignedInOrder (sig ∷ sigs) keys
      → SignedInOrder sigs keys
  drop_first (skip s) = skip (drop_first s)
  drop_first (take_key good s) = skip s

  -- The keys that `next_match` leaves serve the signatures that follow, if any choice does.
  next_match-first :
      {sig : Bytes} {sigs keys : List Bytes}
      → SignedInOrder (sig ∷ sigs) keys
      → (rest : List Bytes) × (next_match p sig_type message sig keys ≡ some rest)
        × SignedInOrder sigs rest
  unfolding next_match
  next_match-first {sig} (skip {keys = keys} {key = key} s) =
      elim (Bool-cases (verify_signature_bytes p sig_type message sig key)) [
        | inl good ↦ (keys, rw good, drop_first s)
        | inr bad ↦ rw bad (next_match-first s)
      ]
  next_match-first (take_key {keys = keys} good s) = (keys, rw good, s)

  next_match-SignedInOrder :
      (sig : Bytes) (sigs keys : List Bytes) {rest : List Bytes}
      → next_match p sig_type message sig keys ≡ some rest
      → SignedInOrder sigs rest
      → SignedInOrder (sig ∷ sigs) keys
  unfolding next_match
  next_match-SignedInOrder sig sigs [] e s = cc
  next_match-SignedInOrder sig sigs (key ∷ keys) {rest} e s =
      elim (Bool-cases (verify_signature_bytes p sig_type message sig key)) [
        | inl good ↦ take_key good (let same : keys ≡ rest = eq_of_some (rw good at e) in rw same s)
        | inr bad ↦ skip (next_match-SignedInOrder sig sigs keys (rw bad at e) s)
      ]

  sound :
      (sigs keys : List Bytes)
      → verify_ordered_multisig p sig_type message sigs keys ≡ true
      → SignedInOrder sigs keys
  unfolding verify_ordered_multisig
  sound [] keys e = done
  sound (sig ∷ sigs) keys e = elim (Option-cases (next_match p sig_type message sig keys)) [
    | inl missed ↦ cc (rw (missed, verify_ordered_multisig) at e)
    | inr (rest, found) ↦
        next_match-SignedInOrder sig sigs keys found
          (sound sigs rest (rw (found, verify_ordered_multisig) at e))
  ]

  complete :
      (sigs keys : List Bytes)
      → SignedInOrder sigs keys
      → verify_ordered_multisig p sig_type message sigs keys ≡ true
  unfolding verify_ordered_multisig
  complete [] keys s = refl
  complete (sig ∷ sigs) keys s =
      let (rest, found, s') = next_match-first s in
      rw (found, verify_ordered_multisig) (complete sigs rest s')

  -- The loop answers whether the signatures can be assigned, in order, to keys of their own that
  -- verify them: taking the first key that fits never misses an assignment.
  pub verify_ordered_multisig_iff :
      (sigs keys : List Bytes)
      → (verify_ordered_multisig p sig_type message sigs keys ≡ true) ↔ SignedInOrder sigs keys
  verify_ordered_multisig_iff sigs keys = (sound sigs keys, complete sigs keys)
