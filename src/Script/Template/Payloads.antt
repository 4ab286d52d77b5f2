-- ===== src/Script/Template/Payloads.antt =====
-- The two payload checks, of src/tensorpow/tx/transaction.py and of src/tensorpow/tx/script.py.
use tensor_po_w.Base.{
  ℕ, ◌≤◌, ◌≢◌, ◌≡◌, refl, [], ◌∷◌, List, leb, ◌==◌, length, drop, Bool, true, false, ◌↔◌,
}
use tensor_po_w.Base.{
  Result, ok, err, script_error, arith, Bool-cases, Result-cases, inl, inr, zero, suc, Error,
  raise_if, value_error, sym, ◌∙◌, >>=-eq-ok, ◌>>=◌, ◌>>◌,
}
use tensor_po_w.Base.Bytes.{Bytes}
use tensor_po_w.Script.Multisig.{parse_multisig_payload}
use tensor_po_w.Script.Template.{
  infer_inner_template_id, require_template_id, validate_shape, validate_with,
}
use tensor_po_w.Script.Template.{validate_template_payload}
use tensor_po_w.Tx.Payload.{
  multisig_keys, require_multisig_payload, require_inner_template_payload, require_template_payload,
}

-- A multisig payload passes the check of the transaction module exactly when it parses here.
parse-require :
    (payload : Bytes)
    → require_multisig_payload payload ≡ ok tt
    → (q : ℕ × List Bytes) × (parse_multisig_payload payload ≡ ok q)
unfolding require_multisig_payload parse_multisig_payload
parse-require [] e = cc
parse-require (t ∷ []) e = cc
parse-require (t ∷ n ∷ keys) e = ((t, multisig_keys (t ∷ n ∷ keys)), ground arith)

require-parse :
    (payload : Bytes) (q : ℕ × List Bytes)
    → parse_multisig_payload payload ≡ ok q
    → require_multisig_payload payload ≡ ok tt
unfolding require_multisig_payload parse_multisig_payload
require-parse [] q e = cc
require-parse (t ∷ []) q e = cc
require-parse (t ∷ n ∷ keys) q e = ground arith

-- The check of a hashlock's inner payload, in this module.
abbrev validate_inner : Bytes → Result (Unit {0})
validate_inner inner =
    infer_inner_template_id inner >>= λ t. validate_with (λ t' pl. err script_error) t inner

inner-forth :
    (inner : Bytes) → require_inner_template_payload inner ≡ ok tt → validate_inner inner ≡ ok tt
unfolding require_inner_template_payload infer_inner_template_id validate_with
inner-forth inner e = elim (Bool-cases (length inner == 32)) [
  | inl short ↦ ground arith
  | inr long ↦ let (q, parsed) = parse-require inner (rw long at e) in ground arith
]

inner-back :
    (inner : Bytes) → validate_inner inner ≡ ok tt → require_inner_template_payload inner ≡ ok tt
unfolding require_inner_template_payload infer_inner_template_id validate_with
inner-back inner e = elim (Bool-cases (length inner == 32)) [
  | inl short ↦ ground arith
  | inr long ↦ elim (Result-cases (parse_multisig_payload inner)) [
    | inl (q, parsed) ↦ ground (arith, require-parse inner q parsed)
    | inr (x, failed) ↦ absurd (ground arith)
  ]
]

-- The checks at a hashlock, with the inner checks shut.
hashlock-validate :
    (payload : Bytes)
    → validate_template_payload 2 payload
      ≡ raise_if (leb (length payload) 32) script_error >> validate_inner (drop 32 payload)
unfolding validate_template_payload
hashlock-validate payload = refl

hashlock-require :
    (payload : Bytes)
    → require_template_payload 2 payload
      ≡ raise_if (leb (length payload) 32) value_error
        >> require_inner_template_payload (drop 32 payload)
unfolding require_template_payload
hashlock-require payload = refl

guarded-eq-ok :
    (b : Bool) (x : Error) (m : Result (Unit {0}))
    → (raise_if b x >> m) ≡ ok tt
    → (b ≡ false) × (m ≡ ok tt)
guarded-eq-ok true x m e = (cc, cc)
guarded-eq-ok false x m e = (refl, e)

-- Both checks refuse a template number from 3 on.
inactive-require : (t : ℕ) (payload : Bytes) → 3 ≤ t → require_template_payload t payload ≢ ok tt
unfolding require_template_payload
inactive-require t payload h e =
    let zero_no : (t == 0) ≡ false = ground arith in
    let one_no : (t == 1) ≡ false = ground arith in
    let two_no : (t == 2) ≡ false = ground arith in cc (rw (zero_no, one_no, two_no) at e)

require_template_id-inactive : (t : ℕ) → 3 ≤ t → require_template_id t ≢ ok tt
unfolding require_template_id
require_template_id-inactive t h e = ground arith

inactive-validate :
    (f : ℕ → Bytes → Result (Unit {0})) (t : ℕ) (payload : Bytes)
    → 3 ≤ t
    → validate_with f t payload ≢ ok tt
inactive-validate f t payload h e =
    let (u, active, shape) =
      >>=-eq-ok (require_template_id t) (λ u. validate_shape f t payload) (with_shut e) in
    require_template_id-inactive t h active
  where
    with_shut :
        validate_with f t payload ≡ ok tt
        → (require_template_id t >>= λ u. validate_shape f t payload) ≡ ok tt
    with_shut e = unfold validate_with in e

forth :
    (t : ℕ) (payload : Bytes)
    → require_template_payload t payload ≡ ok tt
    → validate_template_payload t payload ≡ ok tt
forth zero payload e = unfold require_template_payload validate_template_payload in ground arith
forth (suc zero) payload e =
    unfold require_template_payload validate_template_payload in
    let (q, parsed) = parse-require payload e in rw parsed
forth (suc (suc zero)) payload e =
    let (long, inner) =
      guarded-eq-ok (leb (length payload) 32) value_error _ (sym (hashlock-require payload) ∙ e) in
    hashlock-validate payload ∙ rw (long, inner-forth (drop 32 payload) inner)
forth (suc (suc (suc n))) payload e =
    absurd (inactive-require (suc (suc (suc n))) payload (omega arith) e)

back :
    (t : ℕ) (payload : Bytes)
    → validate_template_payload t payload ≡ ok tt
    → require_template_payload t payload ≡ ok tt
back zero payload e = unfold require_template_payload validate_template_payload in ground arith
back (suc zero) payload e = elim (Result-cases (parse_multisig_payload payload)) [
  | inl (q, parsed) ↦ unfold require_template_payload in require-parse payload q parsed
  | inr (x, failed) ↦ unfold validate_template_payload in absurd (ground arith)
]
back (suc (suc zero)) payload e =
    let (long, inner) =
      guarded-eq-ok (leb (length payload) 32) script_error _
        (sym (hashlock-validate payload) ∙ e) in
    hashlock-require payload ∙ rw (long, inner-back (drop 32 payload) inner)
back (suc (suc (suc n))) payload e = absurd (
    inactive-validate (validate_with (λ t' pl. err script_error)) (suc (suc (suc n))) payload
      (omega arith) (unfold validate_template_payload in e))

-- An output's payload passes the check of the `Output` constructor exactly when it passes the check
-- that spending it makes, for every template number and payload: no output that a transaction can
-- carry is refused for its payload's shape when it is spent.
pub require-iff-validate :
    (t : ℕ) (payload : Bytes)
    → (require_template_payload t payload ≡ ok tt) ↔ (validate_template_payload t payload ≡ ok tt)
require-iff-validate t payload = (forth t payload, back t payload)
