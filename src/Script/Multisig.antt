-- ===== src/Script/Multisig.antt =====
-- Ordered multisignatures of src/tensorpow/tx/script.py.
pub mod Ordered
use tensor_po_w.Base.{
  ℕ, ◌+◌, ◌*◌, [], ◌∷◌, List, not, leb, ◌==◌, ◌&&◌, length, drop, Bool, true, false, Option, none,
  some,
}
use tensor_po_w.Base.{
  ◌≡◌, ◌≤◌, arith, Result, ok, err, script_error, raise_if, if◌then◌else◌, ◌>>=◌, ◌>>◌,
}
use tensor_po_w.Base.Bytes.{Bytes, distinct, chunks}
use tensor_po_w.Crypto.Primitives.{Primitives}
use tensor_po_w.Crypto.Signatures.{
  ed25519_public_key_bytes, ed25519_signature_bytes, verify_by_sig_type,
}
use tensor_po_w.Tx.Payload.{multisig_max_keys, multisig_keys}

-- `_require_distinct_multisig_keys`
unfoldable pub require_distinct_multisig_keys : List Bytes → Result (Unit {0})
require_distinct_multisig_keys public_keys = raise_if (not (distinct public_keys)) script_error

-- `_parse_multisig_payload`
unfoldable pub parse_multisig_payload : Bytes → Result (ℕ × List Bytes)
unfolding require_distinct_multisig_keys
parse_multisig_payload [] = err script_error
parse_multisig_payload (threshold ∷ []) = err script_error
parse_multisig_payload (threshold ∷ pubkey_count ∷ keys) = do
  raise_if (not (leb 1 pubkey_count && leb pubkey_count multisig_max_keys)) script_error
  raise_if (not (leb 1 threshold && leb threshold pubkey_count)) script_error
  raise_if
      (not
        (length (threshold ∷ pubkey_count ∷ keys) == 2 + pubkey_count * ed25519_public_key_bytes))
      script_error
  require_distinct_multisig_keys (multisig_keys (threshold ∷ pubkey_count ∷ keys))
  ok (threshold, multisig_keys (threshold ∷ pubkey_count ∷ keys))

-- A payload that parses asks for 1 to 15 signatures.
pub parse_multisig_payload-bounds :
    (payload : Bytes) {threshold : ℕ} {keys : List Bytes}
    → parse_multisig_payload payload ≡ ok (threshold, keys)
    → (1 ≤ threshold) × (threshold ≤ 15)
unfolding parse_multisig_payload
parse_multisig_payload-bounds [] e = cc
parse_multisig_payload-bounds (t ∷ []) e = cc
parse_multisig_payload-bounds (t ∷ n ∷ keys) e = ground arith

module _ (p : Primitives) where
  -- `_verify_signature_bytes`
  unfoldable pub verify_signature_bytes : ℕ → Bytes → Bytes → Bytes → Bool
  verify_signature_bytes sig_type message signature public_key =
      if not (length signature == ed25519_signature_bytes)
      then false
      else if not (length public_key == ed25519_public_key_bytes)
      then false
      else verify_by_sig_type p sig_type message signature public_key

  -- The inner loop of `_verify_ordered_multisig`: the keys behind the first one that verifies the
  -- signature, which is where `public_key_index` stands after `break`.
  unfoldable pub next_match : ℕ → Bytes → Bytes → List Bytes → Option (List Bytes)
  unfolding verify_signature_bytes
  next_match sig_type message signature [] = none
  next_match sig_type message signature (public_key ∷ public_keys) =
      if verify_signature_bytes sig_type message signature public_key
      then some public_keys
      else next_match sig_type message signature public_keys

  -- `_verify_ordered_multisig`, over the keys from `public_key_index` on.
  unfoldable pub verify_ordered_multisig : ℕ → Bytes → List Bytes → List Bytes → Bool
  unfolding next_match
  verify_ordered_multisig sig_type message [] public_keys = true
  verify_ordered_multisig sig_type message (signature ∷ signatures) public_keys =
      elim (next_match sig_type message signature public_keys) [
        | none ↦ false
        | some rest ↦ verify_ordered_multisig sig_type message signatures rest
      ]
