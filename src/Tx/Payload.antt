-- ===== src/Tx/Payload.antt =====
-- `_require_template_payload` of src/tensorpow/tx/transaction.py: the shape of an output's payload.
use tensor_po_w.Base.{ℕ, ◌+◌, ◌*◌, List, [], ◌∷◌, not, leb, ◌==◌, ◌&&◌, length, drop}
use tensor_po_w.Base.{Result, ok, err, value_error, raise_if, if◌then◌else◌, ◌>>◌}
use tensor_po_w.Base.Bytes.{Bytes, distinct, chunks}
use tensor_po_w.State.Limits.{template_pkh, template_multisig, template_hashlock}
use tensor_po_w.Crypto.Hash.{hash_len_bytes}
use tensor_po_w.Crypto.Signatures.{ed25519_public_key_bytes}

abbrev pub multisig_max_keys : ℕ
multisig_max_keys = 15

-- The keys of a multisig payload, behind its two counts.
abbrev pub multisig_keys : Bytes → List Bytes
multisig_keys payload = chunks ed25519_public_key_bytes (drop 2 payload)

unfoldable pub require_multisig_payload : Bytes → Result (Unit {0})
require_multisig_payload [] = err value_error
require_multisig_payload (threshold ∷ []) = err value_error
require_multisig_payload (threshold ∷ pubkey_count ∷ keys) = do
  raise_if (not (leb 1 pubkey_count && leb pubkey_count multisig_max_keys)) value_error
  raise_if (not (leb 1 threshold && leb threshold pubkey_count)) value_error
  raise_if
      (not
        (length (threshold ∷ pubkey_count ∷ keys) == 2 + pubkey_count * ed25519_public_key_bytes))
      value_error
  raise_if (not (distinct (multisig_keys (threshold ∷ pubkey_count ∷ keys)))) value_error

unfoldable pub require_inner_template_payload : Bytes → Result (Unit {0})
unfolding require_multisig_payload
require_inner_template_payload payload =
    if length payload == hash_len_bytes then ok tt else require_multisig_payload payload

unfoldable pub require_template_payload : ℕ → Bytes → Result (Unit {0})
unfolding require_multisig_payload require_inner_template_payload
require_template_payload template_id payload =
    if template_id == template_pkh
    then raise_if (not (length payload == hash_len_bytes)) value_error
    else if template_id == template_multisig
    then require_multisig_payload payload
    else if template_id == template_hashlock
    then (do
      raise_if (leb (length payload) hash_len_bytes) value_error
      require_inner_template_payload (drop hash_len_bytes payload))
    else err value_error
