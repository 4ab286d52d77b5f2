-- ===== src/Script/Template.antt =====
-- The standard templates of src/tensorpow/tx/script.py: payload shapes, locks and witnesses.
pub mod Payloads
pub mod Spending
pub mod Conditions
use tensor_po_w.Base.{
  ℕ, ◌+◌, ◌*◌, List, not, ltb, leb, ◌==◌, ◌&&◌, length, take, drop, slice, Bool, true, false,
}
use tensor_po_w.Base.{
  Result, ok, err, script_error, value_error, raise_if, if◌then◌else◌, ◌>>=◌, ◌>>◌,
}
use tensor_po_w.Base.Bytes.{Bytes, beq, from_le, chunks}
use tensor_po_w.Checks.{require_uint, require_max_len, u8_max, u16_max, u64_max}
use tensor_po_w.Crypto.Primitives.{Primitives}
use tensor_po_w.Crypto.Hash.{hash_len_bytes, hash_bytes, domain_hash, address}
use tensor_po_w.Crypto.Signatures.{
  sig_type_ed25519, ed25519_public_key_bytes, ed25519_signature_bytes,
}
use tensor_po_w.Script.Stack.{script_max_element_bytes}
use tensor_po_w.Script.Multisig.{
  parse_multisig_payload, verify_signature_bytes, verify_ordered_multisig,
}
use tensor_po_w.Tx.Input.{tx_witness_max_bytes}
use tensor_po_w.State.Utxo.{Utxo}
use tensor_po_w.State.Limits.{template_pkh, template_multisig, template_hashlock, is_active}

-- The keyword arguments of `verify_template` beside the signature type.
pub record Locks : Type 0 where
  pub locktime_ms : ℕ
  pub lockheight : ℕ
  pub current_time_ms : ℕ
  pub current_height : ℕ

-- Their defaults.
abbrev pub no_locks : Locks
no_locks = record { locktime_ms = 0; lockheight = 0; current_time_ms = 0; current_height = 0 }

-- `_infer_inner_template_id`
unfoldable pub infer_inner_template_id : Bytes → Result ℕ
infer_inner_template_id payload =
    if length payload == hash_len_bytes
    then ok template_pkh
    else (do keys ← parse_multisig_payload payload; ok template_multisig)

-- `_require_template_id`
unfoldable pub require_template_id : ℕ → Result (Unit {0})
require_template_id template_id = do
  require_uint template_id u16_max
  raise_if (not (is_active template_id)) script_error

-- The branches of `validate_template_payload`, where `validate_inner` is its own call for a
-- hashlock's inner template.
unfoldable pub validate_shape : (ℕ → Bytes → Result (Unit {0})) → ℕ → Bytes → Result (Unit {0})
validate_shape validate_inner template_id payload =
    if template_id == template_pkh
    then raise_if (not (length payload == hash_len_bytes)) script_error
    else if template_id == template_multisig
    then (do keys ← parse_multisig_payload payload; ok tt)
    else (do
      raise_if (leb (length payload) hash_len_bytes) script_error
      inner_template ← infer_inner_template_id (drop hash_len_bytes payload)
      validate_inner inner_template (drop hash_len_bytes payload))

unfoldable pub validate_with : (ℕ → Bytes → Result (Unit {0})) → ℕ → Bytes → Result (Unit {0})
unfolding require_template_id validate_shape
validate_with validate_inner template_id payload = do
  require_template_id template_id
  validate_shape validate_inner template_id payload

-- An inner template is never a hashlock, so the call within the call goes no deeper.
unfoldable pub validate_template_payload : ℕ → Bytes → Result (Unit {0})
unfolding validate_with
validate_template_payload = validate_with (validate_with (λ t payload. err script_error))

-- `check_locks`
unfoldable pub check_locks : Locks → Result (Unit {0})
check_locks l = do
  require_uint l.locktime_ms u64_max
  require_uint l.lockheight u64_max
  require_uint l.current_time_ms u64_max
  require_uint l.current_height u64_max
  raise_if (not (l.locktime_ms == 0) && ltb l.current_time_ms l.locktime_ms) script_error
  raise_if (not (l.lockheight == 0) && ltb l.current_height l.lockheight) script_error

-- `_require_sig_type`
unfoldable pub require_sig_type : ℕ → Result (Unit {0})
require_sig_type sig_type = do
  require_uint sig_type u8_max
  raise_if (not (sig_type == sig_type_ed25519)) script_error

module _ (p : Primitives) where
  -- `pubkey_hash`
  unfoldable pub pubkey_hash : Bytes → Result Bytes
  pubkey_hash public_key = do
    raise_if (not (length public_key == ed25519_public_key_bytes)) value_error
    ok (domain_hash p address public_key)

  -- `_verify_pkh`
  unfoldable pub verify_pkh : Bytes → Bytes → Bytes → ℕ → Result Bool
  unfolding pubkey_hash
  verify_pkh payload witness message sig_type =
      if not (length witness == ed25519_signature_bytes + ed25519_public_key_bytes)
      then ok false
      else (do
        let signature = take ed25519_signature_bytes witness
        let public_key = drop ed25519_signature_bytes witness
        owner ← pubkey_hash public_key
        ok (beq owner payload && verify_signature_bytes p sig_type message signature public_key))

  -- `_verify_multisig_template`
  unfoldable pub verify_multisig_template : Bytes → Bytes → Bytes → ℕ → Result Bool
  verify_multisig_template payload witness message sig_type = do
    (threshold, public_keys) ← parse_multisig_payload payload
    ok (
        length witness == threshold * ed25519_signature_bytes
        && verify_ordered_multisig p sig_type message (chunks ed25519_signature_bytes witness)
            public_keys)

  -- `_verify_hashlock`, where `verify_inner` is its call of `verify_template`.
  unfoldable pub verify_hashlock :
      (ℕ → Bytes → Bytes → Bytes → ℕ → Bool) → Bytes → Bytes → Bytes → ℕ → Result Bool
  verify_hashlock verify_inner payload witness message sig_type =
      let preimage_len = from_le (take 2 witness) in
      let preimage_end = 2 + preimage_len in
      if ltb (length witness) 2
      then ok false
      else if ltb script_max_element_bytes preimage_len
      then ok false
      else if ltb (length witness) preimage_end
      then ok false
      else if not (beq (hash_bytes p (slice 2 preimage_end witness)) (take hash_len_bytes payload))
      then ok false
      else (do
        inner_template ← infer_inner_template_id (drop hash_len_bytes payload)
        ok (
            verify_inner inner_template (drop hash_len_bytes payload) (drop preimage_end witness)
              message sig_type))

  -- The witness check of each template.
  unfoldable pub verify_witness :
      (ℕ → Bytes → Bytes → Bytes → ℕ → Bool) → ℕ → Bytes → Bytes → Bytes → ℕ → Result Bool
  verify_witness verify_inner template_id payload witness message sig_type =
      if template_id == template_pkh
      then verify_pkh payload witness message sig_type
      else if template_id == template_multisig
      then verify_multisig_template payload witness message sig_type
      else if template_id == template_hashlock
      then verify_hashlock verify_inner payload witness message sig_type
      else ok false

  -- The `try` block of `verify_template`.
  unfoldable pub try_template :
      (ℕ → Bytes → Bytes → Bytes → ℕ → Bool) → ℕ → Bytes → Bytes → Bytes → ℕ → Locks → Result Bool
  try_template verify_inner template_id payload witness message sig_type locks = do
    validate_template_payload template_id payload
    require_max_len witness tx_witness_max_bytes
    require_sig_type sig_type
    check_locks locks
    verify_witness verify_inner template_id payload witness message sig_type

  -- Its handler takes ScriptError, TypeError and ValueError, and so every exception of the block.
  unfoldable pub verify_with :
      (ℕ → Bytes → Bytes → Bytes → ℕ → Bool) → ℕ → Bytes → Bytes → Bytes → ℕ → Locks → Bool
  unfolding try_template
  verify_with verify_inner template_id payload witness message sig_type locks =
      elim (try_template verify_inner template_id payload witness message sig_type locks) [
        | ok answer ↦ answer
        | err _ ↦ false
      ]

  -- The call that a hashlock makes for its inner template, with the default locks.
  unfoldable pub verify_inner_template : ℕ → Bytes → Bytes → Bytes → ℕ → Bool
  verify_inner_template template_id payload witness message sig_type =
      verify_with (λ t pl w m s. false) template_id payload witness message sig_type no_locks

  -- `verify_template`; an inner template is never a hashlock, so the calls go no deeper.
  unfoldable pub verify_template : ℕ → Bytes → Bytes → Bytes → ℕ → Locks → Bool
  verify_template = verify_with verify_inner_template

  -- `verify_utxo_spend`
  unfoldable pub verify_utxo_spend : Utxo → Bytes → Bytes → ℕ → ℕ → ℕ → Bool
  verify_utxo_spend utxo witness message sig_type current_time_ms current_height =
      let payload =
        if utxo.template_id == template_pkh then utxo.owner_pubkey_hash else utxo.payload in
      verify_template utxo.template_id payload witness message sig_type (record {
        locktime_ms = utxo.locktime_ms;
        lockheight = utxo.lockheight;
        current_time_ms = current_time_ms;
        current_height = current_height;
      })
