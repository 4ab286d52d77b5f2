-- ===== src/Script/Machine.antt =====
-- The stack machine: `execute_script`, `verify_script` and `encode_push` of
-- src/tensorpow/tx/script.py.
pub mod Bounds
pub mod Pushes
use tensor_po_w.Base.{
  ℕ, zero, suc, ◌+◌, [], ◌∷◌, ◌++◌, List, not, ltb, leb, ◌==◌, ◌&&◌, ◌||◌, length, slice, Bool,
  true, false,
}
use tensor_po_w.Base.{
  Option, none, some, get_elem?, map, All, reverse, Result, ok, err, script_error, index_error,
  stuck,
}
use tensor_po_w.Base.{value_error, raise_if, if◌then◌else◌, ◌>>=◌, ◌>>◌}
use tensor_po_w.Base.Bytes.{Bytes, beq, from_le, to_le}
use tensor_po_w.Checks.{require_uint, u8_max, u64_max}
use tensor_po_w.Crypto.Primitives.{Primitives}
use tensor_po_w.Crypto.Hash.{hash_len_bytes, hash_bytes}
use tensor_po_w.Crypto.Signatures.{
  sig_type_ed25519, ed25519_public_key_bytes, ed25519_signature_bytes,
}
use tensor_po_w.Script.Stack.{
  Stack, require_stack_item, push, push_bool, pop, pop_many, push_initial,
}
use tensor_po_w.Script.Stack.{decode_small_int, decode_lock, truthy, script_max_element_bytes}
use tensor_po_w.Script.Multisig.{
  verify_signature_bytes, verify_ordered_multisig, require_distinct_multisig_keys,
}
use tensor_po_w.Tx.Payload.{multisig_max_keys}

abbrev pub script_max_bytes : ℕ
script_max_bytes = 1024

abbrev pub script_max_ops : ℕ
script_max_ops = 256

abbrev pub op_push : ℕ
op_push = 0x01

abbrev pub op_verify : ℕ
op_verify = 0x69

abbrev pub op_dup : ℕ
op_dup = 0x76

abbrev pub op_hash256 : ℕ
op_hash256 = 0xaa

abbrev pub op_checksig : ℕ
op_checksig = 0xac

abbrev pub op_checkmultisig : ℕ
op_checkmultisig = 0xae

abbrev pub op_hashlock : ℕ
op_hashlock = 0xb1

abbrev pub op_checklocktime : ℕ
op_checklocktime = 0xb2

abbrev pub op_checklockheight : ℕ
op_checklockheight = 0xb3

-- `ScriptContext`
pub record Context : Type 0 where
  pub message : Bytes
  pub sig_type : ℕ
  pub current_time_ms : ℕ
  pub current_height : ℕ

-- `ScriptContext.__post_init__`
unfoldable pub check_context : Context → Result (Unit {0})
check_context c = do
  require_uint c.sig_type u8_max
  raise_if (not (c.sig_type == sig_type_ed25519)) script_error
  require_uint c.current_time_ms u64_max
  require_uint c.current_height u64_max

-- `_read_push`: the item behind its length, and the offset behind the item.
unfoldable pub read_push : Bytes → ℕ → Result (Bytes × ℕ)
read_push script offset = do
  raise_if (ltb (length script) (offset + 2)) script_error
  let size = from_le (slice offset (offset + 2) script)
  raise_if (ltb script_max_element_bytes size) script_error
  raise_if (ltb (length script) (offset + 2 + size)) script_error
  ok (slice (offset + 2) (offset + 2 + size) script, offset + 2 + size)

-- `for item in items: if len(item) != width: raise ScriptError`
unfoldable pub require_widths : ℕ → List Bytes → Result (Unit {0})
require_widths width [] = ok tt
require_widths width (item ∷ items) = do
  raise_if (not (length item == width)) script_error
  require_widths width items

module _ (p : Primitives) where
  -- `_execute_checkmultisig`: the answer and the stack that it leaves.
  unfoldable pub execute_checkmultisig : Context → Stack → Result (Bool × Stack)
  execute_checkmultisig c stack = do
    (item, stack₁) ← pop stack
    pubkey_count ← decode_small_int item
    raise_if (not (leb 1 pubkey_count && leb pubkey_count multisig_max_keys)) script_error
    (public_keys, stack₂) ← pop_many pubkey_count [] stack₁
    require_widths ed25519_public_key_bytes public_keys
    require_distinct_multisig_keys public_keys
    (item', stack₃) ← pop stack₂
    threshold ← decode_small_int item'
    raise_if (not (leb 1 threshold && leb threshold pubkey_count)) script_error
    (signatures, stack₄) ← pop_many threshold [] stack₃
    require_widths ed25519_signature_bytes signatures
    ok (verify_ordered_multisig p c.sig_type c.message signatures public_keys, stack₄)

  unfoldable pub op_dup_step : Stack → Result Stack
  op_dup_step [] = err script_error
  op_dup_step (item ∷ stack) = push item (item ∷ stack)

  unfoldable pub op_hash256_step : Stack → Result Stack
  op_hash256_step stack = do (item, stack') ← pop stack; push (hash_bytes p item) stack'

  unfoldable pub op_checksig_step : Context → Stack → Result Stack
  op_checksig_step c stack = do
    (public_key, stack₁) ← pop stack
    (signature, stack₂) ← pop stack₁
    push_bool (verify_signature_bytes p c.sig_type c.message signature public_key) stack₂

  unfoldable pub op_checkmultisig_step : Context → Stack → Result Stack
  op_checkmultisig_step c stack = do
    (answer, stack') ← execute_checkmultisig c stack
    push_bool answer stack'

  unfoldable pub op_hashlock_step : Stack → Result Stack
  op_hashlock_step stack = do
    (expected_hash, stack₁) ← pop stack
    (preimage, stack₂) ← pop stack₁
    raise_if (not (length expected_hash == hash_len_bytes)) script_error
    push_bool (beq (hash_bytes p preimage) expected_hash) stack₂

  -- OP_CHECKLOCKTIME and OP_CHECKLOCKHEIGHT, against the time or the height.
  unfoldable pub op_checklock_step : ℕ → Stack → Result Stack
  op_checklock_step current stack = do
    (item, stack') ← pop stack
    required ← decode_lock item
    push_bool (required == 0 || leb required current) stack'

  unfoldable pub op_verify_step : Stack → Result Stack
  op_verify_step stack = do
    (item, stack') ← pop stack
    answer ← truthy item
    raise_if (not answer) script_error
    ok stack'

  -- An opcode that takes nothing from the script.
  unfoldable pub run_opcode : Context → ℕ → Stack → Result Stack
  run_opcode c opcode stack =
      if opcode == op_dup
      then op_dup_step stack
      else if opcode == op_hash256
      then op_hash256_step stack
      else if opcode == op_checksig
      then op_checksig_step c stack
      else if opcode == op_checkmultisig
      then op_checkmultisig_step c stack
      else if opcode == op_hashlock
      then op_hashlock_step stack
      else if opcode == op_checklocktime
      then op_checklock_step c.current_time_ms stack
      else if opcode == op_checklockheight
      then op_checklock_step c.current_height stack
      else if opcode == op_verify
      then op_verify_step stack
      else err script_error

  -- One round of the loop, with the opcode at `offset`.
  unfoldable pub step : Context → Bytes → ℕ → Stack → Result (ℕ × Stack)
  step c script offset stack = elim (get_elem? script offset) [
    | none ↦ err index_error
    | some opcode ↦
        if opcode == op_push
        then (do
          (item, offset') ← read_push script (offset + 1)
          stack' ← push item stack
          ok (offset', stack'))
        else (do stack' ← run_opcode c opcode stack; ok (offset + 1, stack'))
  ]

  -- `while offset < len(script)`. Each round counts an operation, and the loop raises at the 257th,
  -- so 257 rounds of fuel are enough.
  unfoldable pub run_loop : ℕ → Context → Bytes → ℕ → ℕ → Stack → Result Stack
  run_loop zero c script offset op_count stack = err stuck
  run_loop (suc fuel) c script offset op_count stack =
      if ltb offset (length script)
      then (do
        raise_if (ltb script_max_ops (op_count + 1)) script_error
        (offset', stack') ← step c script offset stack
        run_loop fuel c script offset' (op_count + 1) stack')
      else ok stack

  -- The final stack has its top first, as `Stack` does.
  unfoldable pub execute : Context → Bytes → List Bytes → Result Stack
  execute c script initial_stack = do
    raise_if (ltb script_max_bytes (length script)) script_error
    stack ← push_initial initial_stack []
    run_loop 257 c script 0 0 stack

  -- `execute_script`, whose result has the top of the stack last.
  unfoldable pub execute_script : Context → Bytes → List Bytes → Result (List Bytes)
  unfolding execute
  execute_script c script initial_stack = do
    stack ← execute c script initial_stack
    ok (reverse stack)

  -- `bool(stack) and _truthy(stack[-1])`
  unfoldable pub top_truthy : Stack → Result Bool
  top_truthy [] = ok false
  top_truthy (item ∷ stack) = truthy item

  -- `verify_script`: its handler takes ScriptError, TypeError and ValueError, and so every
  -- exception that `execute_script` raises.
  unfoldable pub verify_script : Context → Bytes → List Bytes → Bool
  unfolding execute top_truthy
  verify_script c script initial_stack = elim (execute c script initial_stack >>= top_truthy) [
    | ok answer ↦ answer
    | err _ ↦ false
  ]

-- `encode_push`
unfoldable pub encode_push : Bytes → Result Bytes
encode_push item = do require_stack_item item; ok (op_push ∷ (to_le 2 (length item) ++ item))
