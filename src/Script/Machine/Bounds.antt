-- ===== src/Script/Machine/Bounds.antt =====
-- Every run of the stack machine ends, with a stack within its bounds or with ScriptError.
use tensor_po_w.Base.{ℕ, zero, suc, ◌+◌, ◌≤◌, ◌<◌, ◌≡◌, refl, [], ◌∷◌, List, ltb, ◌==◌, length}
use tensor_po_w.Base.{get_elem?, Result, ok, err, script_error, arith}
use tensor_po_w.Base.{
  get_elem?-ne-none, ltb-false→le, ap, ◌⊎◌, Option-cases, Bool-cases, inl, inr, ltb→lt,
}
use tensor_po_w.Base.Bytes.{Bytes}
use tensor_po_w.Crypto.Primitives.{Primitives}
use tensor_po_w.Crypto.Hash.{hash_bytes}
use tensor_po_w.Script.Stack.{Stack}
use tensor_po_w.Script.Stack.Laws.{
  IsBounded, Ensures, Any, ok-Ensures, raised-Ensures, >>=-Ensures, raise_if-Ensures, push-Ensures,
}
use tensor_po_w.Script.Stack.Laws.{
  push_bool-Ensures, pop-Ensures, pop_many-Ensures, push_initial-Ensures,
}
use tensor_po_w.Script.Stack.Laws.{decode_small_int-Ensures, decode_lock-Ensures, truthy-Ensures}
use tensor_po_w.Script.Multisig.{require_distinct_multisig_keys}
use tensor_po_w.Script.Machine.{
  Context, read_push, require_widths, execute_checkmultisig, op_dup_step, op_hash256_step,
}
use tensor_po_w.Script.Machine.{
  op_checksig_step, op_checkmultisig_step, op_hashlock_step, op_checklock_step,
}
use tensor_po_w.Script.Machine.{op_verify_step, run_opcode, step, run_loop, execute}

require_widths-Ensures : (w : ℕ) (items : List Bytes) → Ensures Any (require_widths w items)
unfolding require_widths
require_widths-Ensures w [] = ok-Ensures tt
require_widths-Ensures w (item ∷ items) = raise_if-Ensures _ (require_widths-Ensures w items)

read_push-Ensures : (script : Bytes) (offset : ℕ) → Ensures Any (read_push script offset)
unfolding read_push
read_push-Ensures script offset = ground arith

distinct-Ensures : (keys : List Bytes) → Ensures Any (require_distinct_multisig_keys keys)
unfolding require_distinct_multisig_keys
distinct-Ensures keys = ground arith

module _ (p : Primitives) where
  op_dup-Ensures : (s : Stack) → IsBounded s → Ensures IsBounded (op_dup_step p s)
  unfolding op_dup_step
  op_dup-Ensures [] h = raised-Ensures
  op_dup-Ensures (item ∷ s) h = push-Ensures item (item ∷ s) h

  op_hash256-Ensures : (s : Stack) → IsBounded s → Ensures IsBounded (op_hash256_step p s)
  unfolding op_hash256_step
  op_hash256-Ensures s h =
      >>=-Ensures (pop-Ensures s h) (λ q popped. push-Ensures (hash_bytes p q.0) q.1 popped.1)

  op_checksig-Ensures :
      (c : Context) (s : Stack) → IsBounded s → Ensures IsBounded (op_checksig_step p c s)
  unfolding op_checksig_step
  op_checksig-Ensures c s h = >>=-Ensures (pop-Ensures s h) (λ q popped.
      >>=-Ensures (pop-Ensures q.1 popped.1) (λ q' popped'. push_bool-Ensures _ q'.1 popped'.1))

  checkmultisig-Ensures :
      (c : Context) (s : Stack)
      → IsBounded s
      → Ensures (λ q. IsBounded q.1) (execute_checkmultisig p c s)
  unfolding execute_checkmultisig
  checkmultisig-Ensures c s h = >>=-Ensures (pop-Ensures s h) λ q popped.
      >>=-Ensures (decode_small_int-Ensures q.0) λ count u. raise_if-Ensures _ (
        >>=-Ensures (pop_many-Ensures count [] q.1 popped.1) λ keys bounded.
          >>=-Ensures (require_widths-Ensures 32 keys.0) λ v w.
            >>=-Ensures (distinct-Ensures keys.0) λ v' w'.
              >>=-Ensures (pop-Ensures keys.1 bounded) λ q' popped'.
                >>=-Ensures (decode_small_int-Ensures q'.0) λ threshold u'. raise_if-Ensures _ (
                  >>=-Ensures (pop_many-Ensures threshold [] q'.1 popped'.1) λ sigs left.
                    >>=-Ensures (require_widths-Ensures 64 sigs.0) λ v'' w''. ok-Ensures left))

  op_checkmultisig-Ensures :
      (c : Context) (s : Stack) → IsBounded s → Ensures IsBounded (op_checkmultisig_step p c s)
  unfolding op_checkmultisig_step
  op_checkmultisig-Ensures c s h =
      >>=-Ensures (checkmultisig-Ensures c s h) (λ q bounded. push_bool-Ensures q.0 q.1 bounded)

  op_hashlock-Ensures : (s : Stack) → IsBounded s → Ensures IsBounded (op_hashlock_step p s)
  unfolding op_hashlock_step
  op_hashlock-Ensures s h = >>=-Ensures (pop-Ensures s h) λ q popped.
      >>=-Ensures (pop-Ensures q.1 popped.1)
        λ q' popped'. raise_if-Ensures _ (push_bool-Ensures _ q'.1 popped'.1)

  op_checklock-Ensures :
      (n : ℕ) (s : Stack) → IsBounded s → Ensures IsBounded (op_checklock_step p n s)
  unfolding op_checklock_step
  op_checklock-Ensures n s h = >>=-Ensures (pop-Ensures s h) λ q popped.
      >>=-Ensures (decode_lock-Ensures q.0) λ required u. push_bool-Ensures _ q.1 popped.1

  op_verify-Ensures : (s : Stack) → IsBounded s → Ensures IsBounded (op_verify_step p s)
  unfolding op_verify_step
  op_verify-Ensures s h = >>=-Ensures (pop-Ensures s h) λ q popped.
      >>=-Ensures (truthy-Ensures q.0) λ answer u. raise_if-Ensures _ (ok-Ensures popped.1)

  run_opcode-Ensures :
      (c : Context) (opcode : ℕ) (s : Stack)
      → IsBounded s
      → Ensures IsBounded (run_opcode p c opcode s)
  unfolding run_opcode
  run_opcode-Ensures c opcode s h = ground (
    arith,
    op_dup-Ensures s h,
    op_hash256-Ensures s h,
    op_checksig-Ensures c s h,
    op_checkmultisig-Ensures c s h,
    op_hashlock-Ensures s h,
    op_checklock-Ensures c.current_time_ms s h,
    op_checklock-Ensures c.current_height s h,
    op_verify-Ensures s h,
  )

  -- Where the loop's test has passed there is an opcode to read.
  step-Ensures :
      (c : Context) (script : Bytes) (offset : ℕ) (s : Stack)
      → offset < length script
      → IsBounded s
      → Ensures (λ q. IsBounded q.1) (step p c script offset s)
  unfolding step
  step-Ensures c script offset s inside h = elim (Option-cases (get_elem? script offset)) [
    | inl missing ↦ absurd (get_elem?-ne-none script offset inside missing)
    | inr (opcode, e) ↦ elim (Bool-cases (opcode == 1)) [
      | inl is_push ↦
          rw (e, step, is_push)
            (>>=-Ensures (read_push-Ensures script (offset + 1))
              λ q u. >>=-Ensures (push-Ensures q.0 s h) λ s' bounded. ok-Ensures bounded)
      | inr other ↦
          rw (e, step, other)
            (>>=-Ensures (run_opcode-Ensures c opcode s h) λ s' bounded. ok-Ensures bounded)
    ]
  ]

  -- The loop's fuel: every round counts an operation, and the count never passes 256.
  run_loop-Ensures :
      (fuel : ℕ) (c : Context) (script : Bytes) (offset op_count : ℕ) (s : Stack)
      → 257 ≤ fuel + op_count
      → op_count ≤ 256
      → IsBounded s
      → Ensures IsBounded (run_loop p fuel c script offset op_count s)
  unfolding run_loop
  run_loop-Ensures zero c script offset op_count s enough count h = absurd (omega arith)
  run_loop-Ensures (suc fuel) c script offset op_count s enough count h =
      elim (Bool-cases (ltb offset (length script))) [
        | inr ended ↦ rw ended (ok-Ensures h)
        | inl inside ↦ rw inside (elim (Bool-cases (ltb 256 (op_count + 1))) [
          | inl full ↦ rw full raised-Ensures
          | inr room ↦ rw room (
              >>=-Ensures (step-Ensures c script offset s (ltb→lt offset (length script) inside) h)
                λ q bounded.
                  run_loop-Ensures fuel c script q.0 (op_count + 1) q.1 (omega arith)
                    (omega (arith, ltb-false→le 256 (op_count + 1) room)) bounded)
        ])
      ]

  execute-Ensures :
      (c : Context) (script : Bytes) (initial : List Bytes)
      → Ensures IsBounded (execute p c script initial)
  unfolding execute
  execute-Ensures c script initial = raise_if-Ensures _ (
      >>=-Ensures (push_initial-Ensures initial [] (record { count = omega arith; sizes = tt }))
        λ s bounded. run_loop-Ensures 257 c script 0 0 s (omega arith) (omega arith) bounded)

  -- The run behind `execute_script` ends on every script and initial stack: it leaves at most 1024 items
  -- of at most 520 bytes each, or raises ScriptError and nothing else.
  pub execute_bounds :
      (c : Context) (script : Bytes) (initial : List Bytes)
      → ((s : Stack) × (execute p c script initial ≡ ok s) × IsBounded s)
        ⊎ (execute p c script initial ≡ err script_error)
  execute_bounds c script initial =
      go (execute p c script initial) (execute-Ensures c script initial)
    where
      go :
          (m : Result Stack)
          → Ensures IsBounded m
          → ((s : Stack) × (m ≡ ok s) × IsBounded s) ⊎ (m ≡ err script_error)
      go (ok s) h = inl (s, refl, h.outcome)
      go (err e) h = inr (ap err h.outcome)
