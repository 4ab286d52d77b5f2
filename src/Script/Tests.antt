-- ===== src/Script/Tests.antt =====
-- Runs of the stack machine and of the templates, and their theorems at concrete inputs.
use tensor_po_w.Base.{
  ◌≡◌, ◌⊎◌, ◌≤◌, ◌↔◌, ◌++◌, [], ◌∷◌, List, length, map, concat, ok, err, true, replicate, arith,
  script_error,
}
use tensor_po_w.Base.Bytes.{Bytes, to_le}
use tensor_po_w.Crypto.Hash.{hash_bytes, domain_hash, address}
use tensor_po_w.Crypto.Toy.{toy}
use tensor_po_w.Script.Stack.{Stack}
use tensor_po_w.Script.Stack.Laws.{IsBounded}
use tensor_po_w.Script.Multisig.{verify_ordered_multisig}
use tensor_po_w.Script.Multisig.Ordered.{SignedInOrder, verify_ordered_multisig_iff}
use tensor_po_w.Script.Machine.{Context, execute, execute_script}
use tensor_po_w.Script.Machine.Bounds.{execute_bounds}
use tensor_po_w.Script.Machine.Pushes.{pushed, execute_script-pushes}
use tensor_po_w.Script.Template.{no_locks, validate_template_payload, verify_template}
use tensor_po_w.Script.Template.Payloads.{require-iff-validate}
use tensor_po_w.Script.Template.Spending.{PkhSpend, verify_template_pkh_iff}
use tensor_po_w.Script.Template.Conditions.{MultisigSpend, verify_template_multisig_iff}
use tensor_po_w.Script.Template.Conditions.{HashlockSpend, verify_template_hashlock_iff}
use tensor_po_w.Tx.Payload.{require_template_payload}

abbrev context : Context
context = record { message = 5 ∷ []; sig_type = 0; current_time_ms = 0; current_height = 0 }

-- OP_DUP on an initial item, then OP_VERIFY.
abbrev dup_verify : Bytes
dup_verify = 0x76 ∷ 0x69 ∷ []

execute_bounds_example :
    ((s : Stack) × (execute toy context dup_verify ((1 ∷ []) ∷ []) ≡ ok s) × IsBounded s)
    ⊎ (execute toy context dup_verify ((1 ∷ []) ∷ []) ≡ err script_error)
execute_bounds_example = execute_bounds toy context dup_verify ((1 ∷ []) ∷ [])

abbrev two_items : List Bytes
two_items = (1 ∷ 2 ∷ []) ∷ (3 ∷ []) ∷ []

two_pushes-size : length (concat (map pushed two_items)) ≤ 1024
unfolding to_le
two_pushes-size = omega arith

execute_script-pushes_example :
    execute_script toy context (concat (map pushed two_items)) [] ≡ ok two_items
execute_script-pushes_example =
    execute_script-pushes toy context two_items (omega arith, (omega arith, tt)) (omega arith)
      two_pushes-size

-- The signature of the message `5 ∷ []`, and two keys.
abbrev signature : Bytes
signature = replicate 64 15

abbrev keys : List Bytes
keys = replicate 32 1 ∷ replicate 32 2 ∷ []

verify_ordered_multisig_iff_example :
    (verify_ordered_multisig toy 0 (5 ∷ []) (signature ∷ []) keys ≡ true)
    ↔ SignedInOrder toy 0 (5 ∷ []) (signature ∷ []) keys
verify_ordered_multisig_iff_example =
    verify_ordered_multisig_iff toy 0 (5 ∷ []) (signature ∷ []) keys

-- One of two keys.
abbrev multisig_payload : Bytes
multisig_payload = 1 ∷ 2 ∷ concat keys

require-iff-validate_example :
    (require_template_payload 1 multisig_payload ≡ ok tt)
    ↔ (validate_template_payload 1 multisig_payload ≡ ok tt)
require-iff-validate_example = require-iff-validate 1 multisig_payload

abbrev owner : Bytes
owner = domain_hash toy address (replicate 32 1)

verify_template_pkh_iff_example :
    (verify_template toy 0 owner (signature ++ replicate 32 1) (5 ∷ []) 0 no_locks ≡ true)
    ↔ PkhSpend toy owner (signature ++ replicate 32 1) (5 ∷ []) 0 no_locks
verify_template_pkh_iff_example =
    verify_template_pkh_iff toy owner (signature ++ replicate 32 1) (5 ∷ []) 0 no_locks

verify_template_multisig_iff_example :
    (verify_template toy 1 multisig_payload signature (5 ∷ []) 0 no_locks ≡ true)
    ↔ MultisigSpend toy multisig_payload signature (5 ∷ []) 0 no_locks
verify_template_multisig_iff_example =
    verify_template_multisig_iff toy multisig_payload signature (5 ∷ []) 0 no_locks

-- The preimage is one byte.
abbrev hashlock_payload : Bytes
hashlock_payload = hash_bytes toy (7 ∷ []) ++ multisig_payload

abbrev hashlock_witness : Bytes
hashlock_witness = 1 ∷ 0 ∷ 7 ∷ signature

verify_template_hashlock_iff_example :
    (verify_template toy 2 hashlock_payload hashlock_witness (5 ∷ []) 0 no_locks ≡ true)
    ↔ HashlockSpend toy hashlock_payload hashlock_witness (5 ∷ []) 0 no_locks
verify_template_hashlock_iff_example =
    verify_template_hashlock_iff toy hashlock_payload hashlock_witness (5 ∷ []) 0 no_locks
