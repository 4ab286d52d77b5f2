-- ===== src/Script/Template/Spending.antt =====
-- When `verify_template` accepts: locks, and the witness of each template.
use tensor_po_w.Base.{ℕ, ◌≡◌, ◌≤◌, sym, ap, ◌∙◌, ◌==◌, ◌&&◌, length, take, drop}
use tensor_po_w.Base.{
  ==_iff, and_true, ok-injective, length-drop, length-take, Bool, true, ◌↔◌, ◌⊎◌, inl, inr, ok,
  arith, Bool-cases, Result-cases, >>=-eq-ok,
}
use tensor_po_w.Base.Bytes.{Bytes, beq, beq→eq, beq_refl}
use mathlib.Core.Bool.{false≢true}
use tensor_po_w.Checks.{u64_max, require_max_len, require_max_len_lem, require_max_len-eq-ok}
use tensor_po_w.Crypto.Primitives.{Primitives}
use tensor_po_w.Crypto.Hash.{length-domain_hash, domain_hash, address}
use tensor_po_w.Crypto.Signatures.{verify_by_sig_type}
use tensor_po_w.Script.Multisig.{verify_signature_bytes}
use tensor_po_w.Script.Template.{Locks, check_locks, require_sig_type, validate_template_payload}
use tensor_po_w.Script.Template.{verify_pkh, verify_witness}
use tensor_po_w.Script.Template.{try_template, verify_with, verify_inner_template, verify_template}

-- Every lock that is set has been reached, and all four values are unsigned 64-bit integers.
pub record Mature (l : Locks) : Type 0 where
  pub time : l.locktime_ms ≡ 0 ⊎ l.locktime_ms ≤ l.current_time_ms
  pub height : l.lockheight ≡ 0 ⊎ l.lockheight ≤ l.current_height
  pub widths :
      (l.locktime_ms ≤ u64_max)
      × (l.lockheight ≤ u64_max)
      × (l.current_time_ms ≤ u64_max)
      × (l.current_height ≤ u64_max)

check_locks-Mature : (l : Locks) → check_locks l ≡ ok tt → Mature l
unfolding check_locks
check_locks-Mature l e = ground arith

Mature-check_locks : (l : Locks) → Mature l → check_locks l ≡ ok tt
unfolding check_locks
Mature-check_locks l h = ground arith

require_sig_type-eq-ok : (s : ℕ) → require_sig_type s ≡ ok tt → s ≡ 0
unfolding require_sig_type
require_sig_type-eq-ok s e = ground arith

require_sig_type_lem : (s : ℕ) → s ≡ 0 → require_sig_type s ≡ ok tt
unfolding require_sig_type
require_sig_type_lem s e = ground arith

module _ (p : Primitives) (inner : ℕ → Bytes → Bytes → Bytes → ℕ → Bool) where
  -- What stands behind an acceptance, whatever the template.
  pub record Accepted (t : ℕ) (payload witness message : Bytes) (s : ℕ) (l : Locks) : Type 0 where
    pub shape : validate_template_payload t payload ≡ ok tt
    pub size : length witness ≤ 2048
    pub sig_type : s ≡ 0
    pub locks : Mature l
    pub proved : verify_witness p inner t payload witness message s ≡ ok true

  pub accepted :
      (t : ℕ) (payload witness message : Bytes) (s : ℕ) (l : Locks)
      → verify_with p inner t payload witness message s l ≡ true
      → Accepted t payload witness message s l
  unfolding verify_with try_template
  accepted t payload witness message s l e =
      elim (Result-cases (try_template p inner t payload witness message s l)) [
        | inr (x, failed) ↦ cc (rw (failed, verify_with) at e)
        | inl (answer, tried) ↦
            let yes_answer : answer ≡ true = rw (tried, verify_with) at e in
            let (u, shape, rest) = >>=-eq-ok (validate_template_payload t payload) _ tried in
            let (u', size, rest') = >>=-eq-ok (require_max_len witness 2048) _ rest in
            let (u'', sig, rest'') = >>=-eq-ok (require_sig_type s) _ rest' in
            let (u3, locks, rest3) = >>=-eq-ok (check_locks l) _ rest'' in
            record {
              shape = shape;
              size = require_max_len-eq-ok witness 2048 size;
              sig_type = require_sig_type-eq-ok s sig;
              locks = check_locks-Mature l locks;
              proved = rest3 ∙ ap ok yes_answer;
            }
      ]

  pub complete :
      (t : ℕ) (payload witness message : Bytes) (s : ℕ) (l : Locks)
      → Accepted t payload witness message s l
      → verify_with p inner t payload witness message s l ≡ true
  unfolding verify_with try_template
  complete t payload witness message s l a = rw (
    verify_with,
    a.shape,
    require_max_len_lem witness 2048 a.size,
    require_sig_type_lem s a.sig_type,
    Mature-check_locks l a.locks,
    a.proved,
  )

-- A key-hash output is spent by a signature and the public key behind it; the only signature type
-- is Ed25519, which is 0.
pub record PkhSpend (p : Primitives) (payload witness message : Bytes) (s : ℕ) (l : Locks)
    : Type 0 where
  pub size : length witness ≡ 96
  pub owner : domain_hash p address (drop 64 witness) ≡ payload
  pub sig_type : s ≡ 0
  pub signed : verify_by_sig_type p s message (take 64 witness) (drop 64 witness) ≡ true
  pub locks : Mature l

module _ (p : Primitives) where
  -- With both widths right, the widths tests of `verify_pkh` and of its parts pass.
  verify_pkh_sized :
      (payload witness message : Bytes) (s : ℕ)
      → length witness ≡ 96
      → verify_pkh p payload witness message s
        ≡ ok (
            beq (domain_hash p address (drop 64 witness)) payload
            && verify_by_sig_type p s message (take 64 witness) (drop 64 witness))
  unfolding verify_pkh verify_signature_bytes
  verify_pkh_sized payload witness message s size =
      let public_key : length (drop 64 witness) ≡ 32 = length-drop 64 witness ∙ omega arith in
      let signature : length (take 64 witness) ≡ 64 = length-take 64 witness (omega arith) in
      rw (size, public_key, signature)

  verify_pkh-size :
      (payload witness message : Bytes) (s : ℕ)
      → verify_pkh p payload witness message s ≡ ok true
      → length witness ≡ 96
  unfolding verify_pkh
  verify_pkh-size payload witness message s e = elim (Bool-cases (length witness == 96)) [
    | inl right ↦ (==_iff (length witness) 96).0 right
    | inr wrong ↦ absurd (false≢true (ok-injective (rw (wrong, verify_pkh) at e)))
  ]

  pkh-forth :
      (payload witness message : Bytes) (s : ℕ) (l : Locks)
      → verify_template p 0 payload witness message s l ≡ true
      → PkhSpend p payload witness message s l
  unfolding verify_template
  pkh-forth payload witness message s l e =
      let a = accepted p (verify_inner_template p) 0 payload witness message s l e in
      let proved : verify_pkh p payload witness message s ≡ ok true =
        unfold verify_witness in a.proved in
      let size = verify_pkh-size payload witness message s proved in
      let (owner, signed) =
        and_true _ _
          (ok-injective (sym (verify_pkh_sized payload witness message s size) ∙ proved)) in
      record {
        size = size;
        owner = beq→eq _ payload owner;
        sig_type = a.sig_type;
        signed = signed;
        locks = a.locks;
      }

  pkh-back :
      (payload witness message : Bytes) (s : ℕ) (l : Locks)
      → PkhSpend p payload witness message s l
      → verify_template p 0 payload witness message s l ≡ true
  unfolding verify_template
  pkh-back payload witness message s l h =
      let width : length payload ≡ 32 =
        rw (← h.owner) (length-domain_hash p address (drop 64 witness)) in
      complete p (verify_inner_template p) 0 payload witness message s l (record {
        shape = unfold validate_template_payload in rw width;
        size = omega (arith, h.size);
        sig_type = h.sig_type;
        locks = h.locks;
        proved =
            unfold verify_witness in
            verify_pkh_sized payload witness message s h.size
            ∙ rw (h.owner, beq_refl payload, h.signed);
      })

  -- `verify_template` accepts a witness for a key-hash payload exactly when the witness is a
  -- signature of 64 bytes and a public key of 32 whose address hash is the payload, the signature
  -- verifies under that key, the signature type is Ed25519 and every lock has been reached.
  pub verify_template_pkh_iff :
      (payload witness message : Bytes) (s : ℕ) (l : Locks)
      → (verify_template p 0 payload witness message s l ≡ true)
        ↔ PkhSpend p payload witness message s l
  verify_template_pkh_iff payload witness message s l =
      (pkh-forth payload witness message s l, pkh-back payload witness message s l)
