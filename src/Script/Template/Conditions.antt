-- ===== src/Script/Template/Conditions.antt =====
-- When `verify_template` accepts the witness of a multisig or of a hashlock.
use tensor_po_w.Base.{
  ℕ, ◌+◌, ◌*◌, ◌≡◌, ◌≤◌, refl, sym, ap, ◌∙◌, List, ltb, ◌==◌, not, length, take, drop, slice,
}
use tensor_po_w.Base.{
  Bool, true, false, ◌↔◌, ◌⊎◌, inl, inr, Result, ok, arith, Bool-cases, >>=-eq-ok,
}
use tensor_po_w.Base.{
  not-false, if◌then◌else◌, ltb-false→le, le→ltb-false, ==_iff, and_true, ok-injective,
}
use tensor_po_w.Base.Bytes.{Bytes, beq, beq→eq, beq_refl, from_le, chunks}
use tensor_po_w.Crypto.Primitives.{Primitives}
use tensor_po_w.Crypto.Hash.{hash_bytes}
use tensor_po_w.Script.Multisig.{
  parse_multisig_payload, parse_multisig_payload-bounds, verify_ordered_multisig,
}
use tensor_po_w.Script.Multisig.Ordered.{SignedInOrder, verify_ordered_multisig_iff}
use tensor_po_w.Script.Template.{Locks, no_locks, validate_template_payload}
use tensor_po_w.Script.Template.{
  verify_multisig_template, verify_hashlock, verify_witness, try_template,
}
use tensor_po_w.Script.Template.{
  verify_with, verify_inner_template, verify_template, infer_inner_template_id,
}
use tensor_po_w.Script.Template.Spending.{Mature, accepted, complete}

-- An inner template is a key hash or a multisig.
inferred_cases :
    (payload : Bytes) {t : ℕ} → infer_inner_template_id payload ≡ ok t → (t ≡ 0) ⊎ (t ≡ 1)
unfolding infer_inner_template_id
inferred_cases payload e = elim (Bool-cases (length payload == 32)) [
  | inl short ↦ inl (ground arith)
  | inr long ↦ inr (ground arith)
]

unless_true :
    (b : Bool) {m : Result Bool}
    → (if b then ok false else m) ≡ ok true
    → (b ≡ false) × (m ≡ ok true)
unless_true true e = (cc, cc)
unless_true false e = (refl, e)

module _ (p : Primitives) where
  -- A multisig output is spent by as many signatures as it asks for.
  pub record MultisigSpend (payload witness message : Bytes) (s : ℕ) (l : Locks) : Type 0 where
    pub threshold : ℕ
    pub keys : List Bytes
    pub parsed : parse_multisig_payload payload ≡ ok (threshold, keys)
    pub size : length witness ≡ threshold * 64
    pub signed : SignedInOrder p s message (chunks 64 witness) keys
    pub sig_type : s ≡ 0
    pub locks : Mature l

  multisig_parts :
      (payload witness message : Bytes) (s : ℕ)
      → verify_multisig_template p payload witness message s ≡ ok true
      → (q : ℕ × List Bytes) × (parse_multisig_payload payload ≡ ok q)
        × ((length witness == q.0 * 64) ≡ true)
        × (verify_ordered_multisig p s message (chunks 64 witness) q.1 ≡ true)
  unfolding verify_multisig_template
  multisig_parts payload witness message s e =
      let (q, parsed, rest) = >>=-eq-ok (parse_multisig_payload payload) _ e in
      let (size, signed) = and_true _ _ (ok-injective rest) in (q, parsed, size, signed)

  multisig-forth :
      (payload witness message : Bytes) (s : ℕ) (l : Locks)
      → verify_template p 1 payload witness message s l ≡ true
      → MultisigSpend payload witness message s l
  unfolding verify_template
  multisig-forth payload witness message s l e =
      let a = accepted p (verify_inner_template p) 1 payload witness message s l e in
      let proved : verify_multisig_template p payload witness message s ≡ ok true =
        unfold verify_witness in a.proved in
      let ((threshold, keys), parsed, size, signed) =
        multisig_parts payload witness message s proved in
      record {
        threshold = threshold;
        keys = keys;
        parsed = parsed;
        size = (==_iff (length witness) (threshold * 64)).0 size;
        signed = (verify_ordered_multisig_iff p s message (chunks 64 witness) keys).0 signed;
        sig_type = a.sig_type;
        locks = a.locks;
      }

  multisig-back :
      (payload witness message : Bytes) (s : ℕ) (l : Locks)
      → MultisigSpend payload witness message s l
      → verify_template p 1 payload witness message s l ≡ true
  unfolding verify_template
  multisig-back payload witness message s l h =
      let signed =
        (verify_ordered_multisig_iff p s message (chunks 64 witness) h.keys).1 h.signed in
      let size = (==_iff (length witness) (h.threshold * 64)).1 h.size in
      complete p (verify_inner_template p) 1 payload witness message s l (record {
        shape = unfold validate_template_payload in rw h.parsed;
        size = omega (arith, h.size, parse_multisig_payload-bounds payload h.parsed);
        sig_type = h.sig_type;
        locks = h.locks;
        proved = unfold verify_witness verify_multisig_template in rw (h.parsed, size, signed);
      })

  -- `verify_template` accepts a witness for a multisig payload exactly when the payload parses, the
  -- witness is made of as many signatures as the payload asks for, these can be assigned in order
  -- to keys of the payload that verify them, the signature type is Ed25519 and every lock has been
  -- reached.
  pub verify_template_multisig_iff :
      (payload witness message : Bytes) (s : ℕ) (l : Locks)
      → (verify_template p 1 payload witness message s l ≡ true)
        ↔ MultisigSpend payload witness message s l
  verify_template_multisig_iff payload witness message s l =
      (multisig-forth payload witness message s l, multisig-back payload witness message s l)

  -- A hashlock output is spent by a preimage behind its length, and the witness of the inner
  -- template behind that.
  pub record HashlockSpend (payload witness message : Bytes) (s : ℕ) (l : Locks) : Type 0 where
    pub shape : validate_template_payload 2 payload ≡ ok tt
    pub size : length witness ≤ 2048
    pub room : 2 + from_le (take 2 witness) ≤ length witness
    pub preimage_size : from_le (take 2 witness) ≤ 520
    pub preimage : hash_bytes p (slice 2 (2 + from_le (take 2 witness)) witness) ≡ take 32 payload
    pub inner : ℕ
    pub inferred : infer_inner_template_id (drop 32 payload) ≡ ok inner
    pub inner_spent :
        verify_template p inner
          (drop 32 payload)
          (drop (2 + from_le (take 2 witness)) witness)
          message
          s
          no_locks
        ≡ true
    pub sig_type : s ≡ 0
    pub locks : Mature l

  -- The inner call is `verify_template` itself: no inner template is a hashlock.
  inner-eq :
      (inner : ℕ) (payload : Bytes)
      → infer_inner_template_id payload ≡ ok inner
      → (witness message : Bytes) (s : ℕ)
      → verify_inner_template p inner payload witness message s
        ≡ verify_template p inner payload witness message s no_locks
  unfolding verify_inner_template verify_template verify_with try_template verify_witness
  inner-eq inner payload e witness message s = elim (inferred_cases payload e) [
    | inl is_pkh ↦ rw is_pkh
    | inr is_multisig ↦ rw is_multisig
  ]

  hashlock_parts :
      (f : ℕ → Bytes → Bytes → Bytes → ℕ → Bool) (payload witness message : Bytes) (s : ℕ)
      → verify_hashlock p f payload witness message s ≡ ok true
      → let k = 2 + from_le (take 2 witness) in
        (from_le (take 2 witness) ≤ 520)
        × (k ≤ length witness)
        × (hash_bytes p (slice 2 k witness) ≡ take 32 payload)
        × ((t : ℕ) × (infer_inner_template_id (drop 32 payload) ≡ ok t)
            × (f t (drop 32 payload) (drop k witness) message s ≡ true))
  unfolding verify_hashlock
  hashlock_parts f payload witness message s e =
      let k : ℕ = 2 + from_le (take 2 witness) in
      let (long, e₁) = unless_true (ltb (length witness) 2) e in
      let (small, e₂) = unless_true (ltb 520 (from_le (take 2 witness))) e₁ in
      let (fits, e₃) = unless_true (ltb (length witness) k) e₂ in
      let (opened, e₄) =
        unless_true (not (beq (hash_bytes p (slice 2 k witness)) (take 32 payload))) e₃ in
      let (t, inferred, answer) = >>=-eq-ok (infer_inner_template_id (drop 32 payload)) _ e₄ in
      (
        ltb-false→le 520 (from_le (take 2 witness)) small,
        ltb-false→le (length witness) k fits,
        beq→eq _ _ (not-false _ opened),
        (t, inferred, ok-injective answer),
      )

  hashlock-forth :
      (payload witness message : Bytes) (s : ℕ) (l : Locks)
      → verify_template p 2 payload witness message s l ≡ true
      → HashlockSpend payload witness message s l
  unfolding verify_template
  hashlock-forth payload witness message s l e =
      let a = accepted p (verify_inner_template p) 2 payload witness message s l e in
      let proved : verify_hashlock p (verify_inner_template p) payload witness message s ≡ ok true =
        unfold verify_witness in a.proved in
      let (small, room, opened, (t, inferred, answer)) =
        hashlock_parts (verify_inner_template p) payload witness message s proved in
      record {
        shape = a.shape;
        size = a.size;
        room = room;
        preimage_size = small;
        preimage = opened;
        inner = t;
        inferred = inferred;
        inner_spent = sym (inner-eq t (drop 32 payload) inferred _ message s) ∙ answer;
        sig_type = a.sig_type;
        locks = a.locks;
      }

  hashlock-verify :
      (payload witness message : Bytes) (s : ℕ) (l : Locks)
      → HashlockSpend payload witness message s l
      → verify_hashlock p (verify_inner_template p) payload witness message s ≡ ok true
  unfolding verify_hashlock
  hashlock-verify payload witness message s l h =
      let k : ℕ = 2 + from_le (take 2 witness) in
      rw
        (
          le→ltb-false (length witness) 2 (omega (arith, h.room)),
          le→ltb-false 520 (from_le (take 2 witness)) h.preimage_size,
          le→ltb-false (length witness) k h.room,
          h.preimage,
          beq_refl (take 32 payload),
          h.inferred,
        )
        (ap ok (inner-eq h.inner (drop 32 payload) h.inferred _ message s ∙ h.inner_spent))

  hashlock-back :
      (payload witness message : Bytes) (s : ℕ) (l : Locks)
      → HashlockSpend payload witness message s l
      → verify_template p 2 payload witness message s l ≡ true
  unfolding verify_template
  hashlock-back payload witness message s l h =
      complete p (verify_inner_template p) 2 payload witness message s l (record {
        shape = h.shape;
        size = h.size;
        sig_type = h.sig_type;
        locks = h.locks;
        proved = unfold verify_witness in hashlock-verify payload witness message s l h;
      })

  -- `verify_template` accepts a witness for a hashlock payload exactly when the payload has its
  -- shape, the witness begins with the length of a preimage of at most 520 bytes and that preimage,
  -- which hashes to the first 32 bytes of the payload, and `verify_template` accepts the bytes
  -- behind it for the inner payload without locks, the signature type is Ed25519 and every lock of
  -- the output has been reached.
  pub verify_template_hashlock_iff :
      (payload witness message : Bytes) (s : ℕ) (l : Locks)
      → (verify_template p 2 payload witness message s l ≡ true)
        ↔ HashlockSpend payload witness message s l
  verify_template_hashlock_iff payload witness message s l =
      (hashlock-forth payload witness message s l, hashlock-back payload witness message s l)
