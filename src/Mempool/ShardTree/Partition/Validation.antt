-- ===== src/Mempool/ShardTree/Partition/Validation.antt =====
-- The constructor's test of a leaf set accepts exactly the partitions.
use tensor_po_w.Base.{
  ℕ, ◌+◌, ◌-◌, ◌^◌, ◌<◌, ◌≤◌, ltb, ◌==◌, ==_iff, ◌≡◌, refl, sym, ap, ◌∙◌, List, [], ◌∷◌, All,
  length,
}
use tensor_po_w.Base.{
  true, false, not, ok, value_error, arith, inl, inr, subst, Bool-cases, ◌↔◌, not-false,
}
use tensor_po_w.Base.{raise_if, raise_if-eq-ok, >>-eq-ok, >>=-eq-ok, ok-injective}
use tensor_po_w.Base.Bytes.{beq, beq→eq, beq_refl}
use tensor_po_w.Base.Dict.{nat_eq, member, no_duplicates}
use tensor_po_w.Base.Sorted.{sorted}
use tensor_po_w.Base.Sorted.Ascending.{
  Ascending, Ascending-sorted, Ascending-no_duplicates, sorted-Ascending,
}
use tensor_po_w.Base.Sums.{one_if, sum_to-full, sum_to-ext, sum_to-one}
use tensor_po_w.Mempool.ShardTree.Ids.{depth_of, path_of, low_bits, decode_shard_id}
use tensor_po_w.Mempool.ShardTree.Ids.Laws.{
  IsShardId, selects, decode-IsShardId, decode-eq-ok, low_bits-lt,
}
use tensor_po_w.Mempool.ShardTree.Tree.{check_ancestors, check_leaves, validate_leaf_partition}
use tensor_po_w.Mempool.ShardTree.Counting.{hits, coverage, sum_to-hits, hits-low_bits, hits-member}
use tensor_po_w.Mempool.ShardTree.Partition.{IsPartition}
use tensor_po_w.Mempool.ShardTree.Partition.Ancestors.{
  ancestor_at, check_ancestors-eq-ok, check_ancestors-ok,
}
use tensor_po_w.Mempool.ShardTree.Partition.Ancestors.{
  selects-ancestor, selects_own, selects-ancestor_at,
}

-- One round of the loop.
check_leaves-cons :
    (id : ℕ) (ids seen : List ℕ) (c : ℕ) {c' : ℕ}
    → check_leaves (id ∷ ids) seen c ≡ ok c'
    → IsShardId id
      × (check_ancestors (depth_of id) 0 (path_of id) seen ≡ ok tt)
      × (check_leaves ids (id ∷ seen) (c + 2 ^ (16 - depth_of id)) ≡ ok c')
unfolding check_leaves
check_leaves-cons id ids seen c e =
    let (parts, decoded, e') = >>=-eq-ok (decode_shard_id id) _ e in
    let (valid, depth, path) = decode-eq-ok id decoded in
    let e'' = rw (sym depth, sym path) at e' in
    let (checked, rest) = >>-eq-ok (check_ancestors (depth_of id) 0 (path_of id) seen) _ e'' in
    (valid, checked, rest)

check_leaves-eq-ok :
    (ids seen : List ℕ) (c : ℕ) {c' : ℕ}
    → check_leaves ids seen c ≡ ok c'
    → All IsShardId ids × (c' ≡ c + coverage ids)
unfolding check_leaves coverage
check_leaves-eq-ok [] seen c e = (tt, sym (ok-injective e) ∙ omega arith)
check_leaves-eq-ok (id ∷ ids) seen c e =
    let (valid, _, rest) = check_leaves-cons id ids seen c e in
    let (all_valid, total) = check_leaves-eq-ok ids (id ∷ seen) _ rest in
    ((valid, all_valid), omega arith)

hits_zero :
    (seen : List ℕ) (r : ℕ)
    → ((s : ℕ) → member s seen ≡ true → selects s r ≡ false)
    → hits seen r ≡ 0
unfolding hits member
hits_zero [] r h = refl
hits_zero (s ∷ ss) r h =
    rw (h s (ground arith), hits_zero ss r (λ x m. h x (ground (arith, m)))) refl

-- A leaf that passes the loop selects no route that an earlier leaf selects.
hits-seen :
    (id r : ℕ) (seen : List ℕ)
    → IsShardId id
    → check_ancestors (depth_of id) 0 (path_of id) seen ≡ ok tt
    → ((s : ℕ) → member s seen ≡ true → s < id)
    → selects id r ≡ true
    → hits seen r ≡ 0
hits-seen id r seen valid checked below chosen = hits_zero seen r (λ s m.
    elim (Bool-cases (selects s r)) [
      | inr other ↦ other
      | inl both ↦
          let (shallow, place) = selects-ancestor s id r (below s m) both chosen in
          let absent =
            check_ancestors-eq-ok (depth_of id) 0 (path_of id) seen (omega (arith, valid)) checked
              (depth_of s) (omega arith) (omega arith) in
          absurd (
            let absent' : member s seen ≡ false = subst (λ x. member x seen ≡ false) place absent in
            cc)
    ])

check_leaves-hits :
    (ids seen : List ℕ) (c : ℕ) {c' : ℕ} (r : ℕ)
    → check_leaves ids seen c ≡ ok c'
    → Ascending ids
    → ((s : ℕ) → member s seen ≡ true → All (λ y. s < y) ids)
    → hits seen r ≤ 1
    → hits ids r + hits seen r ≤ 1
unfolding hits member
check_leaves-hits [] seen c r e up below few = omega arith
check_leaves-hits (id ∷ ids) seen c r e (low, up) below few =
    let (valid, checked, rest) = check_leaves-cons id ids seen c e in
    let fresh = hits-seen id r seen valid checked (λ s m. (below s m).0) in
    let few' : one_if (selects id r) + hits seen r ≤ 1 = ground arith in
    let later =
      check_leaves-hits ids (id ∷ seen) _ r rest up
        (λ s m. elim (Bool-cases (s == id)) [
          | inl here ↦ subst (λ x. All (λ y. x < y) ids) (sym ((==_iff s id).0 here)) low
          | inr apart ↦ (below s (ground (arith, m))).1
        ])
        few' in
    omega arith

check_leaves-ok :
    (ids seen : List ℕ) (c : ℕ)
    → All IsShardId ids
    → ((r : ℕ) → hits ids r + hits seen r ≤ 1)
    → check_leaves ids seen c ≡ ok (c + coverage ids)
unfolding check_leaves coverage hits
check_leaves-ok [] seen c valid few = ap ok (omega arith)
check_leaves-ok (id ∷ ids) seen c (valid, all_valid) few =
    let own = selects_own id valid in
    let checked =
      check_ancestors-ok (depth_of id) 0 (path_of id) seen (omega (arith, valid)) (λ i _ deep.
        elim (Bool-cases (member (ancestor_at i (path_of id)) seen)) [
          | inr absent ↦ absent
          | inl present ↦
              let mine : 1 ≤ one_if (selects id (path_of id)) = rw own (omega arith) in
              let theirs =
                hits-member (ancestor_at i (path_of id)) (path_of id) seen present
                  (selects-ancestor_at i (path_of id) (omega (arith, valid))) in
              absurd (omega (arith, few (path_of id)))
        ]) in
    let rest =
      check_leaves-ok ids (id ∷ seen) (c + 2 ^ (16 - depth_of id)) all_valid
        (λ r. omega (arith, few r)) in
    rw (decode-IsShardId id valid, checked) (rest ∙ ap ok (omega arith))

covered_of :
    (ids : List ℕ)
    → All IsShardId ids
    → ((r : ℕ) → hits ids r ≤ 1)
    → coverage ids ≡ 2 ^ 16
    → (r : ℕ) → hits ids r ≡ 1
covered_of ids valid few total r =
    sym (hits-low_bits ids r valid)
    ∙ sum_to-full (2 ^ 16) (hits ids) (λ x _. few x) (sum_to-hits ids valid ∙ total) (low_bits 16 r)
        (low_bits-lt 16 r)

validate-IsPartition : (ids : List ℕ) → validate_leaf_partition ids ≡ ok tt → IsPartition ids
unfolding validate_leaf_partition hits member
validate-IsPartition ids e =
    let (_, e₁) = >>-eq-ok (raise_if (length ids == 0) value_error) _ e in
    let (same, e₂) = >>-eq-ok (raise_if (not (beq (sorted ltb ids) ids)) value_error) _ e₁ in
    let (apart, e₃) = >>-eq-ok (raise_if (not (no_duplicates ids)) value_error) _ e₂ in
    let (total, leaves, e₄) = >>=-eq-ok (check_leaves ids [] 0) _ e₃ in
    let (valid, sum) = check_leaves-eq-ok ids [] 0 leaves in
    let ordered : sorted ltb ids ≡ ids = beq→eq _ _ (not-false _ (raise_if-eq-ok _ _ same)) in
    let ascending =
      subst Ascending ordered (Ascending-sorted ids (not-false _ (raise_if-eq-ok _ _ apart))) in
    let full = raise_if-eq-ok _ _ e₄ in
    let few : (r : ℕ) → hits ids r ≤ 1 = λ r.
      let alone = check_leaves-hits ids [] 0 r leaves ascending (λ s m. cc) (omega arith) in
      omega arith in
    record {
      valid = valid;
      ascending = ascending;
      covered = covered_of ids valid few (ground arith);
    }

nonempty : (ids : List ℕ) → hits ids 0 ≡ 1 → (length ids == 0) ≡ false
unfolding hits
nonempty [] h = cc
nonempty (x ∷ xs) h = ground arith

IsPartition-validate : (ids : List ℕ) → IsPartition ids → validate_leaf_partition ids ≡ ok tt
unfolding validate_leaf_partition hits
IsPartition-validate ids h =
    let leaves = check_leaves-ok ids [] 0 h.valid (λ r. omega (arith, h.covered r)) in
    let total : coverage ids ≡ 2 ^ 16 =
      sym (sum_to-hits ids h.valid)
      ∙ sum_to-ext (2 ^ 16) (hits ids) (λ _. 1) (λ r _. h.covered r)
      ∙ sum_to-one (2 ^ 16) in
    rw
      (
        nonempty ids (h.covered 0),
        sorted-Ascending ids h.ascending,
        beq_refl ids,
        Ascending-no_duplicates ids h.ascending,
        leaves,
        total,
      )
      refl

-- The constructor accepts a leaf set exactly if it is a partition: canonical identifiers in
-- strictly ascending order, of which every route selects exactly one.
pub validate_iff : (ids : List ℕ) → (validate_leaf_partition ids ≡ ok tt) ↔ IsPartition ids
validate_iff ids = (validate-IsPartition ids, IsPartition-validate ids)
