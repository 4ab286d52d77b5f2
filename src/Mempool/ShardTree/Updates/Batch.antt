-- ===== src/Mempool/ShardTree/Updates/Batch.antt =====
-- A batch of operations: what is applied and what is queued.
use tensor_po_w.Base.{
  ℕ, ◌≡◌, ◌==◌, refl, sym, ap, ◌∙◌, List, [], ◌∷◌, ◌++◌, All, All-append, append_assoc, append-nil,
}
use tensor_po_w.Base.{
  true, false, Result, ok, arith, inl, inr, Bool-cases, if◌then◌else◌, ◌>>=◌, >>=-eq-ok, >>-eq-ok,
  ok-injective,
}
use tensor_po_w.Base.Dict.{nat_eq, member, no_duplicates}
use tensor_po_w.Mempool.ShardTree.Tree.{ShardTree}
use tensor_po_w.Mempool.ShardTree.Updates.{
  Operation, ShardTreeUpdate, operation_parent, apply_operation, apply_loop, apply_operations,
  require_operation_tuple,
}

-- The operations one after the other.
unfoldable pub run : ShardTree → List Operation → Result ShardTree
run tree [] = ok tree
run tree (o ∷ os) = apply_operation tree o >>= λ next. run next os

-- Their parents.
unfoldable pub parents : List Operation → Result (List ℕ)
parents [] = ok []
parents (o ∷ os) = operation_parent o >>= λ x. parents os >>= λ xs. ok (x ∷ xs)

run-append :
    (tree : ShardTree) (os : List Operation) (o : Operation) {t t' : ShardTree}
    → run tree os ≡ ok t
    → apply_operation t o ≡ ok t'
    → run tree (os ++ (o ∷ [])) ≡ ok t'
unfolding run
run-append tree [] o e e' = rw (ok-injective e, e') refl
run-append tree (x ∷ xs) o e e' =
    let (next, first, rest) = >>=-eq-ok (apply_operation tree x) _ e in
    rw first (run-append next xs o rest e')

parents-append :
    (os : List Operation) (o : Operation) {xs : List ℕ} {x : ℕ}
    → parents os ≡ ok xs
    → operation_parent o ≡ ok x
    → parents (os ++ (o ∷ [])) ≡ ok (xs ++ (x ∷ []))
unfolding parents
parents-append [] o e e' = rw (sym (ok-injective e), e') refl
parents-append (y ∷ ys) o e e' =
    let (z, first, rest) = >>=-eq-ok (operation_parent y) _ e in
    let (zs, later, made) = >>=-eq-ok (parents ys) _ rest in
    rw (first, parents-append ys o later e', sym (ok-injective made)) refl

member-append_last :
    (z x : ℕ) (xs : List ℕ) → member z (xs ++ (x ∷ [])) ≡ (if z == x then true else member z xs)
unfolding member
member-append_last z x [] = refl
member-append_last z x (y ∷ ys) = ground (arith, member-append_last z x ys)

no_duplicates-append_last :
    (x : ℕ) (xs : List ℕ)
    → member x xs ≡ false
    → no_duplicates xs ≡ true
    → no_duplicates (xs ++ (x ∷ [])) ≡ true
unfolding no_duplicates member
no_duplicates-append_last x [] m d = refl
no_duplicates-append_last x (y ∷ ys) m d =
    ground (
      arith,
      member-append_last y x ys,
      no_duplicates-append_last x ys (ground arith) (ground arith),
    )

-- An operation whose parent has been used.
abbrev pub Conflicts : List ℕ → Operation → Type 0
Conflicts used o = (x : ℕ) × (operation_parent o ≡ ok x) × (member x used ≡ true)

-- What holds of an update that began with a tree.
pub record IsBatch (tree : ShardTree) (used : List ℕ) (u : ShardTreeUpdate) : Type 0 where
  pub applied_ok : run tree u.applied ≡ ok u.tree
  pub used_parents : parents u.applied ≡ ok used
  pub used_once : no_duplicates used ≡ true
  pub queued_conflict : All (Conflicts used) u.queued

Conflicts-append :
    (used : List ℕ) (x : ℕ) (os : List Operation)
    → All (Conflicts used) os
    → All (Conflicts (used ++ (x ∷ []))) os
Conflicts-append used x [] h = tt
Conflicts-append used x (o ∷ os) ((y, e, m), h) =
    ((y, e, member-append_last y x used ∙ ground arith), Conflicts-append used x os h)

queue_step :
    (tree : ShardTree) (used : List ℕ) (u : ShardTreeUpdate) (o : Operation) (x : ℕ)
    → IsBatch tree used u
    → operation_parent o ≡ ok x
    → member x used ≡ true
    → IsBatch tree used (record u { queued = u.queued ++ (o ∷ []) })
queue_step tree used u o x b e m = record {
  applied_ok = b.applied_ok;
  used_parents = b.used_parents;
  used_once = b.used_once;
  queued_conflict = All-append (Conflicts used) u.queued (o ∷ []) b.queued_conflict ((x, e, m), tt);
}

apply_step :
    (tree : ShardTree) (used : List ℕ) (u : ShardTreeUpdate) (o : Operation) (x : ℕ)
    (next : ShardTree)
    → IsBatch tree used u
    → operation_parent o ≡ ok x
    → member x used ≡ false
    → apply_operation u.tree o ≡ ok next
    → IsBatch tree (used ++ (x ∷ [])) (record u { tree = next; applied = u.applied ++ (o ∷ []) })
apply_step tree used u o x next b e m made = record {
  applied_ok = run-append tree u.applied o b.applied_ok made;
  used_parents = parents-append u.applied o b.used_parents e;
  used_once = no_duplicates-append_last x used m b.used_once;
  queued_conflict = Conflicts-append used x u.queued b.queued_conflict;
}

apply_loop_lem :
    (tree : ShardTree) (used set : List ℕ) (u : ShardTreeUpdate) (os : List Operation)
    {u' : ShardTreeUpdate}
    → IsBatch tree used u
    → ((x : ℕ) → member x set ≡ member x used)
    → apply_loop set u os ≡ ok u'
    → (used' : List ℕ) × IsBatch tree used' u'
unfolding apply_loop member
apply_loop_lem tree used set u [] b same e = rw (sym (ok-injective e)) (used, b)
apply_loop_lem tree used set u (o ∷ os) b same e =
    let (x, parent, rest) = >>=-eq-ok (operation_parent o) _ e in
    elim (Bool-cases (member x set)) [
      | inl conflict ↦
          let rest' = rw conflict at rest in
          apply_loop_lem tree used set (record u { queued = u.queued ++ (o ∷ []) }) os
            (queue_step tree used u o x b parent (sym (same x) ∙ conflict)) same rest'
      | inr fresh ↦
          let rest' = rw fresh at rest in
          let (next, made, rest'') = >>=-eq-ok (apply_operation u.tree o) _ rest' in
          apply_loop_lem tree (used ++ (x ∷ [])) (x ∷ set)
            (record u { tree = next; applied = u.applied ++ (o ∷ []) }) os
            (apply_step tree used u o x next b parent (sym (same x) ∙ fresh) made)
            (λ z. rw (member-append_last z x used, same z) refl) rest''
    ]

-- The operations in two lists that keep their order, where `used` holds the parents that are taken:
-- an operation whose parent is free goes to the first list and takes its parent, and one whose
-- parent is taken goes to the second.
pub data Separates : List ℕ → List Operation → List Operation → List Operation → Type 0 where
  finished : (used : List ℕ) → Separates used [] [] []
  applies :
      {used : List ℕ} {os applied queued : List Operation} (o : Operation) (x : ℕ)
      → operation_parent o ≡ ok x
      → member x used ≡ false
      → Separates (x ∷ used) os applied queued
      → Separates used (o ∷ os) (o ∷ applied) queued
  queues :
      {used : List ℕ} {os applied queued : List Operation} (o : Operation) (x : ℕ)
      → operation_parent o ≡ ok x
      → member x used ≡ true
      → Separates used os applied queued
      → Separates used (o ∷ os) applied (o ∷ queued)

-- What the loop puts behind the lists of the update that it starts with.
record Continues (used : List ℕ) (u : ShardTreeUpdate) (os : List Operation) (u' : ShardTreeUpdate)
    : Type 0 where
  new_applied : List Operation
  new_queued : List Operation
  applied_eq : u'.applied ≡ u.applied ++ new_applied
  queued_eq : u'.queued ≡ u.queued ++ new_queued
  separated : Separates used os new_applied new_queued

apply_loop-Continues :
    (used : List ℕ) (u : ShardTreeUpdate) (os : List Operation) {u' : ShardTreeUpdate}
    → apply_loop used u os ≡ ok u'
    → Continues used u os u'
unfolding apply_loop
apply_loop-Continues used u [] e = record {
  new_applied = [];
  new_queued = [];
  applied_eq = ap (λ v. v.applied) (sym (ok-injective e)) ∙ sym (append-nil u.applied);
  queued_eq = ap (λ v. v.queued) (sym (ok-injective e)) ∙ sym (append-nil u.queued);
  separated = Separates.finished used;
}
apply_loop-Continues used u (o ∷ os) e =
    let (x, parent, rest) = >>=-eq-ok (operation_parent o) _ e in
    elim (Bool-cases (member x used)) [
      | inl taken ↦
          let c =
            apply_loop-Continues used (record u { queued = u.queued ++ (o ∷ []) }) os
              (rw taken at rest) in
          record {
            new_applied = c.new_applied;
            new_queued = o ∷ c.new_queued;
            applied_eq = c.applied_eq;
            queued_eq = c.queued_eq ∙ append_assoc u.queued (o ∷ []) c.new_queued;
            separated = Separates.queues o x parent taken c.separated;
          }
      | inr free ↦
          let (next, made, rest') = >>=-eq-ok (apply_operation u.tree o) _ (rw free at rest) in
          let c =
            apply_loop-Continues (x ∷ used)
              (record u { tree = next; applied = u.applied ++ (o ∷ []) }) os rest' in
          record {
            new_applied = o ∷ c.new_applied;
            new_queued = c.new_queued;
            applied_eq = c.applied_eq ∙ append_assoc u.applied (o ∷ []) c.new_applied;
            queued_eq = c.queued_eq;
            separated = Separates.applies o x parent free c.separated;
          }
    ]

-- Where `apply_operations` returns, its tree comes from running the applied operations one after the
-- other, and their parents are distinct. The applied and the queued operations are the given ones in
-- two lists that keep their order: an operation was queued if its parent is that of an operation
-- applied before it, and applied otherwise.
pub apply_operations_lem :
    (tree : ShardTree) (os : List Operation) (u : ShardTreeUpdate)
    → apply_operations tree os ≡ ok u
    → ((used : List ℕ) × IsBatch tree used u) × Separates [] os u.applied u.queued
unfolding apply_operations run parents no_duplicates
apply_operations_lem tree os u e =
    let start : ShardTreeUpdate = record { tree = tree; applied = []; queued = [] } in
    let (v, looped, e₁) = >>=-eq-ok (apply_loop [] start os) _ e in
    let (_, e₂) = >>-eq-ok (require_operation_tuple v.applied) _ e₁ in
    let (_, e₃) = >>-eq-ok (require_operation_tuple v.queued) _ e₂ in
    let batch =
      apply_loop_lem tree [] [] start os
        (record { applied_ok = refl; used_parents = refl; used_once = refl; queued_conflict = tt })
        (λ z. refl) looped in
    let c = apply_loop-Continues [] start os looped in
    rw (sym (ok-injective e₃)) (batch, rw (c.applied_eq, c.queued_eq) c.separated)
