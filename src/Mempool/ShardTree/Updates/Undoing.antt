-- ===== src/Mempool/ShardTree/Updates/Undoing.antt =====
-- A merge undoes a split.
use tensor_po_w.Base.{
  ℕ, ◌+◌, ◌-◌, ◌/◌, ◌%◌, ◌^◌, ◌≤◌, ◌<◌, ltb, ◌==◌, ==_iff, ◌≡◌, refl, sym, ap, ◌∙◌, List,
}
use tensor_po_w.Base.{
  true, false, not, arith, inl, inr, Bool-cases, if◌then◌else◌, ok, ap₂, leb, not-false, >>-eq-ok,
  >>=-eq-ok, raise_if-eq-ok, ok-injective, value_error, raise_if,
}
use tensor_po_w.Base.Dict.{nat_eq, member}
use tensor_po_w.Base.Sorted.Ascending.{Ascending-ext}
use tensor_po_w.Mempool.ShardTree.Ids.{
  depth_of, path_of, decode_shard_id, require_shard_id, child_shard_ids, opposite,
  require_sibling_shards,
}
use tensor_po_w.Mempool.ShardTree.Ids.Laws.{
  IsShardId, decode-eq-ok, pow-next, pow-le-pow, encode_lem, decode-IsShardId,
}
use native.Mathlib.Nat.{mod-eq_of_lt, add-div_right, div-eq_of_lt, add-mod_right}
use tensor_po_w.Mempool.ShardTree.Tree.{ShardTree}
use tensor_po_w.Mempool.ShardTree.Partition.{IsPartition}
use tensor_po_w.Mempool.ShardTree.Updates.{apply_split, apply_merge}
use tensor_po_w.Mempool.ShardTree.Updates.Splitting.{
  left_of, right_of, splits, apply_split_lem, children_absent,
}
use tensor_po_w.Mempool.ShardTree.Updates.Siblings.{parent_shard_id-left_of, left_right}
use tensor_po_w.Mempool.ShardTree.Updates.Exchange.{All-member}
use tensor_po_w.Mempool.ShardTree.Updates.Merging.{apply_merge_leaves}

-- The children of a shard are siblings.
siblings_of_children :
    (p : ℕ)
    → IsShardId p
    → depth_of p < 16
    → require_sibling_shards (left_of p, right_of p) ≡ ok (left_of p, right_of p)
unfolding require_sibling_shards opposite
siblings_of_children p h shallow =
    let double = pow-next (depth_of p) in
    let fits = h.path_fits in
    let s = splits p h shallow in
    let (_, d₁, q₁) = encode_lem (depth_of p + 1) (path_of p) (omega arith) (omega arith) in
    let (_, d₂, q₂) =
      encode_lem (depth_of p + 1) (path_of p + 2 ^ depth_of p) (omega arith) (omega arith) in
    let up : depth_of p + 1 - 1 ≡ depth_of p = omega arith in
    let some_bits : 1 ≤ 2 ^ depth_of p = pow-le-pow 0 (depth_of p) (omega arith) in
    let quotient : (path_of p + 2 ^ depth_of p) / 2 ^ depth_of p ≡ 1 =
      add-div_right (path_of p) some_bits ∙ rw (div-eq_of_lt fits) (omega arith) in
    let remainder : (path_of p + 2 ^ depth_of p) % 2 ^ depth_of p ≡ path_of p =
      add-mod_right (path_of p) (2 ^ depth_of p) ∙ mod-eq_of_lt fits in
    let distinct : (left_of p == right_of p) ≡ false = let less = left_right p in ground arith in
    let ordered : ltb (right_of p) (left_of p) ≡ false = let less = left_right p in ground arith in
    let level : (depth_of p + 1 == depth_of p + 1) ≡ true = ground arith in
    let deep : (depth_of p + 1 == 0) ≡ false = ground arith in
    let same : (path_of p == path_of p) ≡ true = ground arith in
    rw
      (
        decode-IsShardId (left_of p) s.left_valid,
        decode-IsShardId (right_of p) s.right_valid,
        d₁,
        q₁,
        d₂,
        q₂,
        up,
        distinct,
        level,
        deep,
        mod-eq_of_lt fits,
        remainder,
        same,
        div-eq_of_lt fits,
        quotient,
        ordered,
      )
      refl

apply_split-eq-ok :
    (tree tree' : ShardTree) (id : ℕ)
    → apply_split tree id ≡ ok tree'
    → member id tree.leaf_shard_ids ≡ true
unfolding apply_split
apply_split-eq-ok tree tree' id made =
    let (_, _, e₁) = >>=-eq-ok (require_shard_id id) _ made in
    let (present, _) = >>-eq-ok (raise_if (not (member id tree.leaf_shard_ids)) value_error) _ e₁ in
    not-false _ (raise_if-eq-ok _ _ present)

child_shard_ids-eq-ok : (id : ℕ) {l r : ℕ} → child_shard_ids id ≡ ok (l, r) → depth_of id < 16
unfolding child_shard_ids
child_shard_ids-eq-ok id e =
    let (parts, decoded, e₁) = >>=-eq-ok (decode_shard_id id) _ e in
    let (_, depth, path) = decode-eq-ok id decoded in
    let e₂ = rw (sym depth, sym path) at e₁ in
    let (shallow, _) = >>-eq-ok (raise_if (leb 16 (depth_of id)) value_error) _ e₂ in
    ground (arith, shallow)

-- Putting the children in the place of a leaf, and then the leaf in theirs, changes no member.
there_and_back :
    (ids ids' ids'' : List ℕ) (id left right : ℕ)
    → member id ids ≡ true
    → (member left ids ≡ false) × (member right ids ≡ false)
    → ((x : ℕ)
        → member x ids' ≡ (
            if x == left
            then true
            else if x == right
            then true
            else if x == id
            then false
            else member x ids))
    → ((x : ℕ)
        → member x ids'' ≡ (
            if x == id
            then true
            else if x == right
            then false
            else if x == left
            then false
            else member x ids'))
    → (x : ℕ) → member x ids'' ≡ member x ids
there_and_back ids ids' ids'' id left right m (ml, mr) first second x =
    elim (Bool-cases (x == id)) [
      | inl here ↦ second x ∙ rw (here, (==_iff x id).0 here) (sym m)
      | inr not_id ↦ elim (Bool-cases (x == right)) [
        | inl here ↦ second x ∙ rw (not_id, here, (==_iff x right).0 here) (sym mr)
        | inr not_right ↦ elim (Bool-cases (x == left)) [
          | inl here ↦ second x ∙ rw (not_id, not_right, here, (==_iff x left).0 here) (sym ml)
          | inr not_left ↦
              let before = rw (not_left, not_right, not_id) at (first x) in
              second x ∙ rw (not_id, not_right, not_left) before
        ]
      ]
    ]

merge_after :
    (tree t : ShardTree) (id : ℕ)
    → IsPartition tree.leaf_shard_ids
    → member id tree.leaf_shard_ids ≡ true
    → IsShardId id
    → depth_of id < 16
    → IsPartition t.leaf_shard_ids
    → ((x : ℕ)
        → member x t.leaf_shard_ids ≡ (
            if x == left_of id
            then true
            else if x == right_of id
            then true
            else if x == id
            then false
            else member x tree.leaf_shard_ids))
    → apply_merge t (left_of id, right_of id) ≡ ok tree
merge_after tree t id h m valid shallow part members =
    let s = splits id valid shallow in
    let ml : member (left_of id) t.leaf_shard_ids ≡ true = members (left_of id) ∙ ground arith in
    let mr : member (right_of id) t.leaf_shard_ids ≡ true = members (right_of id) ∙ ground arith in
    let (tree', made, part', members') =
      apply_merge_leaves t.leaf_shard_ids id part ml mr valid s t (left_of id, right_of id) refl
        (siblings_of_children id valid shallow) (parent_shard_id-left_of id valid shallow) in
    let same =
      there_and_back tree.leaf_shard_ids t.leaf_shard_ids tree'.leaf_shard_ids id (left_of id)
        (right_of id) m (children_absent tree.leaf_shard_ids id h m s) members members' in
    let leaves =
      Ascending-ext tree'.leaf_shard_ids tree.leaf_shard_ids part'.ascending h.ascending same in
    made ∙ ap (λ ids. ok (record { leaf_shard_ids = ids })) leaves

-- Merging the children of a leaf that was split gives the tree from before the split.
pub apply_merge-apply_split :
    (tree tree' : ShardTree) (id left right : ℕ)
    → IsPartition tree.leaf_shard_ids
    → apply_split tree id ≡ ok tree'
    → child_shard_ids id ≡ ok (left, right)
    → apply_merge tree' (left, right) ≡ ok tree
apply_merge-apply_split tree tree' id left right h made kids =
    let m = apply_split-eq-ok tree tree' id made in
    let shallow = child_shard_ids-eq-ok id kids in
    let valid = All-member id tree.leaf_shard_ids h.valid m in
    let s = splits id valid shallow in
    let (t, made', part, members) = apply_split_lem tree id h m shallow in
    let same : t ≡ tree' = ok-injective (sym made' ∙ made) in
    let pair : ◌≡◌ {A = ℕ × ℕ} (left_of id, right_of id) (left, right) =
      ok-injective (sym s.children ∙ kids) in
    ap₂ apply_merge (sym same) (sym pair) ∙ merge_after tree t id h m valid shallow part members
