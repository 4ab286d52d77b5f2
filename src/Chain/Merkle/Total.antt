-- ===== src/Chain/Merkle/Total.antt =====
-- When an ordered Merkle root of src/tensorpow/chain/merkle.py exists.
use tensor_po_w.Base.{
  ℕ, suc, zero, ◌+◌, ◌*◌, ◌/◌, ◌^◌, ◌≡◌, ◌≤◌, ◌<◌, ◌⊎◌, inl, inr, not, Bool, ◌&&◌, false, List, [],
  ◌∷◌, ◌++◌, length, All, refl, arith, ltb, Bool-cases, ltb→lt, ltb-false→le,
}
use tensor_po_w.Base.{Result, ok, err, overflow_error, >>-eq-ok}
use tensor_po_w.Base.Bytes.{Bytes, to_le, int_to_bytes_fits, int_to_bytes_overflow, distinct}
use tensor_po_w.Checks.{require_max_len, require_max_len-eq-ok, u32_max}
use tensor_po_w.Crypto.Hash.{
  Domain, domain_hash, length-domain_hash, merkle_leaf_tag, merkle_empty_tag, merkle_node_tag,
}
use tensor_po_w.Crypto.Primitives.{Primitives}
use tensor_po_w.Chain.Merkle.{
  require_items, leaf, leaves, empty_node, node, next_level, reduce, root_of, ordered_merkle_root,
}
use native.Mathlib.Nat.{pow-suc}

abbrev IsHash : Bytes → Type 0
IsHash h = length h ≡ 32

-- The call returns a hash.
abbrev Hashed : Result Bytes → Type 0
Hashed m = (h : Bytes) × (m ≡ ok h) × IsHash h

-- The call returns as many hashes.
abbrev HashedAll : Result (List Bytes) → ℕ → Type 0
HashedAll m n = (hs : List Bytes) × (m ≡ ok hs) × (length hs ≡ n) × All IsHash hs

item_parts :
    (item : Bytes) (items : List Bytes)
    → require_items (item ∷ items) ≡ ok tt
    → (length item ≤ u32_max) × (require_items items ≡ ok tt)
unfolding require_items
item_parts item items e =
    let (small, rest) = >>-eq-ok (require_max_len item u32_max) _ e in
    (require_max_len-eq-ok item u32_max small, rest)

module _ (p : Primitives) (domain : Domain) where
  leaf-Hashed :
      (i : ℕ) (item : Bytes) → i < 256 ^ 4 → length item ≤ u32_max → Hashed (leaf p domain i item)
  unfolding leaf
  leaf-Hashed i item hi hn = (
    domain_hash p domain (merkle_leaf_tag ∷ (to_le 4 i ++ (to_le 4 (length item) ++ item))),
    rw (leaf, int_to_bytes_fits 4 i hi, int_to_bytes_fits 4 (length item) (omega arith)) refl,
    length-domain_hash p domain _,
  )

  leaf_overflow : (i : ℕ) (item : Bytes) → 256 ^ 4 ≤ i → leaf p domain i item ≡ err overflow_error
  unfolding leaf
  leaf_overflow i item h = rw (leaf, int_to_bytes_overflow 4 i h) refl

  leaves-HashedAll :
      (i : ℕ) (items : List Bytes)
      → require_items items ≡ ok tt
      → i + length items ≤ 256 ^ 4
      → HashedAll (leaves p domain i items) (length items)
  unfolding leaves
  leaves-HashedAll i [] e h = ([], refl, refl, tt)
  leaves-HashedAll i (item ∷ items) e h =
      let (small, rest) = item_parts item items e in
      let (first, made, width) = leaf-Hashed i item (omega arith) small in
      let (others, made', count, widths) = leaves-HashedAll (suc i) items rest (omega arith) in
      (first ∷ others, rw (made, made') refl, omega (arith, count), (width, widths))

  -- The item at the index 2 ^ 32 stops the loop.
  leaves_overflow :
      (i : ℕ) (items : List Bytes)
      → require_items items ≡ ok tt
      → i ≤ 256 ^ 4
      → 256 ^ 4 < i + length items
      → leaves p domain i items ≡ err overflow_error
  unfolding leaves
  leaves_overflow i [] e h k = absurd (omega arith)
  leaves_overflow i (item ∷ items) e h k =
      let (small, rest) = item_parts item items e in
      elim (Bool-cases (ltb i (256 ^ 4))) [
        | inl fits ↦
            let (first, made, width) = leaf-Hashed i item (ltb→lt i (256 ^ 4) fits) small in
            rw (made, leaves_overflow (suc i) items rest (ground arith) (omega arith)) refl
        | inr over ↦ rw (leaf_overflow i item (ltb-false→le i (256 ^ 4) over)) refl
      ]

  empty_node-Hashed : (n i : ℕ) → n < 256 ^ 2 → i < 256 ^ 4 → Hashed (empty_node p domain n i)
  unfolding empty_node
  empty_node-Hashed n i hn hi = (
    domain_hash p domain (merkle_empty_tag ∷ (to_le 2 n ++ to_le 4 i)),
    rw (empty_node, int_to_bytes_fits 2 n hn, int_to_bytes_fits 4 i hi) refl,
    length-domain_hash p domain _,
  )

  node-Hashed :
      (n i : ℕ) (left right : Bytes)
      → n < 256 ^ 2
      → i < 256 ^ 4
      → Hashed (node p domain n i left right)
  unfolding node
  node-Hashed n i left right hn hi = (
    domain_hash p domain (merkle_node_tag ∷ (to_le 2 n ++ (to_le 4 i ++ (left ++ right)))),
    rw (node, int_to_bytes_fits 2 n hn, int_to_bytes_fits 4 i hi) refl,
    length-domain_hash p domain _,
  )

  next_level-HashedAll :
      (n i : ℕ) (level : List Bytes)
      → n < 256 ^ 2
      → i + (length level + 1) / 2 ≤ 256 ^ 4
      → HashedAll (next_level p domain n i level) ((length level + 1) / 2)
  unfolding next_level
  next_level-HashedAll n i [] hn hi = ([], refl, refl, tt)
  next_level-HashedAll n i (left ∷ []) hn hi =
      let (right, made, _) = empty_node-Hashed n i hn (omega arith) in
      let (parent, made', width) = node-Hashed n i left right hn (omega arith) in
      (parent ∷ [], rw (made, made') refl, refl, (width, tt))
  next_level-HashedAll n i (left ∷ right ∷ level) hn hi =
      let (parent, made, width) = node-Hashed n i left right hn (omega arith) in
      let (parents, made', count, widths) = next_level-HashedAll n (suc i) level hn (omega arith) in
      (parent ∷ parents, rw (made, made') refl, omega (arith, count), (width, widths))

  -- A level of at most 2 ^ k nodes takes at most `k` rounds, and no more than it is long: the loop
  -- ends, and its level numbers fit two bytes.
  reduce-Hashed :
      (fuel k n : ℕ) (level : List Bytes)
      → 1 ≤ length level
      → length level ≤ suc fuel
      → length level ≤ 256 ^ 4
      → length level ≤ 2 ^ k
      → n + k < 256 ^ 2
      → All IsHash level
      → Hashed (reduce p domain fuel n level)
  unfolding reduce
  reduce-Hashed fuel k n [] l f w b d h = absurd (omega arith)
  reduce-Hashed fuel k n (root ∷ []) l f w b d (h, _) = (root, refl, h)
  reduce-Hashed zero k n (left ∷ right ∷ level) l f w b d h = absurd (omega arith)
  reduce-Hashed (suc fuel) zero n (left ∷ right ∷ level) l f w b d h = absurd (omega arith)
  reduce-Hashed (suc fuel) (suc k) n (left ∷ right ∷ level) l f w b d h =
      let bound : length (left ∷ right ∷ level) ≤ 2 ^ k * 2 = rw pow-suc at b in
      let (parents, made, count, widths) =
        next_level-HashedAll n 0 (left ∷ right ∷ level) (omega arith) (omega arith) in
      let (root, rooted, width) =
        reduce-Hashed fuel k (suc n) parents (omega (arith, count)) (omega (arith, count))
          (omega (arith, count)) (omega (arith, count)) (omega arith) widths in
      (root, rw (made, rooted) refl, width)

  -- Items that the guards let pass have a root of 32 bytes if there are at most 2 ^ 32 of them, and
  -- otherwise the call raises OverflowError. The guards let pass items below 2 ^ 32 bytes, which with
  -- `reject_duplicates` have to be distinct. The loop over the levels ends.
  pub ordered_merkle_root-total :
      (items : List Bytes) (reject_duplicates : Bool)
      → require_items items ≡ ok tt
      → (reject_duplicates && not (distinct items)) ≡ false
      → ((length items ≤ 2 ^ 32)
          × ((root : Bytes) × (ordered_merkle_root p domain items reject_duplicates ≡ ok root)
              × (length root ≡ 32)))
        ⊎ ((2 ^ 32 < length items)
            × (ordered_merkle_root p domain items reject_duplicates ≡ err overflow_error))
  unfolding ordered_merkle_root root_of
  ordered_merkle_root-total [] reject_duplicates e d = inl (
    omega arith,
    (
      domain_hash p domain (merkle_empty_tag ∷ to_le 4 0),
      rw (e, d) refl,
      length-domain_hash p domain _,
    ),
  )
  ordered_merkle_root-total (item ∷ items) reject_duplicates e d =
      elim (Bool-cases (ltb (2 ^ 32) (length (item ∷ items)))) [
        | inl over ↦
            let many = ltb→lt (2 ^ 32) (length (item ∷ items)) over in
            inr
              (many, rw (e, d, leaves_overflow 0 (item ∷ items) e (omega arith) (omega arith)) refl)
        | inr fits ↦
            let few = ltb-false→le (2 ^ 32) (length (item ∷ items)) fits in
            let (level, made, count, widths) = leaves-HashedAll 0 (item ∷ items) e (omega arith) in
            let (root, rooted, width) =
              reduce-Hashed (suc (length items)) 32 0 level (omega (arith, count))
                (omega (arith, count)) (omega (arith, count)) (omega (arith, count)) (omega arith)
                widths in
            inl (few, (root, rw (e, d, made, rooted) refl, width))
      ]
