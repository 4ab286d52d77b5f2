-- ===== src/Mempool/ShardTree/Partition/Ancestors.antt =====
-- The loop over the ancestors of a leaf.
use tensor_po_w.Base.{ℕ, suc, zero, ◌+◌, ◌<◌, ◌≤◌, ◌==◌, ==_iff, ◌≡◌, refl, sym, ap, ◌∙◌, List}
use tensor_po_w.Base.{true, false, ok, value_error, arith, inl, inr, subst, Bool-cases}
use tensor_po_w.Base.{raise_if, raise_if-eq-ok, >>-eq-ok, ◌>>◌}
use tensor_po_w.Base.Dict.{nat_eq, member}
use tensor_po_w.Mempool.ShardTree.Ids.{depth_of, path_of, low_bits}
use tensor_po_w.Mempool.ShardTree.Ids.Laws.{
  IsShardId, selects, low_bits-low_bits, low_bits-lt, id_of, encode_lem, id_of_parts,
}
use tensor_po_w.Mempool.ShardTree.Tree.{check_ancestors}
use native.Mathlib.Nat.{mod-eq_of_lt}

-- The ancestor at a depth.
abbrev pub ancestor_at : ℕ → ℕ → ℕ
ancestor_at depth path = id_of depth (low_bits depth path)

check_ancestors-step :
    (n a path : ℕ) (seen : List ℕ)
    → a ≤ 16
    → check_ancestors (suc n) a path seen ≡ (
        raise_if (member (ancestor_at a path) seen) value_error
        >> check_ancestors n (suc a) path seen)
unfolding check_ancestors
check_ancestors-step n a path seen h =
    rw (encode_lem a (low_bits a path) h (low_bits-lt a path)).0 refl

pub check_ancestors-eq-ok :
    (n a path : ℕ) (seen : List ℕ)
    → a + n ≤ 16
    → check_ancestors n a path seen ≡ ok tt
    → (i : ℕ) → a ≤ i
    → i < a + n
    → member (ancestor_at i path) seen ≡ false
check_ancestors-eq-ok zero a path seen h e i low high = absurd (omega arith)
check_ancestors-eq-ok (suc n) a path seen h e i low high =
    let stepped = sym (check_ancestors-step n a path seen (omega arith)) ∙ e in
    let (absent, rest) =
      >>-eq-ok (raise_if (member (ancestor_at a path) seen) value_error) _ stepped in
    elim (Bool-cases (a == i)) [
      | inl here ↦
          subst (λ j. member (ancestor_at j path) seen ≡ false) ((==_iff a i).0 here)
            (raise_if-eq-ok _ _ absent)
      | inr apart ↦
          check_ancestors-eq-ok n (suc a) path seen (omega arith) rest i (ground arith)
            (omega arith)
    ]

pub check_ancestors-ok :
    (n a path : ℕ) (seen : List ℕ)
    → a + n ≤ 16
    → ((i : ℕ) → a ≤ i → i < a + n → member (ancestor_at i path) seen ≡ false)
    → check_ancestors n a path seen ≡ ok tt
unfolding check_ancestors
check_ancestors-ok zero a path seen h absent = refl
check_ancestors-ok (suc n) a path seen h absent =
    check_ancestors-step n a path seen (omega arith)
    ∙ rw (absent a (omega arith) (omega arith)) (
        check_ancestors-ok n (suc a) path seen (omega arith)
          (λ i low high. absent i (omega arith) (omega arith)))

-- Of two leaves that select one route, the smaller is an ancestor of the larger.
pub selects-ancestor :
    (s id r : ℕ)
    → s < id
    → selects s r ≡ true
    → selects id r ≡ true
    → (depth_of s < depth_of id) × (ancestor_at (depth_of s) (path_of id) ≡ s)
unfolding selects
selects-ancestor s id r less hs hid =
    let hs' : path_of s ≡ low_bits (depth_of s) r = (==_iff _ _).0 hs in
    let hid' : path_of id ≡ low_bits (depth_of id) r = (==_iff _ _).0 hid in
    let shallow : depth_of s ≤ depth_of id = omega arith in
    let path : low_bits (depth_of s) (path_of id) ≡ path_of s =
      rw hid' (low_bits-low_bits (depth_of s) (depth_of id) r shallow ∙ sym hs') in
    (
      elim (Bool-cases (depth_of s == depth_of id)) [
        | inr apart ↦ ground arith
        | inl level ↦
            let same = (==_iff _ _).0 level in
            let paths : path_of s ≡ path_of id = hs' ∙ ap (λ d. low_bits d r) same ∙ sym hid' in
            absurd (omega arith)
      ],
      ap (id_of (depth_of s)) path ∙ id_of_parts s,
    )

-- A leaf selects the route of its own path, and so does each of its ancestors.
pub selects_own : (id : ℕ) → IsShardId id → selects id (path_of id) ≡ true
unfolding selects
selects_own id h = (==_iff _ _).1 (sym (mod-eq_of_lt h.path_fits))

pub selects-ancestor_at : (d path : ℕ) → d ≤ 16 → selects (ancestor_at d path) path ≡ true
unfolding selects
selects-ancestor_at d path h =
    let (_, depth, own) = encode_lem d (low_bits d path) h (low_bits-lt d path) in
    rw (depth, own) ((==_iff _ _).1 refl)
