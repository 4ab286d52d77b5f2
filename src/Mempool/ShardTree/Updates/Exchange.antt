-- ===== src/Mempool/ShardTree/Updates/Exchange.antt =====
-- Leaves taken out of a partition and others put in for the routes that became free.
use tensor_po_w.Base.{ℕ, ◌+◌, ◌≤◌, ltb, ◌==◌, ==_iff, ◌≡◌, refl, List, [], ◌∷◌, All}
use tensor_po_w.Base.{true, false, arith, inl, inr, Bool-cases}
use tensor_po_w.Base.Dict.{nat_eq, member, discard, no_duplicates, member-discard}
use tensor_po_w.Base.Sorted.{sorted, All-sorted}
use tensor_po_w.Base.Sorted.Ascending.{Ascending-sorted, Ascending-no_duplicates}
use tensor_po_w.Base.Sums.{one_if}
use tensor_po_w.Mempool.ShardTree.Ids.{path_of}
use tensor_po_w.Mempool.ShardTree.Ids.Laws.{IsShardId, selects}
use tensor_po_w.Mempool.ShardTree.Counting.{hits, hits-member, hits-discard, hits-sorted}
use tensor_po_w.Mempool.ShardTree.Partition.{IsPartition}
use tensor_po_w.Mempool.ShardTree.Partition.Ancestors.{selects_own}

-- Leaves of which each route selects one, but for the routes that are free.
pub record IsPartial (ids : List ℕ) (free : ℕ → ℕ) : Type 0 where
  pub valid : All IsShardId ids
  pub apart : no_duplicates ids ≡ true
  pub covered : (r : ℕ) → hits ids r + free r ≡ 1

pub IsPartition-IsPartial : (ids : List ℕ) → IsPartition ids → IsPartial ids (λ _. 0)
IsPartition-IsPartial ids h = record {
  valid = h.valid;
  apart = Ascending-no_duplicates ids h.ascending;
  covered = λ r. omega (arith, h.covered r);
}

All-discard : (x : ℕ) (ids : List ℕ) → All IsShardId ids → All IsShardId (discard x ids)
unfolding discard
All-discard x [] h = tt
All-discard x (y ∷ ys) (hy, h) = elim (Bool-cases (x == y)) [
  | inl here ↦ rw here (All-discard x ys h)
  | inr apart ↦ rw apart (hy, All-discard x ys h)
]

no_duplicates-discard :
    (x : ℕ) (ids : List ℕ) → no_duplicates ids ≡ true → no_duplicates (discard x ids) ≡ true
unfolding discard no_duplicates
no_duplicates-discard x [] h = refl
no_duplicates-discard x (y ∷ ys) h =
    let rest = no_duplicates-discard x ys (ground arith) in
    ground (arith, rest, member-discard y x ys)

pub All-member : (x : ℕ) (ids : List ℕ) → All IsShardId ids → member x ids ≡ true → IsShardId x
unfolding member
All-member x [] h m = cc
All-member x (y ∷ ys) (hy, h) m = elim (Bool-cases (x == y)) [
  | inl here ↦ rw ((==_iff x y).0 here) hy
  | inr apart ↦ All-member x ys h (ground (arith, m))
]

-- Taking a leaf out frees the routes that it selects.
pub IsPartial-discard :
    (x : ℕ) (ids : List ℕ) (free : ℕ → ℕ)
    → member x ids ≡ true
    → IsPartial ids free
    → IsPartial (discard x ids) (λ r. free r + one_if (selects x r))
IsPartial-discard x ids free m h = record {
  valid = All-discard x ids h.valid;
  apart = no_duplicates-discard x ids h.apart;
  covered = λ r. omega (arith, h.covered r, hits-discard x r ids h.apart m);
}

-- A leaf whose own route is free is not there.
pub absent_of_free :
    (x : ℕ) (ids : List ℕ) (free : ℕ → ℕ)
    → IsPartial ids free
    → IsShardId x
    → 1 ≤ free (path_of x)
    → member x ids ≡ false
absent_of_free x ids free h valid vacant = elim (Bool-cases (member x ids)) [
  | inr absent ↦ absent
  | inl present ↦
      let taken = hits-member x (path_of x) ids present (selects_own x valid) in
      absurd (omega (arith, h.covered (path_of x)))
]

-- Putting a leaf in takes free routes.
pub IsPartial-cons :
    (x : ℕ) (ids : List ℕ) (free rest : ℕ → ℕ)
    → IsPartial ids free
    → IsShardId x
    → ((r : ℕ) → free r ≡ one_if (selects x r) + rest r)
    → IsPartial (x ∷ ids) rest
unfolding hits no_duplicates
IsPartial-cons x ids free rest h valid takes =
    let own : 1 ≤ one_if (selects x (path_of x)) = rw (selects_own x valid) (omega arith) in
    let absent = absent_of_free x ids free h valid (omega (arith, takes (path_of x))) in
    record {
      valid = (valid, h.valid);
      apart = rw (absent, h.apart) refl;
      covered = λ r. omega (arith, h.covered r, takes r);
    }

-- With no route free, the sorted leaves are a partition.
pub IsPartial-sorted : (ids : List ℕ) → IsPartial ids (λ _. 0) → IsPartition (sorted ltb ids)
IsPartial-sorted ids h = record {
  valid = All-sorted ltb IsShardId ids h.valid;
  ascending = Ascending-sorted ids h.apart;
  covered = λ r. omega (arith, h.covered r, hits-sorted ids r);
}
