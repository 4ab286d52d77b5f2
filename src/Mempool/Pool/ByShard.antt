-- ===== src/Mempool/Pool/ByShard.antt =====
-- The dict of entries by shard of src/tensorpow/mempool/mempool.py agrees with the dict of entries;
-- how `add_tx` keeps the agreement.
pub mod Removing
pub mod Reachable
use tensor_po_w.Base.{
  ℕ, none, List, [], Option, some, if◌then◌else◌, ◌==◌, ==_iff, ◌≡◌, refl, sym, ap, ◌∙◌, inl, inr,
  Bool-cases, eq_of_some,
}
use tensor_po_w.Base.Bytes.{Bytes, beq, beq→eq}
use tensor_po_w.Base.Dict.{nat_eq, bytes_eq, lookup, eq_refl, lookup-assign}
use tensor_po_w.Mempool.ShardTree.Tree.{ShardTree}
use tensor_po_w.Mempool.Pool.{Mempool, Entry, View, empty}
use tensor_po_w.Mempool.Pool.Fees.{or_else}
use tensor_po_w.Mempool.Pool.Adding.{put_entry}
use tensor_po_w.Mempool.Pool.Consistent.{IsFresh}

-- `self._entries_by_shard.get(shard_id, {})`
abbrev pub shard_entries : ℕ → List (ℕ × List (Bytes × Entry)) → List (Bytes × Entry)
shard_entries shard_id d = or_else (lookup shard_id d) []

-- What is pending stands under its own id, also in its shard's dict, and nothing else does there.
pub record ByShard (m : Mempool) : Type 0 where
  pub placed :
      (id : Bytes) (e : Entry)
      → lookup id m.entries ≡ some e
      → (e.entry_id ≡ id) × (lookup id (shard_entries e.shard_id m.entries_by_shard) ≡ some e)
  pub held :
      (s : ℕ) (id : Bytes) (e : Entry)
      → lookup id (shard_entries s m.entries_by_shard) ≡ some e
      → (e.shard_id ≡ s) × (lookup id m.entries ≡ some e)

pub empty-ByShard : (tree : ShardTree) (view : Option View) → ByShard (empty tree view)
unfolding lookup
empty-ByShard tree view = record { placed = λ id e h. cc; held = λ s id e h. cc }

-- The entry of `id` in the shard `s` after `put_entry`.
lookup-put :
    (m : Mempool) (n : Entry) (s : ℕ) (id : Bytes)
    → lookup id (shard_entries s (put_entry m n).entries_by_shard) ≡ (
        if s == n.shard_id
        then (if beq id n.entry_id
            then some n
            else lookup id (shard_entries n.shard_id m.entries_by_shard))
        else lookup id (shard_entries s m.entries_by_shard))
unfolding put_entry
lookup-put m n s id = elim (Bool-cases (s == n.shard_id)) [
  | inl here ↦
      rw (lookup-assign s n.shard_id _ m.entries_by_shard, here)
        (lookup-assign id n.entry_id n (shard_entries n.shard_id m.entries_by_shard))
  | inr other ↦ rw (lookup-assign s n.shard_id _ m.entries_by_shard, other) refl
]

put-placed :
    (m : Mempool) (n : Entry)
    → ByShard m
    → (id : Bytes) (e : Entry) → lookup id (put_entry m n).entries ≡ some e
    → (e.entry_id ≡ id)
      × (lookup id (shard_entries e.shard_id (put_entry m n).entries_by_shard) ≡ some e)
unfolding put_entry
put-placed m n c id e found =
    let found' = sym (lookup-assign id n.entry_id n m.entries) ∙ found in
    elim (Bool-cases (beq id n.entry_id)) [
      | inl here ↦
          let it : n ≡ e = eq_of_some (rw here at found') in
          rw (← it) (
            sym (beq→eq id n.entry_id here),
            lookup-put m n n.shard_id id ∙ rw (eq_refl n.shard_id, here) refl,
          )
      | inr other ↦
          let (its_id, old) = c.placed id e (rw other at found') in
          (
            its_id,
            lookup-put m n e.shard_id id ∙ elim (Bool-cases (e.shard_id == n.shard_id)) [
              | inr apart ↦ rw apart old
              | inl same ↦
                  rw (same, other)
                    (ap (λ s. lookup id (shard_entries s m.entries_by_shard))
                        (sym ((==_iff e.shard_id n.shard_id).0 same))
                      ∙ old)
            ],
          )
    ]

put-held :
    (m : Mempool) (n : Entry)
    → ByShard m
    → IsFresh m n
    → (s : ℕ) (id : Bytes) (e : Entry)
    → lookup id (shard_entries s (put_entry m n).entries_by_shard) ≡ some e
    → (e.shard_id ≡ s) × (lookup id (put_entry m n).entries ≡ some e)
unfolding put_entry
put-held m n c (unknown, _) s id e found =
    let found' = sym (lookup-put m n s id) ∙ found in
    let kept : lookup id m.entries ≡ some e → lookup id (put_entry m n).entries ≡ some e = λ old.
      lookup-assign id n.entry_id n m.entries ∙ elim (Bool-cases (beq id n.entry_id)) [
        | inr other ↦ rw other old
        | inl here ↦
            let gone : lookup id m.entries ≡ none =
              ap (λ x. lookup x m.entries) (beq→eq id n.entry_id here) ∙ unknown in
            cc
      ] in
    elim (Bool-cases (s == n.shard_id)) [
      | inr apart ↦ let (place, old) = c.held s id e (rw apart at found') in (place, kept old)
      | inl same ↦
          let at_shard = (==_iff s n.shard_id).0 same in
          let found'' = rw same at found' in
          elim (Bool-cases (beq id n.entry_id)) [
            | inl here ↦
                let it : n ≡ e = eq_of_some (rw here at found'') in
                (
                  ap (λ x. x.shard_id) (sym it) ∙ sym at_shard,
                  lookup-assign id n.entry_id n m.entries ∙ rw here (ap some it),
                )
            | inr other ↦
                let (place, old) = c.held n.shard_id id e (rw other at found'') in
                (place ∙ sym at_shard, kept old)
          ]
    ]

pub put-ByShard : (m : Mempool) (n : Entry) → ByShard m → IsFresh m n → ByShard (put_entry m n)
put-ByShard m n c fresh = record { placed = put-placed m n c; held = put-held m n c fresh }
