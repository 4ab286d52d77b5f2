-- ===== src/Mempool/Pool/ByShard/Removing.antt =====
-- Removal keeps the two dicts of entries of src/tensorpow/mempool/mempool.py in agreement.
use tensor_po_w.Base.{
  ℕ, none, List, [], ◌∷◌, some, if◌then◌else◌, ◌==◌, ==_iff, ◌≡◌, refl, sym, ap, ◌∙◌, inl, inr,
  Bool-cases, Option-cases, arith, eq_of_some,
}
use tensor_po_w.Base.Bytes.{Bytes, beq, beq→eq}
use tensor_po_w.Base.Dict.{nat_eq, bytes_eq, lookup, without, lookup-assign, lookup-without}
use tensor_po_w.Mempool.Pool.{Mempool, Entry}
use tensor_po_w.Mempool.Pool.ByShard.{ByShard, shard_entries}
use tensor_po_w.Mempool.Pool.Removing.{store_shard, drop_from_shard, remove_entry, remove_all}

-- The dict of one shard after its entries have been stored.
shard_entries-store :
    (s shard_id : ℕ) (es : List (Bytes × Entry)) (d : List (ℕ × List (Bytes × Entry)))
    → shard_entries s (store_shard shard_id es d)
      ≡ (if s == shard_id then es else shard_entries s d)
unfolding store_shard
shard_entries-store s shard_id [] d = rw (lookup-without s shard_id d) (ground arith)
shard_entries-store s shard_id (x ∷ xs) d = rw (lookup-assign s shard_id (x ∷ xs) d) (ground arith)

lookup-drop :
    (s shard_id : ℕ) (j id : Bytes) (d : List (ℕ × List (Bytes × Entry)))
    → lookup j (shard_entries s (drop_from_shard shard_id id d)) ≡ (
        if s == shard_id
        then (if beq j id then none else lookup j (shard_entries s d))
        else lookup j (shard_entries s d))
unfolding drop_from_shard lookup
lookup-drop s shard_id j id d = elim (Option-cases (lookup shard_id d)) [
  | inl missing ↦
      rw (missing, drop_from_shard)
        (elim (Bool-cases (s == shard_id)) [
          | inr apart ↦ rw apart refl
          | inl same ↦
              let nothing : lookup j (shard_entries s d) ≡ none =
                rw ((==_iff s shard_id).0 same, missing) refl in
              rw (same, nothing) (ground arith)
        ])
  | inr (es, present) ↦
      rw (present, drop_from_shard, shard_entries-store s shard_id (without id es) d)
        (elim (Bool-cases (s == shard_id)) [
          | inr apart ↦ rw apart refl
          | inl same ↦
              let there : shard_entries s d ≡ es = rw ((==_iff s shard_id).0 same, present) refl in
              rw (same, there) (lookup-without j id es)
        ])
]

module _ (m : Mempool) (id : Bytes) (r : Entry) (c : ByShard m)
    (present : lookup id m.entries ≡ some r) where
  drop-placed :
      (j : Bytes) (e : Entry)
      → lookup j (without id m.entries) ≡ some e
      → (e.entry_id ≡ j)
        × (lookup j (shard_entries e.shard_id (drop_from_shard r.shard_id id m.entries_by_shard))
            ≡ some e)
  drop-placed j e found =
      let found' = sym (lookup-without j id m.entries) ∙ found in
      elim (Bool-cases (beq j id)) [
        | inl here ↦ absurd (let missing = rw here at found' in cc)
        | inr other ↦
            let (its_id, old) = c.placed j e (rw other at found') in
            (
              its_id,
              lookup-drop e.shard_id r.shard_id j id m.entries_by_shard
                  ∙ rw (other, old) (ground arith),
            )
      ]

  drop-held :
      (s : ℕ) (j : Bytes) (e : Entry)
      → lookup j (shard_entries s (drop_from_shard r.shard_id id m.entries_by_shard)) ≡ some e
      → (e.shard_id ≡ s) × (lookup j (without id m.entries) ≡ some e)
  drop-held s j e found =
      let found' = sym (lookup-drop s r.shard_id j id m.entries_by_shard) ∙ found in
      elim (Bool-cases (beq j id)) [
        | inr other ↦
            let (place, old) = c.held s j e (ground (arith, rw other at found')) in
            (place, lookup-without j id m.entries ∙ rw other old)
        | inl here ↦ elim (Bool-cases (s == r.shard_id)) [
          | inl same ↦ absurd (let missing = rw (same, here) at found' in cc)
          | inr apart ↦
              let (place, old) = c.held s j e (rw apart at found') in
              let it : r ≡ e =
                eq_of_some
                  (sym present ∙ ap (λ x. lookup x m.entries) (sym (beq→eq j id here)) ∙ old) in
              let clash : s ≡ r.shard_id = sym place ∙ ap (λ x. x.shard_id) (sym it) in
              absurd (let equal = (==_iff s r.shard_id).1 clash in cc)
        ]
      ]

pub remove_entry-ByShard : (id : Bytes) (m : Mempool) → ByShard m → ByShard (remove_entry id m).1
unfolding remove_entry
remove_entry-ByShard id m c = elim (Option-cases (lookup id m.entries)) [
  | inl missing ↦ rw (missing, remove_entry) c
  | inr (r, present) ↦
      rw (present, remove_entry)
        (record { placed = drop-placed m id r c present; held = drop-held m id r c present })
]

pub remove_all-ByShard : (ids : List Bytes) (m : Mempool) → ByShard m → ByShard (remove_all ids m)
unfolding remove_all
remove_all-ByShard [] m c = c
remove_all-ByShard (id ∷ ids) m c =
    remove_all-ByShard ids (remove_entry id m).1 (remove_entry-ByShard id m c)
