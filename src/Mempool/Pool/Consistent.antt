-- ===== src/Mempool/Pool/Consistent.antt =====
-- The dict of spent outpoints of a mempool agrees with its entries.
use tensor_po_w.Base.{
  Bool, true, false, List, [], ◌∷◌, Option, none, some, if◌then◌else◌, ◌≡◌, refl, sym, ap, ◌∙◌, inl,
  inr, Bool-cases, Option-cases, arith, eq_of_some,
}
use tensor_po_w.Base.Bytes.{Bytes, beq, beq→eq}
use tensor_po_w.Base.Dict.{nat_eq, bytes_eq, lookup, without, lookup-assign, lookup-without}
use tensor_po_w.State.Outpoint.{Outpoint}
use tensor_po_w.State.UtxoSet.{outpoint_eq}
use tensor_po_w.Mempool.ShardTree.Tree.{ShardTree}
use tensor_po_w.Mempool.Pool.{Mempool, Entry, View, empty}
use tensor_po_w.Mempool.Pool.Marks.{release, spends, is_id, lookup-mark, lookup-release}
use tensor_po_w.Mempool.Pool.Adding.{put_entry}
use tensor_po_w.Mempool.Pool.Removing.{remove_entry, remove_all}

-- The dict of spent outpoints says which pending transaction spends an outpoint.
pub record Consistent (m : Mempool) : Type 0 where
  pub marked :
      (id : Bytes) (e : Entry) (o : Outpoint)
      → lookup id m.entries ≡ some e
      → spends o e.tx.inputs ≡ true
      → lookup o m.spent_outpoints ≡ some id
  pub backed :
      (id : Bytes) (o : Outpoint)
      → lookup o m.spent_outpoints ≡ some id
      → (e : Entry) × (lookup id m.entries ≡ some e) × (spends o e.tx.inputs ≡ true)

pub empty-Consistent : (tree : ShardTree) (view : Option View) → Consistent (empty tree view)
unfolding lookup
empty-Consistent tree view = record { marked = λ id e o h s. cc; backed = λ id o h. cc }

-- The inputs of the entry are new.
abbrev pub IsFresh : Mempool → Entry → Type 0
IsFresh m e =
    (lookup e.entry_id m.entries ≡ none)
    × ((o : Outpoint) → spends o e.tx.inputs ≡ true → lookup o m.spent_outpoints ≡ none)

put-marked :
    (m : Mempool) (n : Entry)
    → Consistent m
    → IsFresh m n
    → (id : Bytes) (e : Entry) (o : Outpoint) → lookup id (put_entry m n).entries ≡ some e
    → spends o e.tx.inputs ≡ true
    → lookup o (put_entry m n).spent_outpoints ≡ some id
unfolding put_entry
put-marked m n c (unknown, unspent) id e o found uses =
    let found' = sym (lookup-assign id n.entry_id n m.entries) ∙ found in
    elim (Bool-cases (beq id n.entry_id)) [
      | inl here ↦
          let it : n ≡ e = eq_of_some (rw here at found') in
          let uses' : spends o n.tx.inputs ≡ true = ap (λ x. spends o x.tx.inputs) it ∙ uses in
          lookup-mark n.entry_id n.tx.inputs m.spent_outpoints o
          ∙ rw uses' (ap some (sym (beq→eq id n.entry_id here)))
      | inr other ↦
          let old = c.marked id e o (rw other at found') uses in
          elim (Bool-cases (spends o n.tx.inputs)) [
            | inl clash ↦ let free = unspent o clash in cc
            | inr clear ↦ lookup-mark n.entry_id n.tx.inputs m.spent_outpoints o ∙ rw clear old
          ]
    ]

put-backed :
    (m : Mempool) (n : Entry)
    → Consistent m
    → IsFresh m n
    → (id : Bytes) (o : Outpoint) → lookup o (put_entry m n).spent_outpoints ≡ some id
    → (e : Entry) × (lookup id (put_entry m n).entries ≡ some e) × (spends o e.tx.inputs ≡ true)
unfolding put_entry
put-backed m n c (unknown, unspent) id o found =
    let found' = sym (lookup-mark n.entry_id n.tx.inputs m.spent_outpoints o) ∙ found in
    elim (Bool-cases (spends o n.tx.inputs)) [
      | inl mine ↦
          let it : n.entry_id ≡ id = eq_of_some (rw mine at found') in
          let self : beq id n.entry_id ≡ true = (bytes_eq.eq_iff id n.entry_id).1 (sym it) in
          (n, lookup-assign id n.entry_id n m.entries ∙ rw self refl, mine)
      | inr clear ↦
          let (e, present, uses) = c.backed id o (rw clear at found') in
          elim (Bool-cases (beq id n.entry_id)) [
            | inl here ↦
                let gone : lookup id m.entries ≡ none =
                  ap (λ x. lookup x m.entries) (beq→eq id n.entry_id here) ∙ unknown in
                cc
            | inr other ↦ (e, lookup-assign id n.entry_id n m.entries ∙ rw other present, uses)
          ]
    ]

pub put-Consistent :
    (m : Mempool) (n : Entry) → Consistent m → IsFresh m n → Consistent (put_entry m n)
put-Consistent m n c f = record { marked = put-marked m n c f; backed = put-backed m n c f }

-- What is left after the removal of the entry `r` under `gone`.
drop-marked :
    (m : Mempool) (gone : Bytes) (r : Entry)
    → Consistent m
    → (id : Bytes) (e : Entry) (o : Outpoint) → lookup id (without gone m.entries) ≡ some e
    → spends o e.tx.inputs ≡ true
    → lookup o (release gone r.tx.inputs m.spent_outpoints) ≡ some id
drop-marked m gone r c id e o found uses =
    let found' = sym (lookup-without id gone m.entries) ∙ found in
    elim (Bool-cases (beq id gone)) [
      | inl here ↦ absurd (let no_entry = rw here at found' in cc)
      | inr other ↦
          let old = c.marked id e o (rw other at found') uses in
          lookup-release gone r.tx.inputs m.spent_outpoints o ∙ rw (old, other) (ground arith)
    ]

kept :
    (b : Bool) (v : Option Bytes) (gone id : Bytes)
    → (if b then (if is_id gone v then none else v) else v) ≡ some id
    → (v ≡ some id) × (b ≡ true → beq id gone ≡ false)
kept false v gone id h = (h, λ e. cc)
kept true none gone id h = cc
kept true (some w) gone id h = elim (Bool-cases (beq w gone)) [
  | inl mine ↦ absurd (let dropped = rw mine at h in cc)
  | inr other ↦
      let same = rw other at h in (same, λ _. ap (λ x. beq x gone) (sym (eq_of_some same)) ∙ other)
]

drop-backed :
    (m : Mempool) (gone : Bytes) (r : Entry)
    → Consistent m
    → lookup gone m.entries ≡ some r
    → (id : Bytes) (o : Outpoint) → lookup o (release gone r.tx.inputs m.spent_outpoints) ≡ some id
    → (e : Entry) × (lookup id (without gone m.entries) ≡ some e) × (spends o e.tx.inputs ≡ true)
drop-backed m gone r c present id o found =
    let found' = sym (lookup-release gone r.tx.inputs m.spent_outpoints o) ∙ found in
    let (old, apart) = kept (spends o r.tx.inputs) (lookup o m.spent_outpoints) gone id found' in
    let (e, there, uses) = c.backed id o old in
    elim (Bool-cases (beq id gone)) [
      | inr other ↦ (e, lookup-without id gone m.entries ∙ rw other there, uses)
      | inl here ↦
          let it : r ≡ e =
            eq_of_some
              (sym present ∙ ap (λ x. lookup x m.entries) (sym (beq→eq id gone here)) ∙ there) in
          let uses' : spends o r.tx.inputs ≡ true = ap (λ x. spends o x.tx.inputs) it ∙ uses in
          absurd (let other = apart uses' in cc)
    ]

pub remove_entry-Consistent :
    (id : Bytes) (m : Mempool) → Consistent m → Consistent (remove_entry id m).1
unfolding remove_entry
remove_entry-Consistent id m c = elim (Option-cases (lookup id m.entries)) [
  | inl missing ↦ rw (missing, remove_entry) c
  | inr (r, present) ↦
      rw (present, remove_entry)
        (record { marked = drop-marked m id r c; backed = drop-backed m id r c present })
]

pub remove_all-Consistent :
    (ids : List Bytes) (m : Mempool) → Consistent m → Consistent (remove_all ids m)
unfolding remove_all
remove_all-Consistent [] m c = c
remove_all-Consistent (id ∷ ids) m c =
    remove_all-Consistent ids (remove_entry id m).1 (remove_entry-Consistent id m c)
