-- ===== src/State/UtxoSet/Owners.antt =====
-- The index of a set of unspent outputs by owner, as a relation of owners and outpoints.
use tensor_po_w.Base.{Bool, true, false, List, [], ◌∷◌, Option, none, some, ok, ◌≡◌, refl}
use tensor_po_w.Base.{if◌then◌else◌, Bool-cases, Option-cases, inl, inr, arith, ok-injective}
use tensor_po_w.Base.Bytes.{Bytes, beq, beq→eq}
use tensor_po_w.Base.Dict.{bytes_eq, lookup, assign, member, discard}
use tensor_po_w.Base.Dict.{lookup-cons, lookup-assign, lookup-without, member-discard}
use tensor_po_w.State.Outpoint.{Outpoint}
use tensor_po_w.State.UtxoSet.{same, same_iff, outpoint_eq, store_owner, add_owner, remove_owner}

abbrev pub Owners : Type 0
Owners = List (Bytes × List Outpoint)

abbrev pub in_set : Outpoint → Option (List Outpoint) → Bool
in_set o none = false
in_set o (some os) = member o os

-- Whether the index lists the outpoint under the owner.
unfoldable pub owner_has : Owners → Bytes → Outpoint → Bool
owner_has d w o = in_set o (lookup w d)

-- `os.add(n)`
member-add :
    (o n : Outpoint) (os : List Outpoint)
    → member o (if member n os then os else n ∷ os) ≡ (if same o n then true else member o os)
unfolding member
member-add o n os = elim (Bool-cases (same o n)) [
  | inl here ↦ elim (Bool-cases (member n os)) [
    | inl old ↦ rw (here, old, (same_iff o n).0 here) old
    | inr new ↦ rw (new, here) refl
  ]
  | inr apart ↦ rw apart (ground arith)
]

owner_has-assign :
    (d : Owners) (w v : Bytes) (o : Outpoint) (os : List Outpoint)
    → owner_has (assign w os d) v o ≡ (if beq v w then member o os else owner_has d v o)
unfolding owner_has
owner_has-assign d w v o os = rw (lookup-assign v w os d) (ground arith)

owner_has-cons :
    (d : Owners) (w v : Bytes) (o : Outpoint) (os : List Outpoint)
    → owner_has ((w, os) ∷ d) v o ≡ (if beq v w then member o os else owner_has d v o)
unfolding owner_has
owner_has-cons d w v o os = rw (lookup-cons v w os d) (ground arith)

owner_has-store_owner :
    (d : Owners) (w v : Bytes) (o : Outpoint) (os : List Outpoint)
    → owner_has (store_owner w os d) v o ≡ (if beq v w then member o os else owner_has d v o)
unfolding owner_has store_owner member
owner_has-store_owner d w v o [] = rw (lookup-without v w d) (ground arith)
owner_has-store_owner d w v o (x ∷ os) = owner_has-assign d w v o (x ∷ os)

pub owner_has-add_owner :
    (d : Owners) (w v : Bytes) (n o : Outpoint)
    → owner_has (add_owner w n d) v o
      ≡ (if beq v w then (if same o n then true else owner_has d v o) else owner_has d v o)
unfolding add_owner
owner_has-add_owner d w v n o = elim (Option-cases (lookup w d)) [
  | inl absent ↦
      rw (absent, add_owner, owner_has-cons d w v o (n ∷ []))
        (elim (Bool-cases (beq v w)) [
          | inl here ↦
              let listed : owner_has d v o ≡ false =
                unfold owner_has in rw (beq→eq v w here, absent) refl in
              rw (here, listed) (unfold member in refl)
          | inr other ↦ rw other refl
        ])
  | inr (os, found) ↦
      rw
        (
          found,
          add_owner,
          owner_has-assign d w v o (if member n os then os else n ∷ os),
          member-add o n os,
        )
        (elim (Bool-cases (beq v w)) [
          | inl here ↦
              let listed : owner_has d v o ≡ member o os =
                unfold owner_has in rw (beq→eq v w here, found) refl in
              rw (here, listed) refl
          | inr other ↦ rw other refl
        ])
]

pub owner_has-remove_owner :
    (d : Owners) (w v : Bytes) (n o : Outpoint) {d' : Owners}
    → remove_owner w n d ≡ ok d'
    → owner_has d' v o
      ≡ (if beq v w then (if same o n then false else owner_has d v o) else owner_has d v o)
unfolding remove_owner
owner_has-remove_owner d w v n o {d'} e = elim (Option-cases (lookup w d)) [
  | inl absent ↦ cc (rw (absent, remove_owner) at e)
  | inr (os, found) ↦ elim (Bool-cases (member n os)) [
    | inr missing ↦ cc (rw (found, missing, remove_owner) at e)
    | inl listed ↦
        let made : store_owner w (discard n os) d ≡ d' =
          ok-injective (rw (found, listed, remove_owner) at e) in
        rw (← made, owner_has-store_owner d w v o (discard n os))
          (elim (Bool-cases (beq v w)) [
            | inl here ↦
                let before : owner_has d v o ≡ member o os =
                  unfold owner_has in rw (beq→eq v w here, found) refl in
                rw (here, before) (member-discard o n os)
            | inr other ↦ rw other refl
          ])
  ]
]

-- A listed outpoint can be removed.
pub remove_owner-ok :
    (d : Owners) (w : Bytes) (n : Outpoint)
    → owner_has d w n ≡ true
    → (d' : Owners) × (remove_owner w n d ≡ ok d')
unfolding owner_has remove_owner
remove_owner-ok d w n h = elim (Option-cases (lookup w d)) [
  | inl absent ↦ cc (rw (absent, owner_has) at h)
  | inr (os, found) ↦
      let listed : member n os ≡ true = rw (found, owner_has) at h in
      (store_owner w (discard n os) d, rw (found, listed, remove_owner) refl)
]
