-- ===== src/Mempool/Pool/Marks.antt =====
-- The dict of spent outpoints of src/tensorpow/mempool/mempool.py: marking the inputs of a
-- transaction and releasing them.
use tensor_po_w.Base.{
  ◌≡◌, refl, ap, ◌∙◌, Bool, true, false, List, [], ◌∷◌, Option, none, some, if◌then◌else◌,
  Bool-cases, inl, inr, arith,
}
use tensor_po_w.Base.Bytes.{Bytes, beq}
use tensor_po_w.Base.Dict.{lookup, without, assign, lookup-assign, lookup-without}
use tensor_po_w.State.Outpoint.{Outpoint}
use tensor_po_w.State.UtxoSet.{same, same_iff, outpoint_eq}
use tensor_po_w.Tx.Input.{Input}

abbrev pub Spent : Type 0
Spent = List (Outpoint × Bytes)

-- `for input_ in tx.inputs: self._spent_outpoints[input_.previous_outpoint] = tx_id`
unfoldable pub mark : Bytes → List Input → Spent → Spent
mark id [] d = d
mark id (i ∷ is) d = mark id is (assign i.previous_outpoint id d)

abbrev pub is_id : Bytes → Option Bytes → Bool
is_id id none = false
is_id id (some other) = beq other id

-- The loop of `_remove_entry` over the inputs.
unfoldable pub release : Bytes → List Input → Spent → Spent
release id [] d = d
release id (i ∷ is) d =
    release id is
      (if is_id id (lookup i.previous_outpoint d) then without i.previous_outpoint d else d)

-- Whether one of the inputs spends the outpoint.
unfoldable pub spends : Outpoint → List Input → Bool
spends o [] = false
spends o (i ∷ is) = if same o i.previous_outpoint then true else spends o is

pub lookup-mark :
    (id : Bytes) (is : List Input) (d : Spent) (o : Outpoint)
    → lookup o (mark id is d) ≡ (if spends o is then some id else lookup o d)
unfolding mark spends
lookup-mark id [] d o = refl
lookup-mark id (i ∷ is) d o =
    lookup-mark id is (assign i.previous_outpoint id d) o
    ∙ ap (λ x. if spends o is then some id else x) (lookup-assign o i.previous_outpoint id d)
    ∙ ground arith

-- One round of the release.
released : Bytes → Outpoint → Spent → Spent
released id o d = if is_id id (lookup o d) then without o d else d

lookup-released :
    (id : Bytes) (j o : Outpoint) (d : Spent)
    → lookup o (released id j d)
      ≡ (if same o j then (if is_id id (lookup o d) then none else lookup o d) else lookup o d)
unfolding released
lookup-released id j o d = elim (Bool-cases (is_id id (lookup j d))) [
  | inl mine ↦ elim (Bool-cases (same o j)) [
    | inl here ↦
        let mine' : is_id id (lookup o d) ≡ true =
          ap (λ x. is_id id (lookup x d)) ((same_iff o j).0 here) ∙ mine in
        rw (mine, here, mine') (lookup-without o j d ∙ rw here refl)
    | inr apart ↦ rw (mine, apart) (lookup-without o j d ∙ rw apart refl)
  ]
  | inr other ↦ elim (Bool-cases (same o j)) [
    | inl here ↦
        let other' : is_id id (lookup o d) ≡ false =
          ap (λ x. is_id id (lookup x d)) ((same_iff o j).0 here) ∙ other in
        rw (other, here, other') refl
    | inr apart ↦ rw (other, apart) refl
  ]
]

-- An entry that is released twice is released.
abbrev dropped : Bytes → Option Bytes → Option Bytes
dropped id v = if is_id id v then none else v

dropped-dropped : (id : Bytes) (v : Option Bytes) → dropped id (dropped id v) ≡ dropped id v
dropped-dropped id v = elim (Bool-cases (is_id id v)) [
  | inl mine ↦ rw mine refl
  | inr other ↦ rw (other, other) refl
]

twice :
    (id : Bytes) (v : Option Bytes) (a b : Bool)
    → (if b then dropped id (if a then dropped id v else v) else if a then dropped id v else v)
      ≡ (if (if a then true else b) then dropped id v else v)
twice id v true true = dropped-dropped id v
twice id v true false = refl
twice id v false b = refl

pub lookup-release :
    (id : Bytes) (is : List Input) (d : Spent) (o : Outpoint)
    → lookup o (release id is d)
      ≡ (if spends o is then (if is_id id (lookup o d) then none else lookup o d) else lookup o d)
unfolding release spends released
lookup-release id [] d o = refl
lookup-release id (i ∷ is) d o =
    lookup-release id is (released id i.previous_outpoint d) o
    ∙ rw (lookup-released id i.previous_outpoint o d)
        (twice id (lookup o d) (same o i.previous_outpoint) (spends o is))
