-- ===== src/Mempool/Pool/Outcome.antt =====
-- What a call of `Mempool.add_tx` does to the mempool.
use tensor_po_w.Base.{
  ℕ, suc, ◌+◌, ltb, true, false, List, [], ◌∷◌, Option, none, some, length, ◌≡◌, refl, sym, ap, ◌∙◌,
  ◌⊎◌, inl, inr, Bool-cases, Option-cases, arith,
}
use tensor_po_w.Base.{Result, Result-cases, ◌==◌, ok, >>=-eq-ok, >>-eq-ok, ok-injective}
use tensor_po_w.Base.Bytes.{Bytes}
use tensor_po_w.Base.Dict.{nat_eq, bytes_eq, lookup, member, is_some, none_of_is_some}
use tensor_po_w.Crypto.Primitives.{Primitives}
use tensor_po_w.State.Outpoint.{Outpoint}
use tensor_po_w.State.UtxoSet.{same, same_iff, outpoint_eq}
use tensor_po_w.Tx.Input.{Input}
use tensor_po_w.Tx.Transaction.{Transaction, tx_id}
use tensor_po_w.Script.Template.{check_locks}
use tensor_po_w.Mempool.ShardTree.Tree.{route_tx}
use tensor_po_w.Mempool.Pool.{Mempool, Entry, View, AddResult, check_entry}
use tensor_po_w.Mempool.Pool.Fees.{fee_floor}
use tensor_po_w.Mempool.Pool.Spends.{
  Verdict, Assessment, passed, refused, spendable, unspendable, assess_input, assess_inputs,
  assess_spends, assess_fee, decode_canonical_tx,
}
use tensor_po_w.Mempool.Pool.Marks.{Spent, spends}
use tensor_po_w.Mempool.Pool.Adding.{
  Request, put_entry, add_tx, add_decoded, admit, check_shard, entry_of, first_of,
}
use tensor_po_w.Mempool.Pool.Consistent.{IsFresh}

module _ (p : Primitives) (view : View) (spent : Spent) (tx : Transaction) (time height : ℕ) where
  after_input :
      (index : ℕ) (seen : List Outpoint) (sum : ℕ) (i : Input) (is : List Input) {total : ℕ}
      (v : Verdict)
      → assess_input p view spent tx time height index i ≡ ok v
      → ◌≡◌ {A = Result Verdict}
          (elim v [
            | refused why ↦ ok (refused why)
            | passed amount ↦
                assess_inputs p view spent tx time height
                  (suc index)
                  (i.previous_outpoint ∷ seen)
                  (sum + amount)
                  is
          ])
          (ok (passed total))
      → (amount : ℕ) × (assess_input p view spent tx time height index i ≡ ok (passed amount))
        × (assess_inputs p view spent tx time height
              (suc index)
              (i.previous_outpoint ∷ seen)
              (sum + amount)
              is
            ≡ ok (passed total))
  after_input index seen sum i is (refused why) a e = cc
  after_input index seen sum i is (passed amount) a e = (amount, a, e)

  assess_inputs-cons :
      (index : ℕ) (seen : List Outpoint) (sum : ℕ) (i : Input) (is : List Input) {total : ℕ}
      → assess_inputs p view spent tx time height index seen sum (i ∷ is) ≡ ok (passed total)
      → (lookup i.previous_outpoint spent ≡ none)
        × (member i.previous_outpoint seen ≡ false)
        × (amount : ℕ) × (assess_input p view spent tx time height index i ≡ ok (passed amount))
        × (assess_inputs p view spent tx time height
              (suc index)
              (i.previous_outpoint ∷ seen)
              (sum + amount)
              is
            ≡ ok (passed total))
  unfolding assess_inputs
  assess_inputs-cons index seen sum i is e = elim (Bool-cases (member i.previous_outpoint seen)) [
    | inl again ↦ absurd (let refusal = rw again at e in cc)
    | inr new ↦
        let e₁ = rw new at e in
        elim (Bool-cases (is_some (lookup i.previous_outpoint spent))) [
          | inl clash ↦ absurd (let refusal = rw clash at e₁ in cc)
          | inr clear ↦
              let e₂ = rw clear at e₁ in
              let (v, assessed, rest) =
                >>=-eq-ok (assess_input p view spent tx time height index i) _ e₂ in
              let (amount, a, later) = after_input index seen sum i is v assessed rest in
              (none_of_is_some _ clear, new, amount, a, later)
        ]
  ]

  -- Inputs that pass are not spent by a pending transaction.
  assess_inputs-unspent :
      (index : ℕ) (seen : List Outpoint) (sum : ℕ) (is : List Input) {total : ℕ}
      → assess_inputs p view spent tx time height index seen sum is ≡ ok (passed total)
      → (o : Outpoint) → spends o is ≡ true
      → lookup o spent ≡ none
  unfolding spends
  assess_inputs-unspent index seen sum [] e o uses = cc
  assess_inputs-unspent index seen sum (i ∷ is) e o uses =
      let (free, _, amount, _, rest) = assess_inputs-cons index seen sum i is e in
      elim (Bool-cases (same o i.previous_outpoint)) [
        | inl here ↦ ap (λ x. lookup x spent) ((same_iff o i.previous_outpoint).0 here) ∙ free
        | inr other ↦ assess_inputs-unspent (suc index) _ _ is rest o (ground (arith, uses))
      ]

assess_fee-passed :
    (tx : Transaction) (size : ℕ) (v : Verdict) {fee rate : ℕ}
    → assess_fee tx size v ≡ ok (spendable fee rate)
    → (total : ℕ) × (v ≡ passed total)
unfolding assess_fee
assess_fee-passed tx size (refused why) e = cc
assess_fee-passed tx size (passed total) e = (total, refl)

assess_spends-unspent :
    (p : Primitives) (spent : Spent) (tx : Transaction) (size : ℕ) (view : Option View)
    (time height : ℕ) {fee rate : ℕ}
    → assess_spends p spent tx size view time height ≡ ok (spendable fee rate)
    → (o : Outpoint) → spends o tx.inputs ≡ true
    → lookup o spent ≡ none
unfolding assess_spends
assess_spends-unspent p spent tx size none time height e o uses = cc
assess_spends-unspent p spent tx size (some view) time height e o uses =
    elim (Bool-cases (length tx.inputs == 0)) [
      | inl bare ↦ absurd (let refusal = rw bare at e in cc)
      | inr some_inputs ↦
          let e₁ = rw some_inputs at e in
          elim (Result-cases (
            check_locks (record {
              locktime_ms = tx.locktime_ms;
              lockheight = tx.lockheight;
              current_time_ms = time;
              current_height = height;
            }))) [
              | inr (_, locked) ↦ absurd (let refusal = rw locked at e₁ in cc)
              | inl (_, unlocked) ↦
                  let e₂ = rw unlocked at e₁ in
                  let (v, assessed, rest) =
                    >>=-eq-ok (assess_inputs p view spent tx time height 0 [] 0 tx.inputs) _ e₂ in
                  let (total, it) = assess_fee-passed tx size v rest in
                  assess_inputs-unspent p view spent tx time height 0 [] 0 tx.inputs
                    (assessed ∙ ap ok it) o uses
            ]
    ]

-- A call of `add_tx` leaves the mempool as it is, or puts in an entry whose inputs are new.
abbrev pub Outcome : Mempool → Mempool → Type 0
Outcome m m' = (m' ≡ m) ⊎ ((e : Entry) × (m' ≡ put_entry m e) × IsFresh m e)

admit-Outcome :
    (p : Primitives) (m : Mempool) (tx : Transaction) (size routed : ℕ) (a : Assessment)
    {answer : AddResult} {m' : Mempool}
    → lookup (tx_id p tx) m.entries ≡ none
    → ((fee rate : ℕ)
        → a ≡ spendable fee rate
        → (o : Outpoint) → spends o tx.inputs ≡ true
        → lookup o m.spent_outpoints ≡ none)
    → admit p m tx size routed a ≡ ok (answer, m')
    → Outcome m m'
unfolding admit
admit-Outcome p m tx size routed (unspendable why) new free e =
    inl (sym (ap (λ x. x.1) (ok-injective e)))
admit-Outcome p m tx size routed (spendable fee rate) new free e =
    let (floor, _, e₁) = >>=-eq-ok (fee_floor m routed) _ e in
    elim (Bool-cases (ltb rate floor)) [
      | inl below ↦ let e₂ = rw below at e₁ in inl (sym (ap (λ x. x.1) (ok-injective e₂)))
      | inr above ↦
          let e₂ = rw above at e₁ in
          let n = entry_of p tx size routed fee rate in
          let (_, e₃) = >>-eq-ok (check_entry p n) _ e₂ in
          inr (n, sym (ap (λ x. x.1) (ok-injective e₃)), (new, free fee rate refl))
    ]

add_decoded-Outcome :
    (p : Primitives) (m : Mempool) (r : Request) (tx : Transaction) (raw : Bytes)
    {answer : AddResult} {m' : Mempool}
    → add_decoded p m r tx raw ≡ ok (answer, m')
    → Outcome m m'
unfolding add_decoded
add_decoded-Outcome p m r tx raw e =
    let (routed, _, e₁) = >>=-eq-ok (route_tx m.shard_tree (tx_id p tx)) _ e in
    elim (Option-cases (check_shard r.requested_shard routed (tx_id p tx))) [
      | inr (refusal, wrong) ↦
          let e₂ = rw wrong at e₁ in inl (sym (ap (λ x. x.1) (ok-injective e₂)))
      | inl right ↦
          let e₂ = rw right at e₁ in
          elim (Bool-cases (is_some (lookup (tx_id p tx) m.entries))) [
            | inl old ↦ let e₃ = rw old at e₂ in inl (sym (ap (λ x. x.1) (ok-injective e₃)))
            | inr new ↦
                let e₃ = rw new at e₂ in
                let (a, assessed, e₄) =
                  >>=-eq-ok
                    (assess_spends p m.spent_outpoints tx (length raw)
                      (first_of r.request_view m.utxo_view) r.current_time_ms r.current_height)
                    _ e₃ in
                admit-Outcome p m tx (length raw) routed a (none_of_is_some _ new)
                  (λ fee rate it.
                    assess_spends-unspent p m.spent_outpoints tx (length raw)
                      (first_of r.request_view m.utxo_view) r.current_time_ms r.current_height
                      (assessed ∙ ap ok it))
                  e₄
          ]
    ]

pub add_tx-Outcome :
    (p : Primitives) (m : Mempool) (r : Request) {answer : AddResult} {m' : Mempool}
    → add_tx p m r ≡ ok (answer, m')
    → Outcome m m'
unfolding add_tx
add_tx-Outcome p m r e = elim (Option-cases (decode_canonical_tx r.submitted)) [
  | inl bad ↦ let e₁ = rw (bad, add_tx) at e in inl (sym (ap (λ x. x.1) (ok-injective e₁)))
  | inr ((tx, raw), good) ↦ let e₁ = rw (good, add_tx) at e in add_decoded-Outcome p m r tx raw e₁
]
