-- ===== src/Mempool/Pool/Selection/Division.antt =====
-- How `Mempool.select_for_fruit` of src/tensorpow/mempool/mempool.py divides the entries of a shard.
use tensor_po_w.Base.{
  ℕ, ◌+◌, ◌≤◌, ◌<◌, leb, true, false, List, [], ◌∷◌, ◌++◌, map, All, All-map, ◌≡◌, refl, ◌⊎◌, inl,
  inr, Bool-cases, arith, append_assoc,
}
use tensor_po_w.Base.{ok, le→ltb-false, ◌||◌}
use tensor_po_w.Base.Bytes.{Bytes}
use tensor_po_w.Base.Dict.{nat_eq, lookup}
use tensor_po_w.Base.Sorted.{sorted, All-sorted}
use tensor_po_w.Base.Sorted.Ranked.{Ranked, sorted-perm, sorted-Ranked}
use tensor_po_w.Mempool.ShardTree.Ids.{require_shard_id}
use tensor_po_w.Mempool.Pool.{Mempool, Entry}
use tensor_po_w.Mempool.Pool.Fees.{fee_floor, or_else}
use tensor_po_w.Mempool.Pool.Selection.{
  eligible, better, choose, chosen, entry_tx, select_for_fruit, total_size,
}
use tensor_po_w.Mempool.Pool.Selection.Greedy.{
  size_ahead, better_asymm, better-false_trans, passed, choose-perm, choose-fits, choose-All,
  choose-Ranked, choose-full,
}
use mathlib.Core.List.{Perm, perm_middle}
use mathlib.Core.List.Perm

-- An entry at or above the floor, or a coinbase.
abbrev pub IsEligible : ℕ → Entry → Type 0
IsEligible floor e = (e.is_coinbase ≡ true) ⊎ (floor ≤ e.fee_rate_matoms_per_kb)

-- An entry that the floor keeps out.
abbrev pub IsBelow : ℕ → Entry → Type 0
IsBelow floor e = (e.is_coinbase ≡ false) × (e.fee_rate_matoms_per_kb < floor)

-- The pending entries of a shard.
abbrev pub pending : Mempool → ℕ → List Entry
pending m shard_id = map (λ q. q.1) (or_else (lookup shard_id m.entries_by_shard) [])

-- A selection from the pending entries: they are divided into the selected ones, which are at or
-- above the floor, fit the budget and stand with the best first, those that do not fit beside the
-- selected ones that they are not better than, and those below the floor.
pub record IsSelection (floor budget : ℕ) (entries es : List Entry) : Type 0 where
  pub passed_over : List Entry
  pub below : List Entry
  pub divided : Perm (es ++ (passed_over ++ below)) entries
  pub fits : total_size es ≤ budget
  pub paying : All (IsEligible floor) es
  pub ranked : Ranked better es
  pub full : All (λ e. budget < size_ahead e es + e.tx_size_bytes) passed_over
  pub kept_out : All (IsBelow floor) below

-- What the floor lets pass, and the rest.
record Eligible (floor : ℕ) (d : List (Bytes × Entry)) : Type 0 where
  below : List Entry
  divided : Perm (eligible floor d ++ below) (map (λ q. q.1) d)
  paying : All (IsEligible floor) (eligible floor d)
  kept_out : All (IsBelow floor) below

eligible_lem : (floor : ℕ) (d : List (Bytes × Entry)) → Eligible floor d
unfolding eligible
eligible_lem floor [] = record { below = []; divided = Perm.rfl; paying = tt; kept_out = tt }
eligible_lem floor ((id, e) ∷ d) =
    let rest = eligible_lem floor d in
    elim (Bool-cases (e.is_coinbase || leb floor e.fee_rate_matoms_per_kb)) [
      | inl passes ↦
          let pays : IsEligible floor e = ground arith in
          record {
            below = rest.below;
            divided = rw passes (Perm.cons e rest.divided);
            paying = rw passes (pays, rest.paying);
            kept_out = rest.kept_out;
          }
      | inr fails ↦
          let low : IsBelow floor e = ground arith in
          record {
            below = e ∷ rest.below;
            divided =
                rw fails (
                  Perm.trans (perm_middle (eligible floor d) rest.below)
                    (Perm.cons e rest.divided));
            paying = rw fails rest.paying;
            kept_out = (low, rest.kept_out);
          }
    ]

chosen-IsSelection :
    (m : Mempool) (shard_id floor budget : ℕ)
    → IsSelection floor budget (pending m shard_id) (chosen m shard_id floor budget)
unfolding chosen
chosen-IsSelection m shard_id floor budget =
    let d = or_else (lookup shard_id m.entries_by_shard) [] in
    let candidates = sorted better (eligible floor d) in
    let e = eligible_lem floor d in
    let order = sorted-Ranked better better_asymm better-false_trans (eligible floor d) in
    record {
      passed_over = passed budget 0 candidates;
      below = e.below;
      divided =
          rw (← append_assoc (choose budget 0 candidates) (passed budget 0 candidates) e.below) (
            Perm.trans
              (Perm.append_right e.below (
                Perm.trans (choose-perm budget 0 candidates)
                  (sorted-perm better (eligible floor d))))
              e.divided);
      fits = omega (arith, choose-fits budget 0 candidates (omega arith));
      paying =
          choose-All (IsEligible floor) budget 0 candidates
            (All-sorted better (IsEligible floor) (eligible floor d) e.paying);
      ranked = choose-Ranked budget 0 candidates order;
      full =
          All-map (λ x l. omega arith) (passed budget 0 candidates)
            (choose-full budget 0 candidates order);
      kept_out = e.kept_out;
    }

fee_floor_valid :
    (m : Mempool) (shard_id : ℕ)
    → require_shard_id shard_id ≡ ok shard_id
    → (floor : ℕ) × (fee_floor m shard_id ≡ ok floor)
unfolding fee_floor
fee_floor_valid m shard_id valid = (or_else (lookup shard_id m.fee_floors) 0, rw valid refl)

-- For a shard id and a payload budget that the guards let pass `select_for_fruit` returns the
-- transactions of a selection from the shard's pending entries. These are divided into the selected
-- ones, those passed over, and those that are below the shard's fee floor and no coinbase. The
-- selected ones are a coinbase or pay the floor, their sizes stay within the budget, and no entry
-- stands behind a worse one; each one that is passed over would exceed the budget beside those of
-- them that it is not better than.
pub select_for_fruit_lem :
    (m : Mempool) (shard_id payload_budget : ℕ)
    → require_shard_id shard_id ≡ ok shard_id
    → payload_budget ≤ 8192
    → (floor : ℕ) × (fee_floor m shard_id ≡ ok floor)
      × (es : List Entry) × (select_for_fruit m shard_id payload_budget ≡ ok (map entry_tx es))
      × IsSelection floor payload_budget (pending m shard_id) es
unfolding select_for_fruit
select_for_fruit_lem m shard_id payload_budget valid small =
    let (floor, priced) = fee_floor_valid m shard_id valid in
    (
      floor,
      priced,
      chosen m shard_id floor payload_budget,
      rw (valid, le→ltb-false 8192 payload_budget small, priced) refl,
      chosen-IsSelection m shard_id floor payload_budget,
    )
