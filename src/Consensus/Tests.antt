-- ===== src/Consensus/Tests.antt =====
-- The theorems on finality, targets, issuance and rewards at concrete inputs.
use tensor_po_w.Base.{
  ℕ, suc, ◌+◌, ◌*◌, ◌≡◌, ◌≤◌, ◌↔◌, refl, [], ◌∷◌, List, length, ok, some, true, replicate, arith,
}
use tensor_po_w.Base.{All}
use tensor_po_w.Base.Sorted.{blt, sorted, insert}
use tensor_po_w.Base.Bytes.{Bytes, from_le, beq, contains, IsBytes}
use tensor_po_w.State.Limits.{max_supply_matoms}
use tensor_po_w.Consensus.Finality.{finality_tier_from_depths, satisfied_finality_tiers, has, rank}
use tensor_po_w.Consensus.Finality.{anchor_depth, settlement, finality_tier-strongest}
use tensor_po_w.Consensus.Finality.{finality_tier-settled_iff}
use tensor_po_w.Consensus.Targets.{fruit_target_le, anchor_initial_target_le, anchor_work_weight}
use tensor_po_w.Consensus.Targets.{target_to_int, require_target, min_target, max_target}
use tensor_po_w.Consensus.Issuance.{
  interval_subsidy_matoms, require_positive_int, uncapped, epoch_pool,
}
use tensor_po_w.Consensus.Issuance.{halving_interval_anchors}
use tensor_po_w.Consensus.Issuance.Schedule.{mint, pools, mint-epoch, mint-schedule}
use tensor_po_w.Consensus.Rewards.{reward_pools, fruit_subsidy_assignments, split_by_weight}
use tensor_po_w.Consensus.Rewards.{before, assign, check_keys}
use tensor_po_w.Consensus.Rewards.Conservation.{total, assignments-sum}
use tensor_po_w.Consensus.Daa.{AnchorRecord, validate_parent_chain, validate_links, check_link}
use tensor_po_w.Consensus.Daa.{normalize_history, next_anchor_target, target_from, recent_intervals}
use tensor_po_w.Consensus.Daa.{intervals, clamp_interval}
use tensor_po_w.Consensus.Daa.Bounds.{HasTarget, IsNext, last_target, initial-IsTarget}
use tensor_po_w.Consensus.Daa.Bounds.{next_anchor_target-IsNext}
use tensor_po_w.Consensus.Daa.Steady.{next_anchor_target-steady}

finality_tier-strongest_example :
    (has (finality_tier_from_depths 25 3 true) (satisfied_finality_tiers 25 3 true) ≡ true)
    × All
        (λ t. rank t ≤ rank (finality_tier_from_depths 25 3 true))
        (satisfied_finality_tiers 25 3 true)
finality_tier-strongest_example = finality_tier-strongest 25 3 true

depth-six : anchor_depth (some 10) 15 ≡ ok 6
unfolding anchor_depth
depth-six = refl

finality_tier-settled_iff_example :
    (finality_tier_from_depths 120 6 true ≡ settlement) ↔ ((100 ≤ 120) × (10 + 5 ≤ 15))
finality_tier-settled_iff_example = finality_tier-settled_iff 120 10 15 depth-six

first_subsidy : interval_subsidy_matoms 1 0 ≡ ok 499429224
unfolding interval_subsidy_matoms require_positive_int uncapped epoch_pool
first_subsidy = refl

epoch_one-fits : 1_050_000_000_000_000 + epoch_pool 1 ≤ max_supply_matoms
unfolding epoch_pool
epoch_one-fits = omega arith

mint-epoch_example :
    mint (suc (1 * halving_interval_anchors)) halving_interval_anchors 1_050_000_000_000_000
    ≡ ok (1_050_000_000_000_000 + epoch_pool 1)
mint-epoch_example = mint-epoch 1 1_050_000_000_000_000 (omega arith) epoch_one-fits

mint-schedule_example :
    (mint 1 (3 * halving_interval_anchors) 0 ≡ ok (pools 3)) × (pools 3 ≤ max_supply_matoms)
mint-schedule_example = mint-schedule 3 (omega arith)

abbrev two_fruits : List (Bytes × Bytes)
two_fruits = (replicate 32 1, replicate 32 9) ∷ (replicate 32 2, replicate 32 8) ∷ []

two_pools : reward_pools 2 1000 fruit_target_le ≡ ok (666, 334)
unfolding reward_pools split_by_weight anchor_work_weight target_to_int require_target min_target
    max_target from_le
two_pools = refl

-- The keys decide the order of the fruits.
two_assignments :
    fruit_subsidy_assignments two_fruits 1001 fruit_target_le
    ≡ ok ((replicate 32 2, 334) ∷ (replicate 32 1, 333) ∷ [])
unfolding fruit_subsidy_assignments check_keys reward_pools split_by_weight anchor_work_weight
    target_to_int require_target min_target max_target from_le sorted insert before blt beq assign
two_assignments = refl

assignments-sum_example :
    (f : ℕ) × (a : ℕ) × (reward_pools (length two_fruits) 1001 fruit_target_le ≡ ok (f, a))
    × (total ((replicate 32 2, 334) ∷ (replicate 32 1, 333) ∷ []) ≡ f)
    × (total ((replicate 32 2, 334) ∷ (replicate 32 1, 333) ∷ []) + a ≡ 1001)
assignments-sum_example = assignments-sum two_fruits 1001 fruit_target_le two_assignments

abbrev first_record : AnchorRecord
first_record = record {
  anchor_hash = replicate 32 1;
  parent_anchor = replicate 32 0;
  timestamp_ms = 1000;
  target = anchor_initial_target_le;
}

abbrev second_record : AnchorRecord
second_record = record {
  anchor_hash = replicate 32 2;
  parent_anchor = replicate 32 1;
  timestamp_ms = 61000;
  target = anchor_initial_target_le;
}

abbrev history : List AnchorRecord
history = first_record ∷ (second_record ∷ [])

history-HasTarget : All HasTarget history
history-HasTarget = (initial-IsTarget, (initial-IsTarget, tt))

history-linked : validate_parent_chain history ≡ ok tt
unfolding validate_parent_chain validate_links check_link contains beq
history-linked = refl

next_anchor_target-IsNext_example :
    (t : Bytes) × (next_anchor_target history ≡ ok t)
    × IsNext (last_target (normalize_history history)) t
next_anchor_target-IsNext_example =
    next_anchor_target-IsNext history history-HasTarget history-linked

history-steady : All (λ i. i ≡ 60000) (recent_intervals history)
unfolding recent_intervals intervals clamp_interval
history-steady = (refl, tt)

initial-IsBytes : IsBytes anchor_initial_target_le
initial-IsBytes = omega arith

next_anchor_target-steady_example : target_from history ≡ ok anchor_initial_target_le
next_anchor_target-steady_example =
    next_anchor_target-steady first_record second_record [] history-HasTarget initial-IsBytes
      history-linked history-steady
