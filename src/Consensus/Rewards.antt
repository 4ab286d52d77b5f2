-- ===== src/Consensus/Rewards.antt =====
-- The rewards of src/tensorpow/consensus/rewards.py: how the subsidy of an anchor interval is
-- divided between the anchor and the fruits that it covers. The mapping of fruit hashes to reward
-- keys, and the dict that comes back, are association lists.
use tensor_po_w.Base.{ℕ, suc, zero, ◌+◌, ◌-◌, ◌*◌, ◌/◌, ◌%◌, ◌≡◌, ltb, ◌==◌, ◌&&◌, ◌||◌, Bool, true}
use tensor_po_w.Base.{
  false, List, [], ◌∷◌, length, Result, ok, value_error, ◌>>◌, ◌>>=◌, if◌then◌else◌,
}
use tensor_po_w.Base.Bytes.{Bytes, beq}
use tensor_po_w.Base.Sorted.{blt, sorted}
use tensor_po_w.Checks.{u64_max, require_uint, require_hash}
use tensor_po_w.Consensus.Targets.{anchor_work_weight}
use tensor_po_w.Consensus.Issuance.{share}
pub mod Conservation

abbrev pub fruit_reward_weight : ℕ
fruit_reward_weight = 1

-- The split by weight, for a work weight of the anchor that is known.
unfoldable pub split_by_weight : ℕ → ℕ → ℕ → ℕ × ℕ
split_by_weight fruit_weight interval_subsidy anchor_weight =
    let fruit_pool = interval_subsidy * fruit_weight / (fruit_weight + anchor_weight) in
    (fruit_pool, interval_subsidy - fruit_pool)

-- `reward_pools`, which returns `(fruit_pool, anchor_pool)`.
unfoldable pub reward_pools : ℕ → ℕ → Bytes → Result (ℕ × ℕ)
reward_pools fruit_count interval_subsidy anchor_target = do
  require_uint fruit_count u64_max
  require_uint interval_subsidy u64_max
  require_hash anchor_target
  if fruit_count == 0 || interval_subsidy == 0 then ok (0, interval_subsidy) else do
    weight ← anchor_work_weight anchor_target
    ok (split_by_weight (fruit_count * fruit_reward_weight) interval_subsidy weight)

-- A fruit hash with its reward key; the order of the sort is the one of `(reward_key, fruit_hash)`.
unfoldable pub before : Bytes × Bytes → Bytes × Bytes → Bool
before (hash, key) (other_hash, other_key) =
    blt key other_key || (beq key other_key && blt hash other_hash)

unfoldable pub check_keys : List (Bytes × Bytes) → Result (Unit {0})
check_keys [] = ok tt
check_keys ((fruit_hash, reward_key) ∷ ks) = do
  require_hash fruit_hash
  require_hash reward_key
  check_keys ks

-- `{fruit_hash: base + (1 if index < remainder else 0) for index, fruit_hash in enumerate(…)}`,
-- from the index `i` on.
unfoldable pub assign : ℕ → ℕ → ℕ → List (Bytes × Bytes) → List (Bytes × ℕ)
assign base remainder i [] = []
assign base remainder i ((fruit_hash, reward_key) ∷ ks) =
    (fruit_hash, share base remainder i) ∷ assign base remainder (suc i) ks

-- `not fruit_reward_keys`
abbrev pub is_empty : List (Bytes × Bytes) → Bool
is_empty [] = true
is_empty (k ∷ ks) = false

unfoldable pub fruit_subsidy_assignments :
    List (Bytes × Bytes) → ℕ → Bytes → Result (List (Bytes × ℕ))
fruit_subsidy_assignments fruit_reward_keys interval_subsidy anchor_target = do
  require_uint interval_subsidy u64_max
  require_hash anchor_target
  if is_empty fruit_reward_keys then ok [] else do
    check_keys fruit_reward_keys
    pools ← reward_pools (length fruit_reward_keys) interval_subsidy anchor_target
    let count = length fruit_reward_keys
    ok (assign (pools.0 / count) (pools.0 % count) 0 (sorted before fruit_reward_keys))
