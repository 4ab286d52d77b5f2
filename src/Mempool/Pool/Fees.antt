-- ===== src/Mempool/Pool/Fees.antt =====
-- The fee floors of src/tensorpow/mempool/mempool.py.
use tensor_po_w.Base.{
  ℕ, ◌+◌, ◌-◌, ◌*◌, ◌/◌, ◌≤◌, ◌≡◌, refl, min, max, ltb, ◌==◌, List, [], ◌∷◌, ◌++◌, Option, none,
  some, length, drop, arith,
}
use tensor_po_w.Base.{Result, ok, value_error, raise_if, ◌>>◌, ◌>>=◌}
use tensor_po_w.Base.Dict.{nat_eq, lookup, assign}
use tensor_po_w.Mempool.ShardTree.Ids.{require_shard_id}
use tensor_po_w.Mempool.ShardTree.Utilization.{max_fruit_payload_bytes}
use tensor_po_w.Mempool.Pool.{Mempool, FeeSample, bytes_per_kb}

abbrev pub fee_floor_window_fruits : ℕ
fee_floor_window_fruits = 1024

abbrev pub fee_floor_min_matoms_per_kb : ℕ
fee_floor_min_matoms_per_kb = 0

abbrev pub fee_floor_ewma_prev_weight : ℕ
fee_floor_ewma_prev_weight = 7

abbrev pub fee_floor_ewma_new_weight : ℕ
fee_floor_ewma_new_weight = 1

abbrev pub fee_floor_ewma_den : ℕ
fee_floor_ewma_den = 8

abbrev pub or_else {ℓ} : {A : Type ℓ} → Option A → A → A
or_else none a = a
or_else (some b) a = b

-- `fee_floor`
unfoldable pub fee_floor : Mempool → ℕ → Result ℕ
fee_floor m shard_id = do
  id ← require_shard_id shard_id
  ok (or_else (lookup id m.fee_floors) fee_floor_min_matoms_per_kb)

-- `set_fee_floor`
unfoldable pub set_fee_floor : Mempool → ℕ → ℕ → Result Mempool
set_fee_floor m shard_id floor = do
  id ← require_shard_id shard_id
  ok (record m { fee_floors = assign id (max fee_floor_min_matoms_per_kb floor) m.fee_floors })

unfoldable pub total_fees : List FeeSample → ℕ
total_fees [] = 0
total_fees (s ∷ ss) = s.floor_eligible_fees_matoms + total_fees ss

unfoldable pub total_payload : List FeeSample → ℕ
total_payload [] = 0
total_payload (s ∷ ss) = s.payload_bytes + total_payload ss

-- The rate of a window; an empty one has no fees.
unfoldable pub window_rate : List FeeSample → ℕ
window_rate [] = fee_floor_min_matoms_per_kb
window_rate (s ∷ ss) = (total_fees (s ∷ ss) * bytes_per_kb) / max 1 (total_payload (s ∷ ss))

-- `recent_fee_rate`
unfoldable pub recent_fee_rate : Mempool → ℕ → Result ℕ
recent_fee_rate m shard_id = do
  id ← require_shard_id shard_id
  ok (window_rate (or_else (lookup id m.fee_histories) []))

-- The weighted mean of the previous floor and the recent rate.
unfoldable pub ewma : ℕ → ℕ → ℕ
ewma previous recent_rate = max fee_floor_min_matoms_per_kb (
    (fee_floor_ewma_prev_weight * previous + fee_floor_ewma_new_weight * recent_rate)
    / fee_floor_ewma_den)

-- `calculate_next_fee_floor`
unfoldable pub calculate_next_fee_floor : Mempool → ℕ → Option ℕ → Result ℕ
calculate_next_fee_floor m shard_id previous_floor = do
  id ← require_shard_id shard_id
  current ← fee_floor m id
  recent_rate ← recent_fee_rate m id
  ok (ewma (or_else previous_floor current) recent_rate)

-- `FeeFloorSample.__post_init__`
unfoldable pub check_sample : FeeSample → Result (Unit {0})
check_sample s = do
  _ ← require_shard_id s.sample_shard
  raise_if (ltb max_fruit_payload_bytes s.payload_bytes) value_error

-- `deque(maxlen=…).append`: the oldest sample leaves a full window.
unfoldable pub append_sample : FeeSample → List FeeSample → List FeeSample
append_sample s history =
    let longer = history ++ (s ∷ []) in drop (length longer - fee_floor_window_fruits) longer

abbrev pub sample_of : ℕ → ℕ → ℕ → FeeSample
sample_of shard_id fees payload_bytes = record {
  sample_shard = shard_id;
  floor_eligible_fees_matoms = fees;
  payload_bytes = payload_bytes;
}

-- `self._fee_histories.setdefault(…).append(sample)`
unfoldable pub with_sample : Mempool → FeeSample → Mempool
with_sample m s =
    let history = append_sample s (or_else (lookup s.sample_shard m.fee_histories) []) in
    record m { fee_histories = assign s.sample_shard history m.fee_histories }

-- `record_confirmed_fruit`
unfoldable pub record_confirmed_fruit : Mempool → ℕ → ℕ → ℕ → Result (ℕ × Mempool)
record_confirmed_fruit m shard_id fees payload_bytes =
    check_sample (sample_of shard_id fees payload_bytes)
    >> (calculate_next_fee_floor (with_sample m (sample_of shard_id fees payload_bytes)) shard_id
          none
        >>= λ next_floor. ok (
          next_floor,
          record (with_sample m (sample_of shard_id fees payload_bytes)) {
            fee_floors = assign shard_id next_floor m.fee_floors;
          },
        ))

-- `fee_floor_history`
unfoldable pub fee_floor_history : Mempool → ℕ → Result (List FeeSample)
fee_floor_history m shard_id = do
  id ← require_shard_id shard_id
  ok (or_else (lookup id m.fee_histories) [])

-- `_fee_rate_matoms_per_kb`
unfoldable pub fee_rate : ℕ → ℕ → Result ℕ
fee_rate fee_matoms tx_size_bytes = do
  raise_if (tx_size_bytes == 0) value_error
  ok ((fee_matoms * bytes_per_kb) / tx_size_bytes)

-- `burned_fee_matoms`
unfoldable pub burned_fee_matoms : ℕ → ℕ → Result ℕ
burned_fee_matoms floor tx_size_bytes = do
  raise_if (tx_size_bytes == 0) value_error
  ok ((floor * tx_size_bytes) / bytes_per_kb)

fee_floor-shard :
    (m : Mempool) (shard_id : ℕ) {floor : ℕ}
    → fee_floor m shard_id ≡ ok floor
    → require_shard_id shard_id ≡ ok shard_id
unfolding fee_floor require_shard_id
fee_floor-shard m shard_id e = ground arith

ewma-between :
    (previous recent : ℕ)
    → (min previous recent ≤ ewma previous recent) × (ewma previous recent ≤ max previous recent)
unfolding ewma
ewma-between previous recent = (omega arith, omega arith)

-- The next fee floor of a shard lies between its current floor and the recent fee rate of its
-- window.
pub calculate_next_fee_floor-between :
    (m : Mempool) (shard_id floor rate : ℕ)
    → fee_floor m shard_id ≡ ok floor
    → recent_fee_rate m shard_id ≡ ok rate
    → (next_floor : ℕ) × (calculate_next_fee_floor m shard_id none ≡ ok next_floor)
      × (min floor rate ≤ next_floor)
      × (next_floor ≤ max floor rate)
unfolding calculate_next_fee_floor
calculate_next_fee_floor-between m shard_id floor rate priced recent =
    let (low, high) = ewma-between floor rate in
    (ewma floor rate, rw (fee_floor-shard m shard_id priced, priced, recent) refl, low, high)
