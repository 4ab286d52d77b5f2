-- ===== src/Consensus/Issuance.antt =====
-- The issuance of src/tensorpow/consensus/rewards.py: the subsidy of one anchor interval, and the
-- maturity of coinbase outputs.
use tensor_po_w.Base.{
  ℕ, suc, zero, ◌+◌, ◌-◌, ◌*◌, ◌/◌, ◌%◌, ◌^◌, ◌≡◌, ◌≤◌, min, ltb, ◌==◌, Result, ok,
}
use tensor_po_w.Base.{value_error, raise_if, ◌>>◌, ◌>>=◌, if◌then◌else◌, arith}
use tensor_po_w.Checks.{u64_max, require_uint}
use tensor_po_w.State.Limits.{max_supply_matoms}
pub mod Schedule

abbrev pub halving_interval_anchors : ℕ
halving_interval_anchors = 4 * 365 * 24 * 60

abbrev pub initial_epoch_subsidy_matoms : ℕ
initial_epoch_subsidy_matoms = 10_500_000 * 100_000_000

abbrev pub coinbase_maturity_anchors : ℕ
coinbase_maturity_anchors = 100

-- `_require_positive_int`
unfoldable pub require_positive_int : ℕ → Result (Unit {0})
require_positive_int value = do require_uint value u64_max; raise_if (value == 0) value_error

-- `INITIAL_EPOCH_SUBSIDY_MATOMS >> epoch_index`
unfoldable pub epoch_pool : ℕ → ℕ
epoch_pool epoch_index = initial_epoch_subsidy_matoms / 2 ^ epoch_index

-- `base + (1 if index < remainder else 0)`, the share of one of several receivers.
abbrev pub share : ℕ → ℕ → ℕ → ℕ
share base remainder index = base + (if ltb index remainder then 1 else 0)

-- The share of the interval `interval_index`, before the cap by the supply that is left.
unfoldable pub uncapped : ℕ → ℕ
uncapped interval_index =
    let pool = epoch_pool (interval_index / halving_interval_anchors) in
    if pool == 0
    then 0
    else share (pool / halving_interval_anchors) (pool % halving_interval_anchors)
        (interval_index % halving_interval_anchors)

-- `interval_subsidy_matoms(anchor_height, minted_supply_matoms)`; where the pool is empty the
-- source returns 0 and takes no minimum, which is the same number.
unfoldable pub interval_subsidy_matoms : ℕ → ℕ → Result ℕ
interval_subsidy_matoms anchor_height minted_supply_matoms = do
  require_positive_int anchor_height
  require_uint minted_supply_matoms u64_max
  raise_if (ltb max_supply_matoms minted_supply_matoms) value_error
  ok (min (uncapped (anchor_height - 1)) (max_supply_matoms - minted_supply_matoms))

-- `coinbase_maturity_height`
unfoldable pub coinbase_maturity_height : ℕ → Result ℕ
coinbase_maturity_height anchor_height = do
  require_positive_int anchor_height
  ok (anchor_height + coinbase_maturity_anchors)
