-- ===== src/Consensus/Daa.antt =====
-- The anchor difficulty adjustment of src/tensorpow/consensus/anchor_daa.py: WTEMA over the last
-- hundred anchor intervals, in fixed-point arithmetic.
use tensor_po_w.Base.{
  ℕ, suc, zero, ◌+◌, ◌-◌, ◌*◌, ◌/◌, ◌^◌, ◌≡◌, min, max, not, ltb, leb, Bool, true,
}
use tensor_po_w.Base.{
  false, List, [], ◌∷◌, length, drop, Result, ok, value_error, raise_if, ◌>>◌, ◌>>=◌,
}
use tensor_po_w.Base.Bytes.{Bytes, beq, contains}
use tensor_po_w.Checks.{u64_max, require_uint, require_hash}
use tensor_po_w.Consensus.Targets.{anchor_initial_target_le, require_target, target_to_int}
use tensor_po_w.Consensus.Targets.{int_to_target, min_target, max_target}
pub mod Bounds
pub mod Steady

abbrev pub anchor_interval_ms : ℕ
anchor_interval_ms = 60000

abbrev pub wtema_window_anchors : ℕ
wtema_window_anchors = 100

abbrev pub wtema_alpha_num : ℕ
wtema_alpha_num = 1

abbrev pub wtema_alpha_den : ℕ
wtema_alpha_den = 8

abbrev pub wtema_max_adjustment_factor : ℕ
wtema_max_adjustment_factor = 4

abbrev pub wtema_target_history_records : ℕ
wtema_target_history_records = wtema_window_anchors + 1

abbrev pub fixed_point_scale : ℕ
fixed_point_scale = 2 ^ 64

pub record AnchorRecord : Type 0 where
  pub anchor_hash : Bytes
  pub parent_anchor : Bytes
  pub timestamp_ms : ℕ
  pub target : Bytes

-- `__post_init__`
unfoldable pub check : AnchorRecord → Result (Unit {0})
check r = do
  require_hash r.anchor_hash
  require_hash r.parent_anchor
  require_uint r.timestamp_ms u64_max
  require_target r.target

-- `_normalize_history`: the last 101 records.
abbrev pub normalize_history : List AnchorRecord → List AnchorRecord
normalize_history history = drop (length history - wtema_target_history_records) history

-- The tests of one record against the one before it.
unfoldable pub check_link : AnchorRecord → AnchorRecord → Result (Unit {0})
check_link previous current = do
  raise_if (not (beq current.parent_anchor previous.anchor_hash)) value_error
  raise_if (leb current.timestamp_ms previous.timestamp_ms) value_error

-- The loop of `_validate_parent_chain` after its first round.
unfoldable pub validate_links : List Bytes → AnchorRecord → List AnchorRecord → Result (Unit {0})
validate_links seen previous [] = ok tt
validate_links seen previous (r ∷ rs) = do
  raise_if (contains r.anchor_hash seen) value_error
  check_link previous r
  validate_links (r.anchor_hash ∷ seen) r rs

unfoldable pub validate_parent_chain : List AnchorRecord → Result (Unit {0})
validate_parent_chain [] = ok tt
validate_parent_chain (r ∷ rs) = validate_links (r.anchor_hash ∷ []) r rs

unfoldable pub clamp_interval : ℕ → ℕ
clamp_interval interval_ms =
    min (max interval_ms (anchor_interval_ms / wtema_max_adjustment_factor))
      (anchor_interval_ms * wtema_max_adjustment_factor)

-- The clamped intervals between neighbours; a difference that Python has negative is clamped to the
-- least interval, as the truncated one is.
unfoldable pub intervals : List AnchorRecord → List ℕ
intervals [] = []
intervals (r ∷ []) = []
intervals (r ∷ (s ∷ rs)) = clamp_interval (s.timestamp_ms - r.timestamp_ms) ∷ intervals (s ∷ rs)

-- `_recent_intervals`: the intervals of the records from `max(1, len(records) - 100)` on, each with
-- the record before it.
unfoldable pub recent_intervals : List AnchorRecord → List ℕ
recent_intervals records =
    intervals (drop (max 1 (length records - wtema_window_anchors) - 1) records)

-- One round of `_wtema_ratio_fp`.
unfoldable pub wtema_step : ℕ → ℕ → ℕ
wtema_step ratio_fp interval_ms =
    let sample_fp = interval_ms * fixed_point_scale / anchor_interval_ms in
    ((wtema_alpha_den - wtema_alpha_num) * ratio_fp + wtema_alpha_num * sample_fp) / wtema_alpha_den

-- The loop of `_wtema_ratio_fp`, which starts at `fixed_point_scale`.
unfoldable pub wtema_ratio_fp : ℕ → List ℕ → ℕ
wtema_ratio_fp ratio_fp [] = ratio_fp
wtema_ratio_fp ratio_fp (i ∷ is) = wtema_ratio_fp (wtema_step ratio_fp i) is

-- `-(-numerator // denominator)`
abbrev pub ceil_div : ℕ → ℕ → ℕ
ceil_div numerator denominator = (numerator + (denominator - 1)) / denominator

-- The adjusted target, within a factor of four of the previous one and within the bounds.
unfoldable pub adjust : ℕ → ℕ → ℕ
adjust previous_target ratio_fp =
    let adjusted = max 1 (previous_target * ratio_fp / fixed_point_scale) in
    let movement_floor = ceil_div previous_target wtema_max_adjustment_factor in
    let movement_ceiling = previous_target * wtema_max_adjustment_factor in
    let moved = min (max adjusted movement_floor) movement_ceiling in
    min (max moved min_target) max_target

-- `records[-1]` of the records `r ∷ rs`.
abbrev pub last : AnchorRecord → List AnchorRecord → AnchorRecord
last r [] = r
last r (s ∷ rs) = last s rs

-- `next_anchor_target` from the normalized records on.
unfoldable pub target_from : List AnchorRecord → Result Bytes
target_from [] = ok anchor_initial_target_le
target_from (r ∷ []) = do validate_parent_chain (r ∷ []); ok r.target
target_from (r ∷ (s ∷ rs)) = do
  validate_parent_chain (r ∷ (s ∷ rs))
  previous_target ← target_to_int (last s rs).target
  let ratio_fp = wtema_ratio_fp fixed_point_scale (recent_intervals (r ∷ (s ∷ rs)))
  int_to_target (adjust previous_target ratio_fp)

unfoldable pub next_anchor_target : List AnchorRecord → Result Bytes
next_anchor_target history = target_from (normalize_history history)
