-- ===== src/Mempool/ShardTree/Utilization.antt =====
-- When a shard is due for a split or a merge: `should_split` and `should_merge` of
-- src/tensorpow/mempool/shard_tree.py.
use tensor_po_w.Base.{
  ℕ, ◌-◌, ◌*◌, ltb, leb, not, ◌==◌, ◌&&◌, ◌||◌, Bool, true, false, List, [], ◌∷◌, ◌++◌, length,
  drop,
}
use tensor_po_w.Base.{Result, ok, value_error, raise_if, ◌>>◌, ◌>>=◌, if◌then◌else◌}
use tensor_po_w.Mempool.ShardTree.Ids.{
  require_shard_id, decode_shard_id, require_sibling_shards, shard_max_depth,
}

abbrev pub max_fruit_payload_bytes : ℕ
max_fruit_payload_bytes = 8192

abbrev pub shard_split_threshold_pct : ℕ
shard_split_threshold_pct = 80

abbrev pub shard_split_window_anchors : ℕ
shard_split_window_anchors = 10

abbrev pub shard_merge_threshold_pct : ℕ
shard_merge_threshold_pct = 20

abbrev pub shard_merge_window_anchors : ℕ
shard_merge_window_anchors = 1440

-- `ShardUtilizationSample`
pub record Sample : Type 0 where
  pub shard_id : ℕ
  pub payload_bytes_confirmed : ℕ
  pub fruit_slots_observed : ℕ

-- `ShardUtilizationSample.__post_init__`
unfoldable pub check : Sample → Result (Unit {0})
check s = do
  _ ← require_shard_id s.shard_id
  raise_if (s.fruit_slots_observed == 0) value_error
  raise_if (ltb (max_fruit_payload_bytes * s.fruit_slots_observed) s.payload_bytes_confirmed)
      value_error

-- The samples of one shard.
unfoldable pub samples_of : ℕ → List Sample → List Sample
samples_of shard_id [] = []
samples_of shard_id (s ∷ ss) =
    let rest = samples_of shard_id ss in if s.shard_id == shard_id then s ∷ rest else rest

-- `_recent_samples`; `samples[-window:]` is all of a shorter list.
unfoldable pub recent_samples : ℕ → List Sample → ℕ → List Sample
recent_samples shard_id history window =
    let samples = samples_of shard_id history in drop (length samples - window) samples

-- `_sample_meets_threshold`
unfoldable pub sample_meets_threshold : Sample → ℕ → Bool → Bool
sample_meets_threshold s threshold_pct at_least =
    let numerator = s.payload_bytes_confirmed * 100 in
    let threshold = max_fruit_payload_bytes * s.fruit_slots_observed * threshold_pct in
    if at_least then leb threshold numerator else leb numerator threshold

unfoldable pub all_meet : List Sample → ℕ → Bool → Bool
all_meet [] threshold_pct at_least = true
all_meet (s ∷ ss) threshold_pct at_least =
    sample_meets_threshold s threshold_pct at_least && all_meet ss threshold_pct at_least

-- The answer of `should_split` for the recent samples.
unfoldable pub split_due : ℕ → List Sample → Bool
split_due depth samples =
    not (leb shard_max_depth depth || ltb (length samples) shard_split_window_anchors)
    && all_meet samples shard_split_threshold_pct true

-- `should_split`
unfoldable pub should_split : ℕ → List Sample → Result Bool
should_split shard_id history = do
  (depth, path) ← decode_shard_id shard_id
  ok (split_due depth (recent_samples shard_id history shard_split_window_anchors))

-- The answer of `should_merge` for the recent samples.
unfoldable pub merge_due : List Sample → List Sample → Bool
merge_due left_samples right_samples =
    not (
      ltb (length left_samples) shard_merge_window_anchors
      || ltb (length right_samples) shard_merge_window_anchors)
    && all_meet (left_samples ++ right_samples) shard_merge_threshold_pct false

-- `should_merge`
unfoldable pub should_merge : ℕ × ℕ → List Sample → Result Bool
should_merge siblings history = do
  (left, right) ← require_sibling_shards siblings
  ok (
      merge_due (recent_samples left history shard_merge_window_anchors)
        (recent_samples right history shard_merge_window_anchors))
