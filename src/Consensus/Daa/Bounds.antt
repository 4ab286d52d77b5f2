-- ===== src/Consensus/Daa/Bounds.antt =====
-- The next anchor target exists, lies in the bounds, and moves by a factor of four at most.
use tensor_po_w.Base.{ℕ, ◌*◌, ◌≡◌, ◌≤◌, List, [], ◌∷◌, ok, arith}
use tensor_po_w.Base.{refl, All, All-drop, length, ◌-◌}
use tensor_po_w.Base.Bytes.{Bytes, from_le, to_le}
use tensor_po_w.Consensus.Targets.{IsTarget, min_target, max_target, target_to_int_lem}
use tensor_po_w.Consensus.Targets.{int_to_target_lem, anchor_initial_target_le}
use tensor_po_w.Consensus.Daa.{AnchorRecord, validate_parent_chain, normalize_history, adjust, last}
use tensor_po_w.Consensus.Daa.{target_from, next_anchor_target, wtema_ratio_fp, fixed_point_scale}
use tensor_po_w.Consensus.Daa.{recent_intervals}

-- A record whose target passed `__post_init__`.
abbrev pub HasTarget : AnchorRecord → Type 0
HasTarget r = IsTarget r.target

-- The target of the last record, for a history that has one.
abbrev pub last_target : List AnchorRecord → ℕ
last_target [] = from_le anchor_initial_target_le
last_target (r ∷ rs) = from_le (last r rs).target

-- A target within the bounds, and within a factor of four of the value `previous`.
pub record IsNext (previous : ℕ) (t : Bytes) : Type 0 where
  pub in_bounds : IsTarget t
  pub floor : previous ≤ 4 * from_le t
  pub ceiling : from_le t ≤ 4 * previous

adjust-bounds :
    (p ratio : ℕ)
    → min_target ≤ p
    → p ≤ max_target
    → (min_target ≤ adjust p ratio)
      × (adjust p ratio ≤ max_target)
      × (p ≤ 4 * adjust p ratio)
      × (adjust p ratio ≤ 4 * p)
unfolding adjust
adjust-bounds p ratio l h = omega arith

pub last-HasTarget :
    (r : AnchorRecord) (rs : List AnchorRecord) → All HasTarget (r ∷ rs) → HasTarget (last r rs)
last-HasTarget r [] (h, hs) = h
last-HasTarget r (s ∷ rs) (h, hs) = last-HasTarget s rs hs

pub initial-IsTarget : IsTarget anchor_initial_target_le
unfolding from_le min_target max_target
initial-IsTarget = record { width = refl; low = omega arith; high = omega arith }

target_from-IsNext :
    (rs : List AnchorRecord)
    → All HasTarget rs
    → validate_parent_chain rs ≡ ok tt
    → (t : Bytes) × (target_from rs ≡ ok t) × IsNext (last_target rs) t
unfolding target_from
target_from-IsNext [] h v = (
  anchor_initial_target_le,
  refl,
  record { in_bounds = initial-IsTarget; floor = omega arith; ceiling = omega arith },
)
target_from-IsNext (r ∷ []) (h, hs) v =
    (r.target, rw v refl, record { in_bounds = h; floor = omega arith; ceiling = omega arith })
target_from-IsNext (r ∷ (s ∷ rs)) (h, hs) v =
    let previous = last-HasTarget s rs hs in
    let ratio_fp = wtema_ratio_fp fixed_point_scale (recent_intervals (r ∷ (s ∷ rs))) in
    let (low, high, floor, ceiling) =
      adjust-bounds (from_le (last s rs).target) ratio_fp previous.low previous.high in
    let value = adjust (from_le (last s rs).target) ratio_fp in
    let (made, valid, e) = int_to_target_lem value low high in
    (
      to_le 32 value,
      rw (v, target_to_int_lem (last s rs).target previous) made,
      record { in_bounds = valid; floor = rw e floor; ceiling = rw e ceiling },
    )

-- Over records that are linked by their parents with growing times, the next target exists, is a
-- valid target, and is within a factor of four of the last record's target (of the initial target,
-- for no record).
pub next_anchor_target-IsNext :
    (history : List AnchorRecord)
    → All HasTarget history
    → validate_parent_chain (normalize_history history) ≡ ok tt
    → (t : Bytes) × (next_anchor_target history ≡ ok t)
      × IsNext (last_target (normalize_history history)) t
unfolding next_anchor_target
next_anchor_target-IsNext history h v =
    target_from-IsNext (normalize_history history)
      (All-drop HasTarget (length history - 101) history h) v
