-- ===== src/Consensus/Daa/Steady.antt =====
-- Anchors that come exactly in time leave the target as it is.
use tensor_po_w.Base.{ℕ, ◌≡◌, ◌≤◌, List, [], ◌∷◌, ok, arith, refl, All}
use tensor_po_w.Base.{ap, ◌∙◌}
use tensor_po_w.Base.Bytes.{IsBytes, from_le, to_le, to_le-from_le}
use tensor_po_w.Consensus.Targets.{min_target, max_target, target_to_int_lem}
use tensor_po_w.Consensus.Targets.{int_to_target_lem, min_target_lem}
use tensor_po_w.Consensus.Daa.{AnchorRecord, validate_parent_chain, adjust, last, target_from}
use tensor_po_w.Consensus.Daa.{wtema_ratio_fp, wtema_step, fixed_point_scale, recent_intervals}
use tensor_po_w.Consensus.Daa.{anchor_interval_ms}
use tensor_po_w.Consensus.Daa.Bounds.{HasTarget, last-HasTarget}

wtema_ratio_fp-steady :
    (is : List ℕ)
    → All (λ i. i ≡ anchor_interval_ms) is
    → wtema_ratio_fp fixed_point_scale is ≡ fixed_point_scale
unfolding wtema_ratio_fp
wtema_ratio_fp-steady [] h = refl
wtema_ratio_fp-steady (i ∷ is) (e, h) =
    let step : wtema_step fixed_point_scale i ≡ fixed_point_scale =
      unfold wtema_step in rw e refl in
    rw step (wtema_ratio_fp-steady is h)

adjust-steady : (p : ℕ) → min_target ≤ p → p ≤ max_target → adjust p fixed_point_scale ≡ p
unfolding adjust
adjust-steady p l h = omega (arith, min_target_lem)

-- When every recent interval of two or more linked records is exactly the target interval, the next
-- target is the target of the last record.
pub next_anchor_target-steady :
    (r s : AnchorRecord) (rs : List AnchorRecord)
    → All HasTarget (r ∷ (s ∷ rs))
    → IsBytes (last s rs).target
    → validate_parent_chain (r ∷ (s ∷ rs)) ≡ ok tt
    → All (λ i. i ≡ anchor_interval_ms) (recent_intervals (r ∷ (s ∷ rs)))
    → target_from (r ∷ (s ∷ rs)) ≡ ok (last s rs).target
unfolding target_from
next_anchor_target-steady r s rs (h, hs) bytes linked steady =
    let previous = last-HasTarget s rs hs in
    let (made, _, _) = int_to_target_lem (from_le (last s rs).target) previous.low previous.high in
    let same : to_le 32 (from_le (last s rs).target) ≡ (last s rs).target =
      rw previous.width at (to_le-from_le (last s rs).target bytes) in
    rw
      (
        linked,
        target_to_int_lem (last s rs).target previous,
        wtema_ratio_fp-steady (recent_intervals (r ∷ (s ∷ rs))) steady,
        adjust-steady (from_le (last s rs).target) previous.low previous.high,
      )
      (made ∙ ap ok same)
