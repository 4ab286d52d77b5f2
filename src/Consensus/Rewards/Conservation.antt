-- ===== src/Consensus/Rewards/Conservation.antt =====
-- No matom is created or lost when the subsidy of an interval is divided.
use tensor_po_w.Base.{ℕ, suc, ◌+◌, ◌*◌, ◌/◌, ◌%◌, ◌≡◌, ◌≤◌, ◌<◌, ◌==◌, ◌||◌, Bool, true}
use tensor_po_w.Base.{false, List, [], ◌∷◌, length, Result, ok, err, ◌>>=◌, if◌then◌else◌, refl}
use tensor_po_w.Base.{arith, >>-eq-ok, >>=-eq-ok, ok-injective, ap, sym, ◌∙◌}
use tensor_po_w.Base.Bytes.{Bytes}
use tensor_po_w.Base.Sorted.{sorted, length-sorted}
use tensor_po_w.Consensus.Rewards.{before}
use tensor_po_w.Checks.{u64_max, require_uint, require_hash}
use tensor_po_w.Consensus.Targets.{anchor_work_weight}
use tensor_po_w.Consensus.Issuance.Schedule.{shares, shares-divided}
use tensor_po_w.Consensus.Rewards.{split_by_weight, reward_pools, assign}
use tensor_po_w.Consensus.Rewards.{fruit_subsidy_assignments, check_keys, fruit_reward_weight}
use native.Mathlib.Nat.{div-le_of_le-mul, mul-le-mul_left, mul_comm}

split_by_weight-sum : (w s a : ℕ) → (split_by_weight w s a).0 + (split_by_weight w s a).1 ≡ s
unfolding split_by_weight
split_by_weight-sum w s a =
    let fits : s * w ≤ (w + a) * s =
      rw (mul_comm (w + a) s) (mul-le-mul_left s (let h : w ≤ w + a = omega arith in h)) in
    omega (arith, div-le_of_le-mul (w + a) fits)

pools-branch :
    (b : Bool) (w s : ℕ) (r : Result ℕ) {f a : ℕ}
    → (if b then ok (0, s) else (r >>= λ weight. ok (split_by_weight w s weight))) ≡ ok (f, a)
    → f + a ≡ s
pools-branch true w s r e = ground (arith, ok-injective e)
pools-branch false w s (ok weight) e =
    let sum = split_by_weight-sum w s weight in rw (ok-injective e) at sum
pools-branch false w s (err x) e = cc

-- The two pools of an interval are its subsidy.
pub reward_pools-sum :
    (count subsidy : ℕ) (target : Bytes) {f a : ℕ}
    → reward_pools count subsidy target ≡ ok (f, a)
    → f + a ≡ subsidy
unfolding reward_pools
reward_pools-sum count subsidy target {f} {a} e =
    let (_, e₁) = >>-eq-ok (require_uint count u64_max) _ e in
    let (_, e₂) = >>-eq-ok (require_uint subsidy u64_max) _ e₁ in
    let (_, e₃) = >>-eq-ok (require_hash target) _ e₂ in
    pools-branch (count == 0 || subsidy == 0) (count * fruit_reward_weight) subsidy
      (anchor_work_weight target) e₃

-- The amounts of all assignments together.
unfoldable pub total : List (Bytes × ℕ) → ℕ
total [] = 0
total ((fruit_hash, amount) ∷ amounts) = amount + total amounts

total-assign :
    (base remainder i : ℕ) (ks : List (Bytes × Bytes))
    → shares base remainder i + total (assign base remainder i ks)
      ≡ shares base remainder (i + length ks)
unfolding total assign shares
total-assign base remainder i [] = let here : i + 0 ≡ i = omega arith in rw here (omega arith)
total-assign base remainder i ((fruit_hash, reward_key) ∷ ks) =
    let next : i + suc (length ks) ≡ suc i + length ks = omega arith in
    rw next (omega (arith, total-assign base remainder (suc i) ks))

-- Dividing a pool over the sorted receivers assigns all of it.
total-assigned :
    (f n : ℕ) (ks : List (Bytes × Bytes))
    → length ks ≡ n
    → 0 < n
    → total (assign (f / n) (f % n) 0 (sorted before ks)) ≡ f
total-assigned f n ks e h =
    let run = total-assign (f / n) (f % n) 0 (sorted before ks) in
    let all_of_it : 0 + length (sorted before ks) ≡ n = omega (arith, length-sorted before ks, e) in
    let none_yet : shares (f / n) (f % n) 0 ≡ 0 = unfold shares in refl in
    let sum = shares-divided f n h in
    let assigned = rw (none_yet, all_of_it, sum) at run in omega (arith, assigned)

-- The amounts that the fruits of an interval are assigned are the fruit pool together, and with the
-- anchor's pool they are the subsidy.
pub assignments-sum :
    (ks : List (Bytes × Bytes)) (subsidy : ℕ) (target : Bytes) {amounts : List (Bytes × ℕ)}
    → fruit_subsidy_assignments ks subsidy target ≡ ok amounts
    → (f : ℕ) × (a : ℕ) × (reward_pools (length ks) subsidy target ≡ ok (f, a))
      × (total amounts ≡ f)
      × (total amounts + a ≡ subsidy)
unfolding fruit_subsidy_assignments
assignments-sum [] subsidy target e =
    let (g, e₁) = >>-eq-ok (require_uint subsidy u64_max) _ e in
    let (h, e₂) = >>-eq-ok (require_hash target) _ e₁ in
    (
      0,
      subsidy,
      unfold reward_pools in rw (g, h) refl,
      rw (← ok-injective e₂) (unfold total in refl),
      rw (← ok-injective e₂) (unfold total in omega arith),
    )
assignments-sum (k ∷ ks) subsidy target {amounts} e =
    let (g, e₁) = >>-eq-ok (require_uint subsidy u64_max) _ e in
    let (h, e₂) = >>-eq-ok (require_hash target) _ e₁ in
    let (c, e₃) = >>-eq-ok (check_keys (k ∷ ks)) _ e₂ in
    let count = length (k ∷ ks) in
    let ((f, a), p, e₄) =
      >>=-eq-ok (reward_pools count subsidy target)
        (λ pools. ok (assign (pools.0 / count) (pools.0 % count) 0 (sorted before (k ∷ ks)))) e₃ in
    let sum : total amounts ≡ f =
      sym (ap total (ok-injective e₄)) ∙ total-assigned f count (k ∷ ks) refl (omega arith) in
    (f, a, p, sum, omega (arith, sum, reward_pools-sum count subsidy target p))
