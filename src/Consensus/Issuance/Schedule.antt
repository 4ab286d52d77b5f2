-- ===== src/Consensus/Issuance/Schedule.antt =====
-- The issuance schedule: what the intervals of one epoch, and of all epochs, mint together.
use tensor_po_w.Base.{ℕ, suc, zero, ◌+◌, ◌-◌, ◌*◌, ◌/◌, ◌%◌, ◌^◌, ◌≡◌, ◌≤◌, ◌<◌, min, Result}
use tensor_po_w.Base.{ok, ◌>>=◌, arith, refl, sym, ◌∙◌}
use tensor_po_w.Base.{>>=-eq-ok, ok-injective}
use tensor_po_w.Checks.{u64_max}
use tensor_po_w.State.Limits.{max_supply_matoms}
use tensor_po_w.Consensus.Issuance.{
  halving_interval_anchors, initial_epoch_subsidy_matoms, epoch_pool, share, uncapped,
}
use tensor_po_w.Consensus.Issuance.{interval_subsidy_matoms, require_positive_int}
use native.Mathlib.Nat.{
  suc-mul, zero-mul, mod-lt, div-add-mod, mul-le-mul_right, add-zero, zero-add, suc-add, pow-suc,
  div-div-eq-div-mul,
}

-- A subsidy that is granted keeps the supply within its maximum.
pub interval_subsidy-supply :
    (h m : ℕ) {s : ℕ} → interval_subsidy_matoms h m ≡ ok s → m + s ≤ max_supply_matoms
unfolding interval_subsidy_matoms require_positive_int
interval_subsidy-supply h m e = ground arith

-- The supply after `n` intervals from the height `h` on, each granted its subsidy at the supply
-- that the ones before it left.
unfoldable pub mint : ℕ → ℕ → ℕ → Result ℕ
mint h zero minted = ok minted
mint h (suc n) minted = do
  subsidy ← interval_subsidy_matoms h minted
  mint (suc h) n (minted + subsidy)

-- The shares of the first `n` receivers.
unfoldable pub shares : ℕ → ℕ → ℕ → ℕ
shares base remainder zero = 0
shares base remainder (suc n) = shares base remainder n + share base remainder n

shares_lem : (base remainder n : ℕ) → shares base remainder n ≡ n * base + min n remainder
unfolding shares
shares_lem base remainder zero = omega (arith, zero-mul base)
shares_lem base remainder (suc n) = ground (arith, shares_lem base remainder n, suc-mul n base)

-- The shares of all `n` receivers are the amount that was divided.
pub shares-divided : (amount n : ℕ) → 0 < n → shares (amount / n) (amount % n) n ≡ amount
shares-divided amount n h =
    shares_lem (amount / n) (amount % n) n ∙ omega (arith, mod-lt amount h, div-add-mod amount n)

shares-le : (base remainder i k : ℕ) → shares base remainder i ≤ shares base remainder (i + k)
shares-le base remainder i k = omega (
  arith,
  shares_lem base remainder i,
  shares_lem base remainder (i + k),
  mul-le-mul_right {m = i} {n = i + k} base (omega arith),
)

subsidy-uncapped :
    (h m : ℕ)
    → h < u64_max
    → m + uncapped h ≤ max_supply_matoms
    → interval_subsidy_matoms (suc h) m ≡ ok (uncapped h)
unfolding interval_subsidy_matoms require_positive_int
subsidy-uncapped h m k l = ground arith

-- The shares of the intervals of the epoch `e`.
abbrev epoch_shares : ℕ → ℕ → ℕ
epoch_shares e =
    shares (epoch_pool e / halving_interval_anchors) (epoch_pool e % halving_interval_anchors)

uncapped_lem :
    (e i : ℕ)
    → i < halving_interval_anchors
    → epoch_shares e i + uncapped (e * halving_interval_anchors + i) ≡ epoch_shares e (suc i)
unfolding uncapped shares
uncapped_lem e i h =
    let epoch : (e * halving_interval_anchors + i) / halving_interval_anchors ≡ e = omega arith in
    let index : (e * halving_interval_anchors + i) % halving_interval_anchors ≡ i = omega arith in
    rw (epoch, index) (ground arith)

epoch_shares-le : (e i : ℕ) → i ≤ halving_interval_anchors → epoch_shares e i ≤ epoch_pool e
epoch_shares-le e i h =
    let base = epoch_pool e / halving_interval_anchors in
    let remainder = epoch_pool e % halving_interval_anchors in
    let rest : i + (halving_interval_anchors - i) ≡ halving_interval_anchors = omega arith in
    let grows = shares-le base remainder i (halving_interval_anchors - i) in
    rw (rest, shares-divided (epoch_pool e) halving_interval_anchors (omega arith)) at grows

mint-within :
    (e n i m : ℕ)
    → i + n ≤ halving_interval_anchors
    → e * halving_interval_anchors + halving_interval_anchors ≤ u64_max
    → m + epoch_pool e ≤ max_supply_matoms
    → mint (suc (e * halving_interval_anchors + i)) n (m + epoch_shares e i)
      ≡ ok (m + epoch_shares e (i + n))
unfolding mint
mint-within e zero i m h k l = rw add-zero refl
mint-within e (suc n) i m h k l =
    let now = uncapped_lem e i (omega arith) in
    let all_shares = epoch_shares-le e (suc i) (omega arith) in
    let supply : m + epoch_shares e i + uncapped (e * halving_interval_anchors + i)
        ≡ m + epoch_shares e (suc i) =
      omega (arith, now) in
    let next : suc (suc (e * halving_interval_anchors + i))
        ≡ suc (e * halving_interval_anchors + suc i) =
      omega arith in
    let count : i + suc n ≡ suc i + n = omega arith in
    rw
      (
        subsidy-uncapped (e * halving_interval_anchors + i) (m + epoch_shares e i) (omega arith)
            (omega (arith, now, all_shares)),
        supply,
        next,
        count,
      )
      (mint-within e n (suc i) m (omega arith) k l)

-- The intervals of the epoch `e`, run one after the other from a supply that leaves room for the
-- epoch's pool, mint exactly that pool: no matom is lost in the divisions.
pub mint-epoch :
    (e m : ℕ)
    → e * halving_interval_anchors + halving_interval_anchors ≤ u64_max
    → m + epoch_pool e ≤ max_supply_matoms
    → mint (suc (e * halving_interval_anchors)) halving_interval_anchors m ≡ ok (m + epoch_pool e)
mint-epoch e m k l =
    let run = mint-within e halving_interval_anchors 0 m (omega arith) k l in
    let height : e * halving_interval_anchors + 0 ≡ e * halving_interval_anchors = omega arith in
    let start : m + epoch_shares e 0 ≡ m = unfold shares in omega arith in
    let pool : epoch_shares e (0 + halving_interval_anchors) ≡ epoch_pool e =
      shares-divided (epoch_pool e) halving_interval_anchors (omega arith) in
    rw (height, start, pool) at run

mint-add : (n k h m : ℕ) {m' : ℕ} → mint h n m ≡ ok m' → mint h (n + k) m ≡ mint (h + n) k m'
unfolding mint
mint-add zero k h m e = rw (zero-add, add-zero, ok-injective e) refl
mint-add (suc n) k h m {m'} e =
    let (s, p, rest) =
      >>=-eq-ok (interval_subsidy_matoms h m) (λ subsidy. mint (suc h) n (m + subsidy)) e in
    let next : h + suc n ≡ suc h + n = omega arith in
    rw (suc-add, p, next) (mint-add n k (suc h) (m + s) rest)

-- The pools of the first `e` epochs.
unfoldable pub pools : ℕ → ℕ
pools zero = 0
pools (suc e) = pools e + epoch_pool e

-- Halving: what the pools leave of the maximal supply is two of the next pool at least.
pools-room : (e : ℕ) → pools e + 2 * epoch_pool e ≤ max_supply_matoms
unfolding pools epoch_pool
pools-room zero = omega arith
pools-room (suc e) =
    let half : initial_epoch_subsidy_matoms / 2 ^ suc e ≡ initial_epoch_subsidy_matoms / 2 ^ e / 2 =
      rw pow-suc (sym (div-div-eq-div-mul initial_epoch_subsidy_matoms (2 ^ e) 2)) in
    omega (arith, half, pools-room e)

-- The schedule from genesis: after the anchors of the first `e` epochs the supply is the sum of
-- their pools, with no interval capped, and it is at most the maximal supply.
pub mint-schedule :
    (e : ℕ)
    → e * halving_interval_anchors ≤ u64_max
    → (mint 1 (e * halving_interval_anchors) 0 ≡ ok (pools e)) × (pools e ≤ max_supply_matoms)
unfolding pools
mint-schedule zero k = (unfold mint in refl, omega arith)
mint-schedule (suc e) k =
    let (run, supply) = mint-schedule e (omega arith) in
    let anchors : suc e * halving_interval_anchors
        ≡ e * halving_interval_anchors + halving_interval_anchors =
      omega arith in
    let height : 1 + e * halving_interval_anchors ≡ suc (e * halving_interval_anchors) =
      omega arith in
    (
      rw (anchors, mint-add (e * halving_interval_anchors) halving_interval_anchors 1 0 run, height)
          (mint-epoch e (pools e) (omega arith) (omega (arith, pools-room e))),
      omega (arith, pools-room e),
    )
