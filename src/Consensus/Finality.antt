-- ===== src/Consensus/Finality.antt =====
-- The depth tests of src/tensorpow/consensus/finality.py. A depth or a height is a number of ℕ, as
-- `_require_depth` refuses the negative ones and nothing else; a `frozenset` of tiers is a list.
use tensor_po_w.Base.{ℕ, ◌+◌, ◌-◌, ◌≡◌, ◌≤◌, ◌↔◌, Bool, true, false, ◌&&◌, ltb, leb, List, [], ◌∷◌}
use tensor_po_w.Base.{◌++◌, Option, none, some, Result, ok, value_error, raise_if, ◌>>◌, arith}
use tensor_po_w.Base.{if◌then◌else◌, All, refl}

pub data Tier : Type 0 where
  no_tier seen fast economic anchor_secured settlement : Tier

abbrev pub fast_blue_depth : ℕ
fast_blue_depth = 5

abbrev pub economic_blue_depth : ℕ
economic_blue_depth = 20

abbrev pub settlement_blue_depth : ℕ
settlement_blue_depth = 100

abbrev pub anchor_secured_depth : ℕ
anchor_secured_depth = 1

abbrev pub settlement_anchor_depth : ℕ
settlement_anchor_depth = 6

-- `anchor_depth(covering_anchor_height, tip_anchor_height)`
unfoldable pub anchor_depth : Option ℕ → ℕ → Result ℕ
anchor_depth none tip = ok 0
anchor_depth (some covering) tip = do
  raise_if (ltb tip covering) value_error
  ok (tip - covering + 1)

abbrev pub settles : ℕ → ℕ → Bool
settles blue anchor = leb settlement_blue_depth blue && leb settlement_anchor_depth anchor

-- `finality_tier_from_depths(blue, anchor, seen=known)`
unfoldable pub finality_tier_from_depths : ℕ → ℕ → Bool → Tier
finality_tier_from_depths blue anchor false = no_tier
finality_tier_from_depths blue anchor true =
    if settles blue anchor
    then settlement
    else if leb anchor_secured_depth anchor
    then anchor_secured
    else if leb economic_blue_depth blue
    then economic
    else if leb fast_blue_depth blue
    then fast
    else seen

abbrev pub add_if : Bool → Tier → List Tier
add_if test t = if test then t ∷ [] else []

-- `satisfied_finality_tiers(blue, anchor, seen=known)`
unfoldable pub satisfied_finality_tiers : ℕ → ℕ → Bool → List Tier
satisfied_finality_tiers blue anchor false = no_tier ∷ []
satisfied_finality_tiers blue anchor true =
    (seen ∷ [])
    ++ (add_if (leb fast_blue_depth blue) fast
        ++ (add_if (leb economic_blue_depth blue) economic
            ++ (add_if (leb anchor_secured_depth anchor) anchor_secured
                ++ add_if (settles blue anchor) settlement)))

-- The order of strength of the protocol's tiers.
abbrev pub rank : Tier → ℕ
rank no_tier = 0
rank seen = 1
rank fast = 2
rank economic = 3
rank anchor_secured = 4
rank settlement = 5

abbrev pub has : Tier → List Tier → Bool
has t [] = false
has t (u ∷ us) = if (leb (rank t) (rank u) && leb (rank u) (rank t)) then true else has t us

-- Whatever the depths, the tier that is reported is one of the satisfied tiers, and no satisfied
-- tier is stronger.
pub finality_tier-strongest :
    (blue anchor : ℕ) (known : Bool)
    → (has
          (finality_tier_from_depths blue anchor known)
          (satisfied_finality_tiers blue anchor known)
        ≡ true)
      × All
          (λ t. rank t ≤ rank (finality_tier_from_depths blue anchor known))
          (satisfied_finality_tiers blue anchor known)
unfolding finality_tier_from_depths satisfied_finality_tiers
finality_tier-strongest blue anchor false = (refl, (omega arith, tt))
finality_tier-strongest blue anchor true = ground arith

-- Deeper fruits are never in a weaker tier: the reported tier's rank grows with both depths.
pub finality_tier-monotone :
    (blue anchor blue' anchor' : ℕ) (known : Bool)
    → blue ≤ blue'
    → anchor ≤ anchor'
    → rank (finality_tier_from_depths blue anchor known)
      ≤ rank (finality_tier_from_depths blue' anchor' known)
unfolding finality_tier_from_depths
finality_tier-monotone blue anchor blue' anchor' false h k = omega arith
finality_tier-monotone blue anchor blue' anchor' true h k = ground arith

-- A fruit that the anchor at height `c` covers is settled, seen from the tip height `t`, exactly
-- when its blue depth is 100 or more and five anchors or more follow `c`.
pub finality_tier-settled_iff :
    (blue c t : ℕ) {d : ℕ}
    → anchor_depth (some c) t ≡ ok d
    → (finality_tier_from_depths blue d true ≡ settlement) ↔ ((100 ≤ blue) × (c + 5 ≤ t))
unfolding finality_tier_from_depths anchor_depth
finality_tier-settled_iff blue c t e = ground arith
