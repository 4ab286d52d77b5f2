-- ===== src/Consensus/Targets.antt =====
-- Anchor targets: the constants of src/tensorpow/pow/kernel.py and the conversions of
-- src/tensorpow/consensus/anchor_daa.py.
use tensor_po_w.Base.{ℕ, ◌≡◌, ◌≤◌, ◌<◌, ◌/◌, ◌^◌, ◌>>=◌, min, not, ltb, ◌==◌, ◌||◌, length, []}
use tensor_po_w.Base.{◌∷◌, Result, ok, value_error, raise_if, ◌>>◌, arith, refl, replicate}
use tensor_po_w.Base.Bytes.{Bytes, to_le, from_le, length-to_le, from_le-to_le}
use tensor_po_w.Checks.{u64_max}

-- `FRUIT_TARGET_LE`, which is `ANCHOR_MAX_TARGET_LE` too.
abbrev pub fruit_target_le : Bytes
fruit_target_le =
    0x19 ∷ 0x57 ∷ 0x19 ∷ 0x18 ∷ 0x3e ∷ 0xc6 ∷ 0x04 ∷ 0x4d ∷ 0x31 ∷ 0x27 ∷ 0x67 ∷ 0xab ∷ 0x3e ∷ 0x98
    ∷ 0x8f ∷ 0xfe ∷ 0x75 ∷ 0x75 ∷ 0x63 ∷ 0x50 ∷ 0x5b ∷ 0x5c ∷ 0x45 ∷ 0x76 ∷ 0x0f ∷ 0x19 ∷ 0x23
    ∷ 0xcf ∷ 0x80 ∷ 0x3f ∷ 0xa0 ∷ 0x5b ∷ []

abbrev pub anchor_initial_target_le : Bytes
anchor_initial_target_le =
    0xc4 ∷ 0xe7 ∷ 0x7a ∷ 0x53 ∷ 0x4b ∷ 0x84 ∷ 0xe0 ∷ 0x6c ∷ 0x45 ∷ 0x3f ∷ 0xe6 ∷ 0x09 ∷ 0x7f ∷ 0x99
    ∷ 0x53 ∷ 0xa3 ∷ 0x0b ∷ 0x5d ∷ 0x8b ∷ 0x9e ∷ 0x96 ∷ 0x8a ∷ 0xa9 ∷ 0xcc ∷ 0x16 ∷ 0x38 ∷ 0x3d
    ∷ 0xac ∷ 0xcc ∷ 0x74 ∷ 0x17 ∷ 0x00 ∷ []

abbrev pub anchor_min_target_le : Bytes
anchor_min_target_le = 1 ∷ replicate 31 0

-- `_ANCHOR_MIN_TARGET_INT`
unfoldable pub min_target : ℕ
unfolding from_le
min_target = from_le anchor_min_target_le

-- `_ANCHOR_MAX_TARGET_INT`, which is `_FRUIT_TARGET_INT` too.
unfoldable pub max_target : ℕ
unfolding from_le
max_target = from_le fruit_target_le

pub min_target_lem : min_target ≡ 1
unfolding min_target from_le
min_target_lem = refl

pub max_target-lt : max_target < 256 ^ 32
unfolding max_target from_le
max_target-lt = omega arith

-- `_require_target`
unfoldable pub require_target : Bytes → Result (Unit {0})
require_target value = do
  raise_if (not (length value == 32)) value_error
  raise_if (ltb (from_le value) min_target || ltb max_target (from_le value)) value_error

unfoldable pub target_to_int : Bytes → Result ℕ
target_to_int target = do require_target target; ok (from_le target)

unfoldable pub int_to_target : ℕ → Result Bytes
int_to_target value = do
  raise_if (ltb value min_target || ltb max_target value) value_error
  ok (to_le 32 value)

-- `anchor_work_weight`; a target that passed the check is positive.
unfoldable pub anchor_work_weight : Bytes → Result ℕ
anchor_work_weight active_target = do
  target ← target_to_int active_target
  ok (min (max_target / target) u64_max)

-- What `_require_target` accepts.
pub record IsTarget (t : Bytes) : Type 0 where
  pub width : length t ≡ 32
  pub low : min_target ≤ from_le t
  pub high : from_le t ≤ max_target

pub require_target_lem : (t : Bytes) → IsTarget t → require_target t ≡ ok tt
unfolding require_target
require_target_lem t v = ground arith

pub require_target-eq-ok : (t : Bytes) → require_target t ≡ ok tt → IsTarget t
unfolding require_target
require_target-eq-ok t e = record { width = ground arith; low = ground arith; high = ground arith }

pub target_to_int_lem : (t : Bytes) → IsTarget t → target_to_int t ≡ ok (from_le t)
unfolding target_to_int
target_to_int_lem t v = rw (require_target_lem t v) refl

-- A number in the bounds encodes to a target with that value.
pub int_to_target_lem :
    (v : ℕ)
    → min_target ≤ v
    → v ≤ max_target
    → (int_to_target v ≡ ok (to_le 32 v)) × IsTarget (to_le 32 v) × (from_le (to_le 32 v) ≡ v)
unfolding int_to_target
int_to_target_lem v l h =
    let value : from_le (to_le 32 v) ≡ v = from_le-to_le 32 v (omega (arith, max_target-lt)) in
    (ground arith, record { width = length-to_le 32 v; low = rw value l; high = rw value h }, value)
