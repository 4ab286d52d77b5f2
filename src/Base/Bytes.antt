-- ===== src/Base/Bytes.antt =====
-- Python's `bytes` as lists of numbers below 256, compared by `==`, and the little-endian
-- `int.to_bytes` and `int.from_bytes`.
use tensor_po_w.Base.Tests.{◌==◌, ltb, if◌then◌else◌, lt→ltb, le→ltb-false}
use tensor_po_w.Base.Outcome.{Result, ok, err, overflow_error}
use tensor_po_w.Base.Lists.{length, take, drop, All}
use Prim.Native.Nat.{ℕ, zero, suc, ◌+◌, ◌*◌, ◌/◌, ◌%◌, ◌^◌, ◌<◌, ◌≤◌}
use mathlib.Core.Path.{◌≡◌, refl, ap, ap₂, ◌∙◌}
use mathlib.Core.Logic.{◌↔◌}
use mathlib.Core.Bool.{Bool, true, false, not, ◌&&◌, ◌||◌}
use mathlib.Core.List.{List, [], ◌∷◌}
use native.Mathlib.Omega.{arith}
use native.Mathlib.Nat.{pow-suc}

abbrev pub Bytes : Type 0
Bytes = List ℕ

abbrev pub IsByte : ℕ → Type 0
IsByte b = b < 256

abbrev pub IsBytes : Bytes → Type 0
IsBytes = All IsByte

-- `==` between two `bytes`.
unfoldable pub beq : Bytes → Bytes → Bool
beq [] [] = true
beq [] (y ∷ ys) = false
beq (x ∷ xs) [] = false
beq (x ∷ xs) (y ∷ ys) = (x == y) && beq xs ys

pub beq→eq : (xs ys : Bytes) → beq xs ys ≡ true → xs ≡ ys
unfolding beq
beq→eq [] [] h = refl
beq→eq [] (y ∷ ys) h = cc
beq→eq (x ∷ xs) [] h = cc
beq→eq (x ∷ xs) (y ∷ ys) h = ground (arith, beq→eq xs ys)

pub beq_refl : (xs : Bytes) → beq xs xs ≡ true
unfolding beq
beq_refl [] = refl
beq_refl (x ∷ xs) = ground (arith, beq_refl xs)

pub beq_iff : (xs ys : Bytes) → (beq xs ys ≡ true) ↔ (xs ≡ ys)
beq_iff xs ys = (beq→eq xs ys, λ e. rw e (beq_refl ys))

-- `v.to_bytes(n, "little")` of a value whose range has been checked.
unfoldable pub to_le : ℕ → ℕ → Bytes
to_le zero v = []
to_le (suc n) v = (v % 256) ∷ to_le n (v / 256)

-- `v.to_bytes(n, "little")` of any value: from 256 ** n on Python raises OverflowError.
unfoldable pub int_to_bytes : ℕ → ℕ → Result Bytes
int_to_bytes n v = if ltb v (256 ^ n) then ok (to_le n v) else err overflow_error

pub int_to_bytes_fits : (n v : ℕ) → v < 256 ^ n → int_to_bytes n v ≡ ok (to_le n v)
unfolding int_to_bytes
int_to_bytes_fits n v h = rw (lt→ltb v (256 ^ n) h)

pub int_to_bytes_overflow : (n v : ℕ) → 256 ^ n ≤ v → int_to_bytes n v ≡ err overflow_error
unfolding int_to_bytes
int_to_bytes_overflow n v h = rw (le→ltb-false v (256 ^ n) h)

-- `int.from_bytes(data, "little")`
unfoldable pub from_le : Bytes → ℕ
from_le [] = 0
from_le (b ∷ bs) = b + 256 * from_le bs

pub length-to_le : (n v : ℕ) → length (to_le n v) ≡ n
unfolding to_le
length-to_le zero v = refl
length-to_le (suc n) v = ap suc (length-to_le n (v / 256))

pub to_le-IsBytes : (n v : ℕ) → IsBytes (to_le n v)
unfolding to_le
to_le-IsBytes zero v = tt
to_le-IsBytes (suc n) v = (omega arith, to_le-IsBytes n (v / 256))

pub from_le-to_le : (n v : ℕ) → v < 256 ^ n → from_le (to_le n v) ≡ v
unfolding to_le from_le
from_le-to_le zero v h = omega arith
from_le-to_le (suc n) v h =
    let fits : v < 256 ^ n * 256 = rw pow-suc at h in
    omega (arith, from_le-to_le n (v / 256) (omega arith))

pub to_le-from_le : (bs : Bytes) → IsBytes bs → to_le (length bs) (from_le bs) ≡ bs
unfolding to_le from_le
to_le-from_le [] h = refl
to_le-from_le (b ∷ bs) (hb, h) = ap₂ ◌∷◌ (omega arith) (
    ap (to_le (length bs)) (let e : (b + 256 * from_le bs) / 256 ≡ from_le bs = omega arith in e)
    ∙ to_le-from_le bs h)

pub from_le-lt : (bs : Bytes) → IsBytes bs → from_le bs < 256 ^ length bs
unfolding from_le
from_le-lt [] h = omega arith
from_le-lt (b ∷ bs) (hb, h) = rw pow-suc (omega (arith, from_le-lt bs h))

-- `x in xs`
unfoldable pub contains : Bytes → List Bytes → Bool
contains x [] = false
contains x (y ∷ ys) = beq x y || contains x ys

-- `len(set(xs)) == len(xs)`
unfoldable pub distinct : List Bytes → Bool
unfolding contains
distinct [] = true
distinct (x ∷ xs) = not (contains x xs) && distinct xs

-- `tuple(data[offset : offset + width] for offset in range(0, len(data), width))`; each chunk takes
-- a byte at least, so `length data` rounds are enough.
unfoldable pub chunks_fuel : ℕ → ℕ → Bytes → List Bytes
chunks_fuel zero width bs = []
chunks_fuel (suc n) width [] = []
chunks_fuel (suc n) width (b ∷ bs) = take width (b ∷ bs) ∷ chunks_fuel n width (drop width (b ∷ bs))

unfoldable pub chunks : ℕ → Bytes → List Bytes
unfolding chunks_fuel
chunks width bs = chunks_fuel (length bs) width bs
