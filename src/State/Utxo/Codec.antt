-- ===== src/State/Utxo/Codec.antt =====
-- The byte layout of an unspent output: decoding what was encoded, and what decodes.
use tensor_po_w.Base.{
  ℕ, ◌+◌, ◌^◌, ◌-◌, ◌≡◌, ◌≤◌, ◌<◌, refl, sym, ap, ◌∙◌, not, ltb, ◌==◌, length, drop, slice, Option,
  none, some, ok, arith,
}
use tensor_po_w.Base.{
  All-drop, All-take, length-append, length-drop, drop_step, slice-drop, length-slice, >>=-eq-ok,
  checked-eq-ok, le→ltb-false, ltb-false→le, value_error, raise_if,
}
use tensor_po_w.Base.{subst, ok-injective, raise_if-eq-ok, not-false, ==_iff, ltb-false→le}
use tensor_po_w.Base.Bytes.{
  Bytes, IsByte, IsBytes, beq_refl, beq→eq, to_le, from_le, length-to_le, from_le-to_le,
  to_le-from_le,
}
use tensor_po_w.Checks.{require_hash, require_hash_lem}
use tensor_po_w.Crypto.Primitives.{Primitives}
use tensor_po_w.State.Outpoint
use tensor_po_w.State.Limits.{max_supply_matoms}
use tensor_po_w.State.Utxo.{Utxo, check, new, to_bytes, outpoint_key, fields, check_key, from_bytes}

-- The widths that the constructor guarantees.
pub record Fits (u : Utxo) : Type 0 where
  pub amount : u.amount_matoms ≤ max_supply_matoms
  pub template : u.template_id ≤ 0xffff
  pub owner : length u.owner_pubkey_hash ≡ 32
  pub time : u.locktime_ms < 2 ^ 64
  pub height : u.lockheight < 2 ^ 64
  pub size : length u.payload ≤ 2048

pub check-Fits : (u : Utxo) → check u ≡ ok tt → Fits u
unfolding check
check-Fits u h = ground arith

-- What the constructors of the output and of its outpoint accept.
pub record IsValid (u : Utxo) : Type 0 where
  pub outpoint_valid : Outpoint.IsValid u.outpoint
  pub checked : check u ≡ ok tt

-- What the slices of an encoding are.
record Slices (u : Utxo) (bs : Bytes) : Type 0 where
  raw : slice 0 (0 + 36) bs ≡ Outpoint.to_bytes u.outpoint
  amount : slice 36 (36 + 8) bs ≡ to_le 8 u.amount_matoms
  template : slice 44 (44 + 2) bs ≡ to_le 2 u.template_id
  owner : slice 46 (46 + 32) bs ≡ u.owner_pubkey_hash
  time : slice 78 (78 + 8) bs ≡ to_le 8 u.locktime_ms
  height : slice 86 (86 + 8) bs ≡ to_le 8 u.lockheight
  size : slice 94 (94 + 2) bs ≡ to_le 2 (length u.payload)
  payload : drop 96 bs ≡ u.payload

to_bytes-Slices : (u : Utxo) → IsValid u → Slices u (to_bytes u)
unfolding to_bytes
to_bytes-Slices u v =
    let (d36, raw) =
      drop_step 0 36 (to_bytes u) _ _ refl (Outpoint.length-to_bytes u.outpoint v.outpoint_valid) in
    let (d44, amount) = drop_step 36 8 (to_bytes u) _ _ d36 (length-to_le 8 u.amount_matoms) in
    let (d46, template) = drop_step 44 2 (to_bytes u) _ _ d44 (length-to_le 2 u.template_id) in
    let (d78, owner) = drop_step 46 32 (to_bytes u) _ _ d46 (check-Fits u v.checked).owner in
    let (d86, time) = drop_step 78 8 (to_bytes u) _ _ d78 (length-to_le 8 u.locktime_ms) in
    let (d94, height) = drop_step 86 8 (to_bytes u) _ _ d86 (length-to_le 8 u.lockheight) in
    let (d96, size) = drop_step 94 2 (to_bytes u) _ _ d94 (length-to_le 2 (length u.payload)) in
    record {
      raw = raw;
      amount = amount;
      template = template;
      owner = owner;
      time = time;
      height = height;
      size = size;
      payload = d96;
    }

length-to_bytes : (u : Utxo) → IsValid u → length (to_bytes u) ≡ 96 + length u.payload
unfolding to_bytes
length-to_bytes u v =
    let owner = (check-Fits u v.checked).owner in
    let outpoint = Outpoint.length-to_bytes u.outpoint v.outpoint_valid in
    simp (length-append, length-to_le) (omega arith)

-- The sliced fields of an encoding are those of the output.
fields-to_bytes : (u : Utxo) → IsValid u → fields u.outpoint (to_bytes u) ≡ u
fields-to_bytes u v =
    let s = to_bytes-Slices u v in
    let f = check-Fits u v.checked in
    rw (
      s.amount,
      s.template,
      s.owner,
      s.time,
      s.height,
      s.payload,
      from_le-to_le 8 u.amount_matoms (omega (arith, f.amount)),
      from_le-to_le 2 u.template_id (omega (arith, f.template)),
      from_le-to_le 8 u.locktime_ms f.time,
      from_le-to_le 8 u.lockheight f.height,
    )

check_key-eq-ok :
    (p : Primitives) (u : Utxo) (k : Bytes) → check_key p (some k) u ≡ ok tt → outpoint_key p u ≡ k
unfolding check_key
check_key-eq-ok p u k e =
    let (u₀, sized, e') = >>=-eq-ok (require_hash k) _ e in
    beq→eq _ _ (not-false _ (raise_if-eq-ok _ value_error e'))

check_key_own : (p : Primitives) (u : Utxo) → check_key p (some (outpoint_key p u)) u ≡ ok tt
unfolding check_key
check_key_own p u = rw (
  require_hash_lem (outpoint_key p u) (Outpoint.length-key p u.outpoint),
  beq_refl (outpoint_key p u),
)

-- The steps of `from_bytes` where each of them succeeds.
from_bytes_steps :
    (p : Primitives) (bs : Bytes) (key : Option Bytes) {o : Outpoint.Outpoint} {u : Utxo}
    → 96 ≤ length bs
    → Outpoint.from_bytes (slice 0 (0 + 36) bs) ≡ ok o
    → length bs ≡ 96 + from_le (slice 94 (94 + 2) bs)
    → new (fields o bs) ≡ ok u
    → check_key p key u ≡ ok tt
    → from_bytes p bs key ≡ ok u
unfolding from_bytes
from_bytes_steps p bs key long first size made keyed = rw (
  le→ltb-false (length bs) 96 long,
  first,
  (==_iff (length bs) (96 + from_le (slice 94 (94 + 2) bs))).1 size,
  made,
  keyed,
)

-- An output is decoded from its own encoding, unchanged, whether or not its key is asked for.
pub utxo_from_bytes-to_bytes :
    (p : Primitives) (u : Utxo)
    → IsValid u
    → (from_bytes p (to_bytes u) none ≡ ok u)
      × (from_bytes p (to_bytes u) (some (outpoint_key p u)) ≡ ok u)
utxo_from_bytes-to_bytes p u v =
    let s = to_bytes-Slices u v in
    let f = check-Fits u v.checked in
    let width = length-to_bytes u v in
    let size : from_le (slice 94 (94 + 2) (to_bytes u)) ≡ length u.payload =
      ap from_le s.size ∙ from_le-to_le 2 (length u.payload) (omega (arith, f.size)) in
    let first =
      ap Outpoint.from_bytes s.raw ∙ Outpoint.from_bytes-to_bytes u.outpoint v.outpoint_valid in
    let made : new (fields u.outpoint (to_bytes u)) ≡ ok u =
      ap new (fields-to_bytes u v) ∙ unfold new in rw v.checked in
    (
      from_bytes_steps p (to_bytes u) none (omega arith) first (width ∙ omega arith) made
          (unfold check_key in refl),
      from_bytes_steps p (to_bytes u) (some (outpoint_key p u)) (omega arith) first
          (width ∙ omega arith) made (check_key_own p u),
    )

-- The parts of a successful decoding.
from_bytes_parts :
    (p : Primitives) (bs : Bytes) (key : Option Bytes) {u : Utxo}
    → from_bytes p bs key ≡ ok u
    → (o : Outpoint.Outpoint) × (96 ≤ length bs)
      × (Outpoint.from_bytes (slice 0 (0 + 36) bs) ≡ ok o)
      × (length bs ≡ 96 + from_le (slice 94 (94 + 2) bs))
      × (u ≡ fields o bs)
      × (check (fields o bs) ≡ ok tt)
      × (check_key p key u ≡ ok tt)
unfolding from_bytes new
from_bytes_parts p bs key {u} e =
    let (u₀, long, e₁) = >>=-eq-ok (raise_if (ltb (length bs) 96) value_error) _ e in
    let (o, first, e₂) = >>=-eq-ok (Outpoint.from_bytes (slice 0 (0 + 36) bs)) _ e₁ in
    let payload_len : ℕ = from_le (slice 94 (94 + 2) bs) in
    let (u₁, size, e₃) =
      >>=-eq-ok (raise_if (not (length bs == 96 + payload_len)) value_error) _ e₂ in
    let (v, made, e₄) = >>=-eq-ok (new (fields o bs)) _ e₃ in
    let (same, checked) = checked-eq-ok (check (fields o bs)) (fields o bs) made in
    let (u₂, keyed, e₅) = >>=-eq-ok (check_key p key v) _ e₄ in
    (
      o,
      ltb-false→le (length bs) 96 (raise_if-eq-ok _ value_error long),
      first,
      (==_iff (length bs) (96 + payload_len)).0 (not-false _ (raise_if-eq-ok _ value_error size)),
      sym (ok-injective e₅) ∙ same,
      checked,
      subst (λ w. check_key p key w ≡ ok tt) (ok-injective e₅) keyed,
    )

-- A field that was read from `k` bytes is written as those bytes.
rewrite_field :
    (n k : ℕ) (bs : Bytes)
    → IsBytes bs
    → n + k ≤ length bs
    → to_le k (from_le (slice n (n + k) bs)) ≡ slice n (n + k) bs
rewrite_field n k bs bytes h =
    subst (λ w. to_le w (from_le (slice n (n + k) bs)) ≡ slice n (n + k) bs) (length-slice n k bs h)
      (to_le-from_le (slice n (n + k) bs)
        (All-take IsByte (n + k - n) (drop n bs) (All-drop IsByte n bs bytes)))

to_bytes-fields :
    (o : Outpoint.Outpoint) (bs : Bytes)
    → IsBytes bs
    → 96 ≤ length bs
    → length bs ≡ 96 + from_le (slice 94 (94 + 2) bs)
    → Outpoint.to_bytes o ≡ slice 0 (0 + 36) bs
    → to_bytes (fields o bs) ≡ bs
unfolding to_bytes
to_bytes-fields o bs bytes long size raw =
    let payload : length (drop 96 bs) ≡ from_le (slice 94 (94 + 2) bs) =
      length-drop 96 bs ∙ omega arith in
    rw (
      raw,
      rewrite_field 36 8 bs bytes (omega arith),
      rewrite_field 44 2 bs bytes (omega arith),
      rewrite_field 78 8 bs bytes (omega arith),
      rewrite_field 86 8 bs bytes (omega arith),
      payload,
      rewrite_field 94 2 bs bytes (omega arith),
      ← slice-drop 94 2 bs,
      ← slice-drop 86 8 bs,
      ← slice-drop 78 8 bs,
      ← slice-drop 46 32 bs,
      ← slice-drop 44 2 bs,
      ← slice-drop 36 8 bs,
      ← slice-drop 0 36 bs,
    )

-- An output that decodes passes its constructors' checks, its encoding is the input, and where a
-- key was given it is the output's key.
pub utxo_from_bytes-eq-ok :
    (p : Primitives) (bs : Bytes) (key : Option Bytes) {u : Utxo}
    → IsBytes bs
    → from_bytes p bs key ≡ ok u
    → IsValid u × (to_bytes u ≡ bs) × ((k : Bytes) → key ≡ some k → outpoint_key p u ≡ k)
utxo_from_bytes-eq-ok p bs key {u} bytes e =
    let (o, long, first, size, same, checked, keyed) = from_bytes_parts p bs key e in
    let (valid, raw, _) =
      Outpoint.from_bytes-eq-ok (slice 0 (0 + 36) bs) (All-take IsByte 36 bs bytes) first in
    (
      rw same (record { outpoint_valid = valid; checked = checked }),
      rw same (to_bytes-fields o bs bytes long size raw),
      λ k given. check_key-eq-ok p u k (subst (λ t. check_key p t u ≡ ok tt) given keyed),
    )
