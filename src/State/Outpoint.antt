-- ===== src/State/Outpoint.antt =====
-- `class Outpoint` of src/tensorpow/state/utxo.py: a reference to a transaction output.
use tensor_po_w.Base.{ℕ, ◌≡◌, ◌≤◌, ◌+◌, not, ◌==◌, length, take, drop, ◌++◌, Result, ok, arith}
use tensor_po_w.Base.{value_error, raise_if, ◌>>◌, length-append, take-append, drop-append}
use tensor_po_w.Base.{length-drop, take-append-drop, All-append, All-drop, All-take}
use tensor_po_w.Base.Bytes.{Bytes, IsByte, IsBytes, to_le, from_le, length-to_le, to_le-IsBytes}
use tensor_po_w.Base.Bytes.{from_le-to_le, to_le-from_le}
use tensor_po_w.Checks.{require_hash, require_uint, u32_max}
use tensor_po_w.Crypto.Primitives.{Primitives}
use tensor_po_w.Crypto.Hash.{length-domain_hash, hash_len_bytes, domain_hash, outpoint}

abbrev pub u32_bytes : ℕ
u32_bytes = 4

abbrev pub outpoint_bytes : ℕ
outpoint_bytes = hash_len_bytes + u32_bytes

pub record Outpoint : Type 0 where
  pub tx_id : Bytes
  pub output_index : ℕ

-- The call `Outpoint(tx_id, output_index)`, whose `__post_init__` checks the fields.
unfoldable pub new : Bytes → ℕ → Result Outpoint
new tx_id output_index = do
  require_hash tx_id
  require_uint output_index u32_max
  ok (record { tx_id = tx_id; output_index = output_index })

-- What `__post_init__` accepts.
pub record IsValid (o : Outpoint) : Type 0 where
  pub tx_id_length : length o.tx_id ≡ 32
  pub index_fits : o.output_index ≤ u32_max

unfoldable pub to_bytes : Outpoint → Bytes
to_bytes o = o.tx_id ++ to_le u32_bytes o.output_index

unfoldable pub from_bytes : Bytes → Result Outpoint
unfolding new
from_bytes bs = do
  raise_if (not (length bs == outpoint_bytes)) value_error
  new (take hash_len_bytes bs) (from_le (drop hash_len_bytes bs))

-- The sparse Merkle key.
unfoldable pub key : Primitives → Outpoint → Bytes
unfolding to_bytes
key p o = domain_hash p outpoint (to_bytes o)

pub length-key : (p : Primitives) (o : Outpoint) → length (key p o) ≡ 32
unfolding key
length-key p o = length-domain_hash p outpoint (to_bytes o)

pub new_lem : (o : Outpoint) → IsValid o → new o.tx_id o.output_index ≡ ok o
unfolding new
new_lem o v = ground arith

pub length-to_bytes : (o : Outpoint) → IsValid o → length (to_bytes o) ≡ 36
unfolding to_bytes
length-to_bytes o v =
    omega (arith, v, length-append o.tx_id (to_le 4 o.output_index), length-to_le 4 o.output_index)

pub to_bytes-IsBytes : (o : Outpoint) → IsBytes o.tx_id → IsBytes (to_bytes o)
unfolding to_bytes
to_bytes-IsBytes o h = All-append IsByte o.tx_id _ h (to_le-IsBytes 4 o.output_index)

-- Decoding gives back the outpoint that was encoded.
pub from_bytes-to_bytes : (o : Outpoint) → IsValid o → from_bytes (to_bytes o) ≡ ok o
unfolding from_bytes
from_bytes-to_bytes o v = rw (length-to_bytes o v) (
    unfold to_bytes in
    rw
      (
        take-append o.tx_id (to_le 4 o.output_index) 32 v.tx_id_length,
        drop-append o.tx_id (to_le 4 o.output_index) 32 v.tx_id_length,
        from_le-to_le 4 o.output_index (omega arith),
      )
      (new_lem o v))

pub new-eq-ok :
    (t : Bytes) (i : ℕ) {o : Outpoint}
    → new t i ≡ ok o
    → IsValid o × (o.tx_id ≡ t) × (o.output_index ≡ i)
unfolding new
new-eq-ok t i e = ground arith

from_bytes_parts :
    (bs : Bytes) {o : Outpoint}
    → from_bytes bs ≡ ok o
    → (length bs ≡ 36) × (new (take 32 bs) (from_le (drop 32 bs)) ≡ ok o)
unfolding from_bytes
from_bytes_parts bs e = ground arith

-- What decodes is the encoding of the result, and the result is valid.
pub from_bytes-eq-ok :
    (bs : Bytes) {o : Outpoint}
    → IsBytes bs
    → from_bytes bs ≡ ok o
    → IsValid o × (to_bytes o ≡ bs) × IsBytes o.tx_id
unfolding to_bytes
from_bytes-eq-ok bs {o} h e =
    let (size, made) = from_bytes_parts bs e in
    let (valid, tx_id, index) = new-eq-ok (take 32 bs) (from_le (drop 32 bs)) made in
    let width : length (drop 32 bs) ≡ 4 = omega (arith, length-drop 32 bs) in
    let tail : to_le 4 (from_le (drop 32 bs)) ≡ drop 32 bs =
      rw width at (to_le-from_le (drop 32 bs) (All-drop IsByte 32 bs h)) in
    (valid, rw (tx_id, index, tail) (take-append-drop 32 bs), rw tx_id (All-take IsByte 32 bs h))
