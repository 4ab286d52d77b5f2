-- ===== src/Chain/Headers/Fruit.antt =====
-- `class FruitHeader` of src/tensorpow/chain/headers.py.
use tensor_po_w.Base.{
  ℕ, suc, zero, ◌-◌, ◌*◌, ◌/◌, ◌%◌, ◌^◌, ◌<◌, ◌≤◌, ◌≡◌, not, ◌==◌, ◌||◌, Bool, false,
}
use tensor_po_w.Base.{
  List, [], ◌∷◌, ◌++◌, length, get_elem?, none, some, Result, ok, raise_if, if◌then◌else◌,
}
use tensor_po_w.Base.{value_error, arith}
use tensor_po_w.Base.{◌>>=◌ as bind_result, ◌>>◌ as then_result}
use tensor_po_w.Base.{length-append}
use tensor_po_w.Base.Bytes.{Bytes, to_le, length-to_le, distinct}
use tensor_po_w.Checks.{require_uint, require_hash, require_max_len, u64_max}
use tensor_po_w.Crypto.Hash.{hash_len_bytes, domain_hash, fruit_header}
use tensor_po_w.Crypto.Primitives.{Primitives}
use tensor_po_w.Tx.Reader.{
  Parser, ◌>>=◌, pure, read_bytes, read_u16, read_u32, read_u64, read_sized, read_all,
}
use tensor_po_w.Tx.Reader.Laws.{Accepts, >>=-Accepts, >>=-Accepts_last, pure-Accepts}
use tensor_po_w.Tx.Reader.Laws.{read_bytes-Accepts, read_uint-Accepts, read_sized-Accepts}
use tensor_po_w.Tx.RoundTrip.{read_all-Accepts}
use tensor_po_w.Chain.Headers.{
  require_format_epoch, require_sig_mask, require_shard_id, as_header_error,
}
use tensor_po_w.Chain.Headers.{parent_bitmap_max_bytes}

pub record FruitHeader : Type 0 where
  pub version : ℕ
  pub sig_type_supported : ℕ
  pub parent_selected : Bytes
  pub parent_bitmap : Bytes
  pub latest_anchor : Bytes
  pub tx_merkle_root : Bytes
  pub timestamp_ms : ℕ
  pub shard_id : ℕ
  pub nonce : ℕ

-- `FruitHeader.__post_init__`
unfoldable pub check : FruitHeader → Result (Unit {0})
check h = then_result (require_format_epoch h.version) (
    then_result (require_sig_mask h.sig_type_supported) (
      then_result (require_hash h.parent_selected) (
        then_result (require_max_len h.parent_bitmap parent_bitmap_max_bytes) (
          then_result (require_hash h.latest_anchor) (
            then_result (require_hash h.tx_merkle_root) (
              then_result (require_uint h.timestamp_ms u64_max)
                (then_result (require_shard_id h.shard_id) (require_uint h.nonce u64_max))))))))

unfoldable pub serialize : FruitHeader → Bytes
serialize h =
    to_le 2 h.version
    ++ (to_le 2 h.sig_type_supported
        ++ (h.parent_selected
            ++ ((to_le 2 (length h.parent_bitmap) ++ h.parent_bitmap)
                ++ (h.latest_anchor
                    ++ (h.tx_merkle_root
                        ++ (to_le 8 h.timestamp_ms ++ (to_le 4 h.shard_id ++ to_le 8 h.nonce)))))))

unfoldable pub read_fields : Parser FruitHeader
read_fields = do
  version ← read_u16
  sig_type_supported ← read_u16
  parent_selected ← read_bytes hash_len_bytes
  parent_bitmap ← read_sized
  latest_anchor ← read_bytes hash_len_bytes
  tx_merkle_root ← read_bytes hash_len_bytes
  timestamp_ms ← read_u64
  shard_id ← read_u32
  nonce ← read_u64
  pure (record {
    version = version;
    sig_type_supported = sig_type_supported;
    parent_selected = parent_selected;
    parent_bitmap = parent_bitmap;
    latest_anchor = latest_anchor;
    tx_merkle_root = tx_merkle_root;
    timestamp_ms = timestamp_ms;
    shard_id = shard_id;
    nonce = nonce;
  })

unfoldable pub deserialize : Bytes → Result FruitHeader
deserialize bs =
    as_header_error (bind_result (read_all read_fields bs) (λ h. then_result (check h) (ok h)))

unfoldable pub header_hash : Primitives → FruitHeader → Bytes
header_hash p h = domain_hash p fruit_header (serialize h)

-- Bit `i` of the bitmap, counted from the low bit of the first byte; false beyond its end.
unfoldable pub bit : Bytes → ℕ → Bool
bit bitmap i = elim (get_elem? bitmap (i / 8)) [
  | none ↦ false
  | some b ↦ (b / 2 ^ (i % 8)) % 2 == 1
]

-- The candidates from the index `i` on whose bit is set.
unfoldable pub selected : Bytes → ℕ → List Bytes → List Bytes
selected bitmap i [] = []
selected bitmap i (c ∷ cs) =
    if bit bitmap i then c ∷ selected bitmap (suc i) cs else selected bitmap (suc i) cs

-- The loop of `_has_bits_beyond` over `n` bits from the bit `i` on.
unfoldable pub has_bits : Bytes → ℕ → ℕ → Bool
has_bits bitmap i zero = false
has_bits bitmap i (suc n) = bit bitmap i || has_bits bitmap (suc i) n

-- `_has_bits_beyond`
unfoldable pub has_bits_beyond : Bytes → ℕ → Bool
has_bits_beyond bitmap candidate_count =
    has_bits bitmap candidate_count (length bitmap * 8 - candidate_count)

unfoldable pub require_hashes : List Bytes → Result (Unit {0})
require_hashes [] = ok tt
require_hashes (c ∷ cs) = then_result (require_hash c) (require_hashes cs)

unfoldable pub effective_parent_hashes : FruitHeader → List Bytes → Result (List Bytes)
effective_parent_hashes h parent_candidates =
    let parents = h.parent_selected ∷ selected h.parent_bitmap 0 parent_candidates in
    then_result (require_hashes parent_candidates) (
      then_result
        (raise_if (has_bits_beyond h.parent_bitmap (length parent_candidates)) value_error)
        (then_result (raise_if (not (distinct parents)) value_error) (ok parents)))

-- The widths that the constructor guarantees.
record Fits (h : FruitHeader) : Type 0 where
  version : h.version < 2 ^ 16
  mask : h.sig_type_supported < 2 ^ 16
  parent : length h.parent_selected ≡ 32
  bitmap : length h.parent_bitmap ≤ 1250
  anchor : length h.latest_anchor ≡ 32
  root : length h.tx_merkle_root ≡ 32
  time : h.timestamp_ms < 2 ^ 64
  shard : h.shard_id < 2 ^ 32
  nonce_fits : h.nonce < 2 ^ 64

check-Fits : (h : FruitHeader) → check h ≡ ok tt → Fits h
unfolding check require_format_epoch require_sig_mask require_shard_id
check-Fits h e = ground arith

read_fields-Accepts : (h : FruitHeader) → Fits h → Accepts read_fields (serialize h) h
unfolding read_fields serialize
read_fields-Accepts h f =
    >>=-Accepts _ _ (read_uint-Accepts 2 h.version (omega arith) (omega (arith, f))) (
      >>=-Accepts _ _ (read_uint-Accepts 2 h.sig_type_supported (omega arith) (omega (arith, f))) (
        >>=-Accepts _ _ (read_bytes-Accepts 32 h.parent_selected f.parent (omega arith)) (
          >>=-Accepts _ _ (read_sized-Accepts h.parent_bitmap (omega (arith, f))) (
            >>=-Accepts _ _ (read_bytes-Accepts 32 h.latest_anchor f.anchor (omega arith)) (
              >>=-Accepts _ _ (read_bytes-Accepts 32 h.tx_merkle_root f.root (omega arith)) (
                >>=-Accepts _ _
                  (read_uint-Accepts 8 h.timestamp_ms (omega arith) (omega (arith, f)))
                  (>>=-Accepts _ _ (read_uint-Accepts 4 h.shard_id (omega arith) (omega (arith, f)))
                    (>>=-Accepts_last _ _
                      (read_uint-Accepts 8 h.nonce (omega arith) (omega (arith, f)))
                      (pure-Accepts h)))))))))

-- The bound that the two bytes of its length in a fruit need.
pub length-serialize : (h : FruitHeader) → check h ≡ ok tt → length (serialize h) ≤ 1372
unfolding serialize
length-serialize h e =
    let f = check-Fits h e in simp (length-append, length-to_le) (omega (arith, f))

-- A fruit header that its constructor accepts is read back from its serialization, unchanged.
pub fruit_deserialize-serialize :
    (h : FruitHeader) → check h ≡ ok tt → deserialize (serialize h) ≡ ok h
unfolding deserialize as_header_error
fruit_deserialize-serialize h e =
    rw (read_all-Accepts read_fields (read_fields-Accepts h (check-Fits h e)), e)
