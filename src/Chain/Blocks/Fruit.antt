-- ===== src/Chain/Blocks/Fruit.antt =====
-- `class Fruit` of src/tensorpow/chain/blocks.py.
use tensor_po_w.Base.{
  ◌+◌, ◌≤◌, ◌≡◌, ◌++◌, ltb, List, [], ◌∷◌, All, map, concat, length, Result, ok, arith, refl,
}
use tensor_po_w.Base.{value_error, raise_if, >>-eq-ok}
use tensor_po_w.Base.{◌>>=◌ as bind_result, ◌>>◌ as then_result}
use tensor_po_w.Base.Bytes.{Bytes, to_le}
use tensor_po_w.Checks.{require_max_len, require_max_len-eq-ok, u16_max}
use tensor_po_w.Crypto.Primitives.{Primitives}
use tensor_po_w.Chain.Headers.Fruit as Header
use tensor_po_w.Chain.Headers.Fruit.{FruitHeader, fruit_deserialize-serialize, length-serialize}
use tensor_po_w.Chain.Blocks.{
  require_tx_tuple, fruit_payload_size_bytes, payload_sum, tx_merkle_root, require_root,
}
use tensor_po_w.Chain.Blocks.{
  min_fruit_tx_count, max_fruit_payload_bytes, as_reader_error, as_block_error,
}
use tensor_po_w.Tx.Reader.{Parser, ◌>>=◌, pure, lift, read_u16, read_sized, read_many, read_all}
use tensor_po_w.Tx.Reader.Laws.{Accepts, >>=-Accepts, >>=-Accepts_last, pure-Accepts, lift-Accepts}
use tensor_po_w.Tx.Reader.Laws.{read_uint-Accepts, read_sized-Accepts, read_many-Accepts}
use tensor_po_w.Tx.RoundTrip.{read_all-Accepts}

pub record Fruit : Type 0 where
  pub header : FruitHeader
  pub transactions : List Bytes

-- `u16(len(data)) || data`
abbrev pub sized : Bytes → Bytes
sized bs = to_le 2 (length bs) ++ bs

unfoldable pub serialize : Fruit → Bytes
serialize f =
    sized (Header.serialize f.header)
    ++ (to_le 2 (length f.transactions) ++ concat (map sized f.transactions))

unfoldable pub read_fields : Parser Fruit
read_fields = do
  header_bytes ← read_sized
  header ← lift (Header.deserialize header_bytes)
  tx_count ← read_u16
  transactions ← read_many tx_count read_sized
  pure (record { header = header; transactions = transactions })

module _ (p : Primitives) where
  -- `Fruit.__post_init__`
  unfoldable pub check : Fruit → Result (Unit {0})
  check f = then_result (require_tx_tuple f.transactions) (
      then_result (raise_if (ltb (length f.transactions) min_fruit_tx_count) value_error) (
        bind_result (fruit_payload_size_bytes f.transactions) (λ size.
          then_result (raise_if (ltb max_fruit_payload_bytes size) value_error)
            (require_root p (tx_merkle_root p f.transactions) f.header.tx_merkle_root))))

  unfoldable pub deserialize : Bytes → Result Fruit
  deserialize bs =
      bind_result (as_reader_error (read_all read_fields bs))
        (λ f. as_block_error (then_result (check f) (ok f)))

  -- `block_hash`
  unfoldable pub block_hash : Fruit → Bytes
  block_hash f = Header.header_hash p f.header

txs-Accept :
    (txs : List Bytes)
    → require_tx_tuple txs ≡ ok tt
    → All (λ tx. Accepts read_sized (sized tx) tx) txs
unfolding require_tx_tuple
txs-Accept [] e = tt
txs-Accept (tx ∷ txs) e =
    let (small, rest) = >>-eq-ok (require_max_len tx u16_max) _ e in
    (read_sized-Accepts tx (require_max_len-eq-ok tx u16_max small), txs-Accept txs rest)

-- A fruit that the constructor accepts has a payload of at most 8192 bytes, and so fewer
-- transactions than its count of two bytes can hold.
length-payload : (txs : List Bytes) → length txs ≤ payload_sum txs
unfolding payload_sum
length-payload [] = omega arith
length-payload (tx ∷ txs) = omega (arith, length-payload txs)

pub check-payload :
    (p : Primitives) (f : Fruit)
    → check p f ≡ ok tt
    → (require_tx_tuple f.transactions ≡ ok tt) × (2 + payload_sum f.transactions ≤ 8192)
unfolding check fruit_payload_size_bytes
check-payload p f e =
    let (small, e₁) = >>-eq-ok (require_tx_tuple f.transactions) _ e in
    let (_, e₂) = >>-eq-ok (raise_if (ltb (length f.transactions) 1) value_error) _ e₁ in
    let e₃ = rw small at e₂ in
    let (size, _) =
      >>-eq-ok (raise_if (ltb 8192 (2 + payload_sum f.transactions)) value_error) _ e₃ in
    (small, ground (arith, size))

-- A fruit whose header and body the constructors accept is read back from its serialization.
pub fruit_body_deserialize-serialize :
    (p : Primitives) (f : Fruit)
    → Header.check f.header ≡ ok tt
    → check p f ≡ ok tt
    → deserialize p (serialize f) ≡ ok f
unfolding deserialize serialize as_reader_error as_block_error read_fields
fruit_body_deserialize-serialize p f valid made =
    let (small, size) = check-payload p f made in
    let count = length-payload f.transactions in
    let accepted : Accepts read_fields (serialize f) f =
      >>=-Accepts _ _
        (read_sized-Accepts (Header.serialize f.header)
          (omega (arith, length-serialize f.header valid)))
        (>>=-Accepts _ _
          (lift-Accepts (Header.deserialize (Header.serialize f.header)) f.header
            (fruit_deserialize-serialize f.header valid))
          (>>=-Accepts _ _ (read_uint-Accepts 2 (length f.transactions) (omega arith) (omega arith))
            (>>=-Accepts_last _ _
              (read_many-Accepts read_sized sized f.transactions (txs-Accept f.transactions small))
              (pure-Accepts f)))) in
    rw (read_all-Accepts read_fields accepted, made) refl
