-- ===== src/Tx/Reader.antt =====
-- `class _Reader` of src/tensorpow/tx/transaction.py: a cursor into the bytes that are decoded.
pub mod Laws
pub mod Inverse
use tensor_po_w.Base.{
  ℕ, zero, suc, List, [], ◌∷◌, ◌+◌, ltb, not, ◌==◌, length, take, drop, slice, Result, ok, err,
  raise_if, ◌≡◌,
}
use tensor_po_w.Base.{value_error, script_error, tx_decode_error}
use tensor_po_w.Base.{◌>>=◌ as bind_result, ◌>>◌ as then_result}
use tensor_po_w.Base.Bytes.{Bytes, from_le}
use tensor_po_w.Checks.{require_uint, u32_max}

pub record Reader : Type 0 where
  pub content : Bytes
  pub offset : ℕ

abbrev pub Parser : Type 0 → Type 0
Parser A = Reader → Result (A × Reader)

infixl 5 ◌>>=◌ ◌>>◌
abbrev pub ◌>>=◌ : {A B : Type 0} → Parser A → (A → Parser B) → Parser B
◌>>=◌ m f r = bind_result (m r) (λ q. f q.0 q.1)

abbrev pub ◌>>◌ : {B : Type 0} → Parser (Unit {0}) → Parser B → Parser B
m >> k = m >>= λ _. k

abbrev pub pure : {A : Type 0} → A → Parser A
pure a r = ok (a, r)

-- A call that does not touch the reader.
abbrev pub lift : {A : Type 0} → Result A → Parser A
lift m r = bind_result m (λ a. ok (a, r))

abbrev pub start : Bytes → Reader
start content = record { content = content; offset = 0 }

abbrev pub advance : ℕ → Reader → Reader
advance n r = record r { offset = r.offset + n }

-- `_Reader.bytes`
unfoldable pub read_bytes : ℕ → Parser Bytes
read_bytes n r = then_result (require_uint n u32_max) (
    then_result (raise_if (ltb (length r.content) (r.offset + n)) tx_decode_error)
      (ok (slice r.offset (r.offset + n) r.content, advance n r)))

unfoldable pub read_uint : ℕ → Parser ℕ
read_uint width = do bs ← read_bytes width; pure (from_le bs)

abbrev pub read_u8 : Parser ℕ
read_u8 = read_uint 1

abbrev pub read_u16 : Parser ℕ
read_u16 = read_uint 2

abbrev pub read_u32 : Parser ℕ
read_u32 = read_uint 4

abbrev pub read_u64 : Parser ℕ
read_u64 = read_uint 8

-- `reader.bytes(reader.u16())`
unfoldable pub read_sized : Parser Bytes
read_sized = do size ← read_u16; read_bytes size

-- `tuple(read(reader) for _ in range(count))`
unfoldable pub read_many : {A : Type 0} → ℕ → Parser A → Parser (List A)
read_many zero read = pure []
read_many (suc n) read = do a ← read; rest ← read_many n read; pure (a ∷ rest)

unfoldable pub finish : Parser (Unit {0})
finish r = then_result (raise_if (not (r.offset == length r.content)) tx_decode_error) (ok (tt, r))

-- `except (TypeError, ValueError)`: ValueError and its subclasses become TxDecodeError.
unfoldable pub as_decode_error : {A : Type 0} → Result A → Result A
as_decode_error (ok a) = ok a
as_decode_error (err value_error) = err tx_decode_error
as_decode_error (err script_error) = err tx_decode_error
as_decode_error (err e) = err e

-- `reader = _Reader(data); value = read(reader); reader.finish()`
unfoldable pub read_all : {A : Type 0} → Parser A → Bytes → Result A
unfolding finish
read_all read bs = bind_result (read (start bs)) (λ q. bind_result (finish q.1) (λ _. ok q.0))

pub as_decode_error-eq-ok :
    {A : Type 0} (m : Result A) {a : A} → as_decode_error m ≡ ok a → m ≡ ok a
unfolding as_decode_error
as_decode_error-eq-ok (ok a) e = e
as_decode_error-eq-ok (err value_error) e = cc
as_decode_error-eq-ok (err script_error) e = cc
as_decode_error-eq-ok (err _) e = cc
