-- ===== src/Crypto/Primitives.antt =====
-- What the code takes from the packages `blake3` and `cryptography`. Their code is no part of the
-- repository, so it is a parameter of every definition that hashes or verifies.
use tensor_po_w.Base.{◌≡◌, Bool, Option, length}
use tensor_po_w.Base.Bytes.{Bytes, IsBytes}

pub record Primitives : Type 1 where
  -- `blake3(data).digest(length=32)`
  pub blake3 : Bytes → Bytes
  -- An `Ed25519PublicKey` object.
  pub Key : Type 0
  -- `Ed25519PublicKey.from_public_bytes`; `none` is its ValueError.
  pub from_public_bytes : Bytes → Option Key
  -- `key.verify(signature, message)`; `false` is its InvalidSignature.
  pub accepts : Key → Bytes → Bytes → Bool
  -- A digest has the length that is asked for, and is made of bytes.
  pub length-blake3 : (d : Bytes) → length (blake3 d) ≡ 32
  pub blake3-IsBytes : (d : Bytes) → IsBytes (blake3 d)
