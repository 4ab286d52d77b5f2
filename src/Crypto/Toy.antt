-- ===== src/Crypto/Toy.antt =====
-- A toy hash and a toy signature scheme for the tests: the primitives can be given.
use tensor_po_w.Base.{ℕ, ◌+◌, ◌*◌, ◌%◌, ◌<◌, refl, [], ◌∷◌, some, All, arith, replicate, ◌==◌}
use tensor_po_w.Base.Bytes.{Bytes, IsByte}
use tensor_po_w.Crypto.Primitives.{Primitives}

abbrev pub checksum : Bytes → ℕ
checksum [] = 1
checksum (b ∷ bs) = (b + 3 + checksum bs * 7) % 251

abbrev pub first_byte : Bytes → ℕ
first_byte [] = 0
first_byte (b ∷ bs) = b

pub replicate-All : (b : ℕ) → b < 256 → All IsByte (replicate 32 b)
replicate-All b h = omega arith

pub checksum-lt : (bs : Bytes) → checksum bs < 256
checksum-lt [] = omega arith
checksum-lt (b ∷ bs) = omega arith

-- The digest repeats a checksum, and a signature holds if it begins with the message's checksum.
abbrev pub toy : Primitives
toy = record {
  blake3 = λ d. replicate 32 (checksum d);
  Key = Bytes;
  from_public_bytes = λ k. some k;
  accepts = λ k s m. first_byte s == checksum m;
  length-blake3 = λ d. refl;
  blake3-IsBytes = λ d. replicate-All (checksum d) (checksum-lt d);
}
