-- ===== src/Crypto/Tests.antt =====
-- The theorem on batches at a concrete input.
use tensor_po_w.Base.{◌≡◌, [], ◌∷◌, List, replicate}
use tensor_po_w.Base.Bytes.{Bytes}
use tensor_po_w.Crypto.Signatures.{verify_batch}
use tensor_po_w.Crypto.Signatures.Batch.{all_verify, verify_batch-all}
use tensor_po_w.Crypto.Toy.{toy}

-- Two items share a key, and the second signature is wrong.
abbrev batch : List (Bytes × Bytes × Bytes)
batch = (5 ∷ [], replicate 64 15, replicate 32 1) ∷ (5 ∷ [], replicate 64 8, replicate 32 1) ∷ []

verify_batch-all_example : verify_batch toy batch ≡ all_verify toy batch
verify_batch-all_example = verify_batch-all toy batch
