-- ===== src/Crypto/Signatures.antt =====
-- src/tensorpow/crypto/signatures.py: Ed25519 verification, alone, in a batch and by type.
pub mod Batch
use tensor_po_w.Base.{ℕ, Bool, true, false, Option, none, some, List, [], ◌∷◌, length}
use tensor_po_w.Base.{◌==◌, if◌then◌else◌, not}
use tensor_po_w.Base.Bytes.{Bytes, beq}
use tensor_po_w.Crypto.Primitives.{Primitives}

abbrev pub sig_type_ed25519 : ℕ
sig_type_ed25519 = 0

abbrev pub ed25519_public_key_bytes : ℕ
ed25519_public_key_bytes = 32

abbrev pub ed25519_signature_bytes : ℕ
ed25519_signature_bytes = 64

-- A Python dict keyed by public keys; a new key goes to the front.
abbrev pub KeyCache : Type 0 → Type 0
KeyCache K = List (Bytes × K)

module _ {K : Type 0} where
  pub cached : Bytes → KeyCache K → Option K
  cached k [] = none
  cached k ((j, v) ∷ rest) = if beq k j then some v else cached k rest

module _ (p : Primitives) where
  -- `_load_public_key`
  unfoldable pub load_public_key : Bytes → Option p.Key
  load_public_key public_key =
      if not (length public_key == ed25519_public_key_bytes)
      then none
      else p.from_public_bytes public_key

  unfoldable pub verify : Bytes → Bytes → Bytes → Bool
  unfolding load_public_key
  verify message signature public_key =
      if not (length signature == ed25519_signature_bytes)
      then false
      else elim (load_public_key public_key) [
        | none ↦ false
        | some key ↦ p.accepts key signature message
      ]

  -- `_SIG_DISPATCH` has one entry.
  unfoldable pub verify_by_sig_type : ℕ → Bytes → Bytes → Bytes → Bool
  unfolding verify
  verify_by_sig_type sig_type message signature public_key =
      if sig_type == sig_type_ed25519 then verify message signature public_key else false

  -- The cached key, or the key that is loaded and put into the cache.
  pub load_cached : Bytes → KeyCache p.Key → Option (p.Key × KeyCache p.Key)
  unfolding cached load_public_key
  load_cached public_key cache = elim (cached public_key cache) [
    | some key ↦ some (key, cache)
    | none ↦ elim (load_public_key public_key) [
      | none ↦ none
      | some key ↦ some (key, (public_key, key) ∷ cache)
    ]
  ]

  -- The loop of `verify_batch` over (message, signature, public_key).
  pub verify_batch_loop : List (Bytes × Bytes × Bytes) → KeyCache p.Key → Bool
  unfolding load_cached
  verify_batch_loop [] cache = true
  verify_batch_loop ((message, signature, public_key) ∷ items) cache =
      if not (length signature == ed25519_signature_bytes)
      then false
      else elim (load_cached public_key cache) [
        | none ↦ false
        | some (key, cache') ↦ elim (p.accepts key signature message) [
          | true ↦ verify_batch_loop items cache'
          | false ↦ false
        ]
      ]

  pub verify_batch : List (Bytes × Bytes × Bytes) → Bool
  unfolding verify_batch_loop
  verify_batch items = verify_batch_loop items []
