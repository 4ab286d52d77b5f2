-- ===== src/Crypto/Signatures/Batch.antt =====
-- `verify_batch` against `verify`, item by item: the cache of loaded keys changes no answer.
use tensor_po_w.Base.{◌≡◌, Bool, true, none, some, List, [], ◌∷◌, length}
use tensor_po_w.Base.{arith, Option-cases, Bool-cases, inl, inr, ◌⊎◌, ◌==◌, ◌&&◌, refl}
use tensor_po_w.Base.Bytes.{Bytes, beq, beq→eq}
use tensor_po_w.Crypto.Primitives.{Primitives}
use tensor_po_w.Crypto.Signatures.{KeyCache, cached, load_public_key, verify, load_cached}
use tensor_po_w.Crypto.Signatures.{verify_batch_loop, verify_batch, ed25519_signature_bytes}

module _ (p : Primitives) where
  abbrev pub all_verify : List (Bytes × Bytes × Bytes) → Bool
  all_verify [] = true
  all_verify ((m, s, k) ∷ items) = verify p m s k && all_verify items

  -- Each entry of the cache is what loading its key gives.
  abbrev Coherent : KeyCache p.Key → Type 0
  Coherent [] = Unit {0}
  Coherent ((k, v) ∷ rest) = (load_public_key p k ≡ some v) × Coherent rest

  cached-Coherent :
      (k : Bytes) (cache : KeyCache p.Key) (v : p.Key)
      → Coherent cache
      → cached k cache ≡ some v
      → load_public_key p k ≡ some v
  unfolding cached
  cached-Coherent k [] v h e = cc
  cached-Coherent k ((j, w) ∷ rest) v (here, h) e = elim (Bool-cases (beq k j)) [
    | inl same ↦ rw (beq→eq k j same) (cc (rw same at e))
    | inr other ↦ cached-Coherent k rest v h (rw other at e)
  ]

  -- One round of the loop under a coherent cache: the key is the one that loading gives.
  load_cached_cases :
      (k : Bytes) (cache : KeyCache p.Key)
      → Coherent cache
      → ((load_cached p k cache ≡ none) × (load_public_key p k ≡ none))
        ⊎ ((v : p.Key) × (cache' : KeyCache p.Key) × (load_cached p k cache ≡ some (v, cache'))
            × (load_public_key p k ≡ some v)
            × Coherent cache')
  unfolding load_cached
  load_cached_cases k cache h = elim (Option-cases (cached k cache)) [
    | inr (v, e) ↦ inr (v, cache, ground arith, cached-Coherent k cache v h e, h)
    | inl absent ↦ elim (Option-cases (load_public_key p k)) [
      | inl e ↦ inl (ground arith, e)
      | inr (v, e) ↦ inr (v, (k, v) ∷ cache, ground arith, e, (e, h))
    ]
  ]

  verify_batch_loop-all :
      (items : List (Bytes × Bytes × Bytes)) (cache : KeyCache p.Key)
      → Coherent cache
      → verify_batch_loop p items cache ≡ all_verify items
  unfolding verify_batch_loop verify
  verify_batch_loop-all [] cache h = refl
  verify_batch_loop-all ((m, s, k) ∷ items) cache h =
      elim (Bool-cases (length s == ed25519_signature_bytes)) [
        | inl fits ↦ elim (load_cached_cases k cache h) [
          | inl (e, e') ↦ rw (fits, e, e')
          | inr (v, cache', e, e', h') ↦ elim (Bool-cases (p.accepts v s m)) [
            | inl good ↦ rw (fits, e, e', good) (verify_batch_loop-all items cache' h')
            | inr bad ↦ rw (fits, e, e', bad)
          ]
        ]
        | inr short ↦ rw short
      ]

  -- `verify_batch` answers whether every item passes `verify` by itself, whatever keys the items
  -- share and however often: the cache of loaded keys never changes the answer.
  pub verify_batch-all :
      (items : List (Bytes × Bytes × Bytes)) → verify_batch p items ≡ all_verify items
  unfolding verify_batch
  verify_batch-all items = verify_batch_loop-all items [] tt
