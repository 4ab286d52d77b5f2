-- ===== src/Pow/Tests.antt =====
-- The theorems on proof-of-work challenges at concrete inputs.
use tensor_po_w.Pow.Challenge.{
  require_parents, require_hash_tuple, check_fruit, PowHeader, fruit_pow, check, with_nonce,
  set_nonce,
}
use tensor_po_w.Base.Bytes.{beq, distinct}
use tensor_po_w.Base.{◌≡◌, refl, [], ◌∷◌, ok, replicate}
use tensor_po_w.Pow.Challenge.Injective.{pow_preimage-injective}

abbrev challenge : PowHeader
challenge = fruit_pow (record {
  version = 0;
  sig_type_supported = 1;
  effective_parent_hashes = replicate 32 1 ∷ replicate 32 7 ∷ [];
  latest_anchor = replicate 32 2;
  tx_merkle_root = replicate 32 3;
  timestamp_ms = 1700000000000;
  shard_id = 0;
  nonce = 9;
})

challenge-check : check challenge ≡ ok tt
unfolding check check_fruit require_hash_tuple distinct beq require_parents
challenge-check = refl

nonce_replaced : with_nonce challenge 9 ≡ ok challenge
unfolding with_nonce check set_nonce check_fruit require_hash_tuple distinct beq require_parents
nonce_replaced = refl

-- The same header, written as `with_nonce` makes it.
replaced-check : check (set_nonce challenge 9) ≡ ok tt
unfolding check set_nonce check_fruit require_hash_tuple distinct beq require_parents
replaced-check = refl

pow_preimage-injective_example : challenge ≡ set_nonce challenge 9
unfolding set_nonce
pow_preimage-injective_example =
    pow_preimage-injective challenge (set_nonce challenge 9) challenge-check replaced-check refl
