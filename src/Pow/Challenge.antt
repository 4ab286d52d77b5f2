-- ===== src/Pow/Challenge.antt =====
-- src/tensorpow/pow/challenge.py: the headers that a proof of work commits to and their preimages.
pub mod Injective
use tensor_po_w.Base.{ℕ, ◌%◌, not, ltb, ◌==◌, List, [], ◌∷◌, ◌++◌, length, concat, Result, ok}
use tensor_po_w.Base.{raise_if, value_error}
use tensor_po_w.Base.{◌>>=◌ as bind_result, ◌>>◌ as then_result}
use tensor_po_w.Base.Bytes.{Bytes, to_le, distinct}
use tensor_po_w.Checks.{require_uint, require_hash, u16_max, u32_max, u64_max}
use tensor_po_w.Crypto.Hash.{domain_byte, pow_challenge_fruit, pow_challenge_anchor}
use tensor_po_w.Chain.Headers.Fruit
use tensor_po_w.Chain.Headers.Fruit.{FruitHeader}
use tensor_po_w.Chain.Headers.Anchor.{AnchorHeader}

pub record FruitPowHeader : Type 0 where
  pub version : ℕ
  pub sig_type_supported : ℕ
  pub effective_parent_hashes : List Bytes
  pub latest_anchor : Bytes
  pub tx_merkle_root : Bytes
  pub timestamp_ms : ℕ
  pub shard_id : ℕ
  pub nonce : ℕ

pub record AnchorPowHeader : Type 0 where
  pub version : ℕ
  pub parent_anchor : Bytes
  pub fruit_set_root : Bytes
  pub parent_candidate_root : Bytes
  pub shard_tree_state_root : Bytes
  pub fee_floor_set_root : Bytes
  pub anchor_reward_root : Bytes
  pub timestamp_ms : ℕ
  pub nonce : ℕ

pub data PowHeader : Type 0 where
  fruit_pow : FruitPowHeader → PowHeader
  anchor_pow : AnchorPowHeader → PowHeader

unfoldable pub require_parents : List Bytes → Result (Unit {0})
require_parents [] = ok tt
require_parents (item ∷ items) = then_result (require_hash item) (require_parents items)

-- `_require_hash_tuple`
unfoldable pub require_hash_tuple : List Bytes → Result (Unit {0})
require_hash_tuple value =
    then_result (raise_if (ltb u16_max (length value)) value_error)
      (then_result (raise_if (not (distinct value)) value_error) (require_parents value))

-- `FruitPowHeader.__post_init__`; the active Ed25519 bit of the mask is its lowest.
unfoldable pub check_fruit : FruitPowHeader → Result (Unit {0})
check_fruit h = then_result (require_uint h.version u16_max) (
    then_result (require_uint h.sig_type_supported u16_max) (
      then_result (raise_if (h.sig_type_supported % 2 == 0) value_error) (
        then_result (require_hash_tuple h.effective_parent_hashes) (
          then_result (require_hash h.latest_anchor) (
            then_result (require_hash h.tx_merkle_root) (
              then_result (require_uint h.timestamp_ms u64_max)
                (then_result (require_uint h.shard_id u32_max) (require_uint h.nonce u64_max))))))))

-- `AnchorPowHeader.__post_init__`
unfoldable pub check_anchor : AnchorPowHeader → Result (Unit {0})
check_anchor h = then_result (require_uint h.version u16_max) (
    then_result (require_hash h.parent_anchor) (
      then_result (require_hash h.fruit_set_root) (
        then_result (require_hash h.parent_candidate_root) (
          then_result (require_hash h.shard_tree_state_root) (
            then_result (require_hash h.fee_floor_set_root) (
              then_result (require_hash h.anchor_reward_root) (
                then_result (require_uint h.timestamp_ms u64_max)
                  (require_uint h.nonce u64_max))))))))

-- The checks of the constructor of either class.
unfoldable pub check : PowHeader → Result (Unit {0})
check (fruit_pow h) = check_fruit h
check (anchor_pow h) = check_anchor h

unfoldable pub fruit_pow_preimage : FruitPowHeader → Bytes
fruit_pow_preimage h =
    domain_byte pow_challenge_fruit
    ++ (to_le 2 h.version
        ++ (to_le 2 h.sig_type_supported
            ++ (to_le 2 (length h.effective_parent_hashes)
                ++ (concat h.effective_parent_hashes
                    ++ (h.latest_anchor
                        ++ (h.tx_merkle_root
                            ++ (to_le 8 h.timestamp_ms
                                ++ (to_le 4 h.shard_id ++ to_le 8 h.nonce))))))))

unfoldable pub anchor_pow_preimage : AnchorPowHeader → Bytes
anchor_pow_preimage h =
    domain_byte pow_challenge_anchor
    ++ (to_le 2 h.version
        ++ (h.parent_anchor
            ++ (h.fruit_set_root
                ++ (h.parent_candidate_root
                    ++ (h.shard_tree_state_root
                        ++ (h.fee_floor_set_root
                            ++ (h.anchor_reward_root
                                ++ (to_le 8 h.timestamp_ms ++ to_le 8 h.nonce))))))))

unfoldable pub pow_preimage : PowHeader → Bytes
pow_preimage (fruit_pow h) = fruit_pow_preimage h
pow_preimage (anchor_pow h) = anchor_pow_preimage h

-- A header after `replace(header, nonce=nonce)`.
unfoldable pub set_nonce : PowHeader → ℕ → PowHeader
set_nonce (fruit_pow h) nonce = fruit_pow (record h { nonce = nonce })
set_nonce (anchor_pow h) nonce = anchor_pow (record h { nonce = nonce })

-- `with_nonce`: `replace` calls the constructor, which checks every field again.
unfoldable pub with_nonce : PowHeader → ℕ → Result PowHeader
with_nonce header nonce =
    then_result (require_uint nonce u64_max)
      (then_result (check (set_nonce header nonce)) (ok (set_nonce header nonce)))

unfoldable pub new_fruit : FruitPowHeader → Result FruitPowHeader
new_fruit h = then_result (check_fruit h) (ok h)

unfoldable pub new_anchor : AnchorPowHeader → Result AnchorPowHeader
new_anchor h = then_result (check_anchor h) (ok h)

-- `FruitHeader.to_pow_header` of src/tensorpow/chain/headers.py.
unfoldable pub fruit_to_pow_header : FruitHeader → List Bytes → Result FruitPowHeader
fruit_to_pow_header h parent_candidates =
    bind_result (Fruit.effective_parent_hashes h parent_candidates) (λ parents. new_fruit (record {
      version = h.version;
      sig_type_supported = h.sig_type_supported;
      effective_parent_hashes = parents;
      latest_anchor = h.latest_anchor;
      tx_merkle_root = h.tx_merkle_root;
      timestamp_ms = h.timestamp_ms;
      shard_id = h.shard_id;
      nonce = h.nonce;
    }))

-- `AnchorHeader.to_pow_header`
unfoldable pub anchor_to_pow_header : AnchorHeader → Result AnchorPowHeader
anchor_to_pow_header h = new_anchor (record {
  version = h.version;
  parent_anchor = h.parent_anchor;
  fruit_set_root = h.fruit_set_root;
  parent_candidate_root = h.parent_candidate_root;
  shard_tree_state_root = h.shard_tree_state_root;
  fee_floor_set_root = h.fee_floor_set_root;
  anchor_reward_root = h.anchor_reward_root;
  timestamp_ms = h.timestamp_ms;
  nonce = h.nonce;
})
