-- ===== src/Crypto/Hash.antt =====
-- src/tensorpow/crypto/hash.py: the domain-separated hash. The DOMAIN_ constants are a data type,
-- so a domain that does not fit one byte, which `_domain_byte` refuses, cannot be written.
use tensor_po_w.Base.{ℕ, ◌≡◌, ◌∷◌, [], ◌++◌, ◌*◌, length}
use tensor_po_w.Base.Bytes.{Bytes, IsBytes}
use tensor_po_w.Crypto.Primitives.{Primitives}

abbrev pub hash_len_bytes : ℕ
hash_len_bytes = 32

abbrev pub merkle_depth_bits : ℕ
merkle_depth_bits = hash_len_bytes * 8

pub data Domain : Type 0 where
  pow_challenge_fruit pow_challenge_anchor pow_output pow_matrix_a pow_matrix_b : Domain
  fruit_header anchor_header tx_merkle_root fruit_set_root : Domain
  parent_candidate_root anchor_reward_root : Domain
  tx_id tx_sighash outpoint utxo : Domain
  merkle_leaf merkle_node merkle_empty : Domain
  address genesis shard_tree fee_floor das_sample : Domain

abbrev pub code : Domain → ℕ
code pow_challenge_fruit = 0x00
code pow_challenge_anchor = 0x01
code pow_output = 0x02
code pow_matrix_a = 0x03
code pow_matrix_b = 0x04
code fruit_header = 0x10
code anchor_header = 0x11
code tx_merkle_root = 0x12
code fruit_set_root = 0x13
code parent_candidate_root = 0x14
code anchor_reward_root = 0x15
code tx_id = 0x20
code tx_sighash = 0x21
code outpoint = 0x22
code utxo = 0x23
code merkle_leaf = 0x30
code merkle_node = 0x31
code merkle_empty = 0x32
code address = 0x40
code genesis = 0x50
code shard_tree = 0x60
code fee_floor = 0x61
code das_sample = 0x70

-- The tags inside an ordered Merkle tree.
abbrev pub merkle_leaf_tag : ℕ
merkle_leaf_tag = 0x00

abbrev pub merkle_node_tag : ℕ
merkle_node_tag = 0x01

abbrev pub merkle_empty_tag : ℕ
merkle_empty_tag = 0x02

abbrev pub domain_byte : Domain → Bytes
domain_byte d = code d ∷ []

module _ (p : Primitives) where
  abbrev pub hash_bytes : Bytes → Bytes
  hash_bytes content = p.blake3 content

  -- `BLAKE3(domain_byte || data)`
  unfoldable pub domain_hash : Domain → Bytes → Bytes
  domain_hash d content = hash_bytes (domain_byte d ++ content)

  pub length-domain_hash : (d : Domain) (content : Bytes) → length (domain_hash d content) ≡ 32
  unfolding domain_hash
  length-domain_hash d content = p.length-blake3 _

  pub domain_hash-IsBytes : (d : Domain) (content : Bytes) → IsBytes (domain_hash d content)
  unfolding domain_hash
  domain_hash-IsBytes d content = p.blake3-IsBytes _
