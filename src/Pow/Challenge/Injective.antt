-- ===== src/Pow/Challenge/Injective.antt =====
-- A proof of work commits to every field of its header: the preimage can be read back.
use tensor_po_w.Base.{◌^◌, ◌<◌, ◌≤◌, ◌≡◌, ◌∙◌, sym, List, [], ◌∷◌, length, All, concat, ok, ap}
use tensor_po_w.Base.{arith, ok-injective}
use tensor_po_w.Base.{◌==◌, if◌then◌else◌}
use tensor_po_w.Base.Bytes.{Bytes, to_le}
use tensor_po_w.Checks.{require_hash-eq-ok, require_hash, u16_max}
use tensor_po_w.Base.{>>-eq-ok}
use tensor_po_w.Tx.Reader.{
  Parser, ◌>>=◌, pure, read_bytes, read_u8, read_u16, read_u32, read_u64, read_many, read_all,
}
use tensor_po_w.Tx.Reader.Laws.{concat-map_id, Accepts, >>=-Accepts, >>=-Accepts_last, pure-Accepts}
use tensor_po_w.Tx.Reader.Laws.{read_bytes-Accepts, read_uint-Accepts, read_many-Accepts}
use tensor_po_w.Crypto.Hash.{Domain, code, domain_byte, pow_challenge_fruit, pow_challenge_anchor}
use tensor_po_w.Tx.RoundTrip.{read_all-Accepts}
use tensor_po_w.Pow.Challenge.{
  FruitPowHeader, AnchorPowHeader, PowHeader, fruit_pow, anchor_pow, require_parents,
  require_hash_tuple, check_fruit, check_anchor, check, fruit_pow_preimage, anchor_pow_preimage,
  pow_preimage,
}

unfoldable read_fruit : Parser PowHeader
read_fruit = do
  version ← read_u16
  sig_type_supported ← read_u16
  count ← read_u16
  effective_parent_hashes ← read_many count (read_bytes 32)
  latest_anchor ← read_bytes 32
  tx_merkle_root ← read_bytes 32
  timestamp_ms ← read_u64
  shard_id ← read_u32
  nonce ← read_u64
  pure (
      fruit_pow (record {
        version = version;
        sig_type_supported = sig_type_supported;
        effective_parent_hashes = effective_parent_hashes;
        latest_anchor = latest_anchor;
        tx_merkle_root = tx_merkle_root;
        timestamp_ms = timestamp_ms;
        shard_id = shard_id;
        nonce = nonce;
      }))

unfoldable read_anchor : Parser PowHeader
read_anchor = do
  version ← read_u16
  parent_anchor ← read_bytes 32
  fruit_set_root ← read_bytes 32
  parent_candidate_root ← read_bytes 32
  shard_tree_state_root ← read_bytes 32
  fee_floor_set_root ← read_bytes 32
  anchor_reward_root ← read_bytes 32
  timestamp_ms ← read_u64
  nonce ← read_u64
  pure (
      anchor_pow (record {
        version = version;
        parent_anchor = parent_anchor;
        fruit_set_root = fruit_set_root;
        parent_candidate_root = parent_candidate_root;
        shard_tree_state_root = shard_tree_state_root;
        fee_floor_set_root = fee_floor_set_root;
        anchor_reward_root = anchor_reward_root;
        timestamp_ms = timestamp_ms;
        nonce = nonce;
      }))

-- A reader of preimages, which the code has no need of: the domain says what follows.
unfoldable read_preimage : Parser PowHeader
read_preimage = do domain ← read_u8; (if domain == 0 then read_fruit else read_anchor)

record FitsFruit (h : FruitPowHeader) : Type 0 where
  version : h.version < 2 ^ 16
  mask : h.sig_type_supported < 2 ^ 16
  parents : require_hash_tuple h.effective_parent_hashes ≡ ok tt
  anchor : length h.latest_anchor ≡ 32
  root : length h.tx_merkle_root ≡ 32
  time : h.timestamp_ms < 2 ^ 64
  shard : h.shard_id < 2 ^ 32
  nonce_fits : h.nonce < 2 ^ 64

check_fruit-FitsFruit : (h : FruitPowHeader) → check_fruit h ≡ ok tt → FitsFruit h
unfolding check_fruit
check_fruit-FitsFruit h e = ground arith

record FitsAnchor (h : AnchorPowHeader) : Type 0 where
  version : h.version < 2 ^ 16
  parent_anchor_length : length h.parent_anchor ≡ 32
  fruit_set_root_length : length h.fruit_set_root ≡ 32
  parent_candidate_root_length : length h.parent_candidate_root ≡ 32
  shard_tree_state_root_length : length h.shard_tree_state_root ≡ 32
  fee_floor_set_root_length : length h.fee_floor_set_root ≡ 32
  anchor_reward_root_length : length h.anchor_reward_root ≡ 32
  time : h.timestamp_ms < 2 ^ 64
  nonce_fits : h.nonce < 2 ^ 64

check_anchor-FitsAnchor : (h : AnchorPowHeader) → check_anchor h ≡ ok tt → FitsAnchor h
unfolding check_anchor
check_anchor-FitsAnchor h e = ground arith

few : (hs : List Bytes) → require_hash_tuple hs ≡ ok tt → length hs ≤ u16_max
unfolding require_hash_tuple
few hs e = ground arith

each : (hs : List Bytes) → require_hash_tuple hs ≡ ok tt → require_parents hs ≡ ok tt
unfolding require_hash_tuple
each hs e = ground arith

read_hash-Accepts :
    (hs : List Bytes) → require_parents hs ≡ ok tt → All (λ h. Accepts (read_bytes 32) h h) hs
unfolding require_parents
read_hash-Accepts [] e = tt
read_hash-Accepts (h ∷ hs) e =
    let (size, rest) = >>-eq-ok (require_hash h) (require_parents hs) e in
    (read_bytes-Accepts 32 h (require_hash-eq-ok h size) (omega arith), read_hash-Accepts hs rest)

read_parents-Accepts :
    (hs : List Bytes)
    → require_hash_tuple hs ≡ ok tt
    → Accepts (read_many (length hs) (read_bytes 32)) (concat hs) hs
read_parents-Accepts hs e =
    rw (← concat-map_id hs)
      (read_many-Accepts (read_bytes 32) (λ h. h) hs (read_hash-Accepts hs (each hs e)))

read_domain-Accepts : (d : Domain) → code d < 256 → Accepts read_u8 (domain_byte d) (code d)
unfolding to_le
read_domain-Accepts d small =
    let one_byte : to_le 1 (code d) ≡ domain_byte d = ap (λ b. b ∷ []) (omega arith) in
    rw (← one_byte) (read_uint-Accepts 1 (code d) (omega arith) (omega arith))

read_fruit-Accepts :
    (h : FruitPowHeader) → FitsFruit h → Accepts read_preimage (fruit_pow_preimage h) (fruit_pow h)
unfolding read_preimage read_fruit fruit_pow_preimage
read_fruit-Accepts h f =
    let hs = h.effective_parent_hashes in
    >>=-Accepts _ _ (read_domain-Accepts pow_challenge_fruit (omega arith)) (
      >>=-Accepts _ _ (read_uint-Accepts 2 h.version (omega arith) (omega (arith, f))) (
        >>=-Accepts _ _ (read_uint-Accepts 2 h.sig_type_supported (omega arith) (omega (arith, f)))
          (>>=-Accepts _ _
            (read_uint-Accepts 2 (length hs) (omega arith) (omega (arith, few hs f.parents)))
            (>>=-Accepts _ _ (read_parents-Accepts hs f.parents) (
              >>=-Accepts _ _ (read_bytes-Accepts 32 h.latest_anchor f.anchor (omega arith)) (
                >>=-Accepts _ _ (read_bytes-Accepts 32 h.tx_merkle_root f.root (omega arith)) (
                  >>=-Accepts _ _
                    (read_uint-Accepts 8 h.timestamp_ms (omega arith) (omega (arith, f)))
                    (>>=-Accepts _ _
                      (read_uint-Accepts 4 h.shard_id (omega arith) (omega (arith, f)))
                      (>>=-Accepts_last _ _
                        (read_uint-Accepts 8 h.nonce (omega arith) (omega (arith, f)))
                        (pure-Accepts (fruit_pow h)))))))))))

read_anchor-Accepts :
    (h : AnchorPowHeader)
    → FitsAnchor h
    → Accepts read_preimage (anchor_pow_preimage h) (anchor_pow h)
unfolding read_preimage read_anchor anchor_pow_preimage
read_anchor-Accepts h f = >>=-Accepts _ _ (read_domain-Accepts pow_challenge_anchor (omega arith)) (
    >>=-Accepts _ _ (read_uint-Accepts 2 h.version (omega arith) (omega (arith, f))) (
      >>=-Accepts _ _ (read_bytes-Accepts 32 h.parent_anchor f.parent_anchor_length (omega arith)) (
        >>=-Accepts _ _
          (read_bytes-Accepts 32 h.fruit_set_root f.fruit_set_root_length (omega arith))
          (>>=-Accepts _ _
            (read_bytes-Accepts 32 h.parent_candidate_root f.parent_candidate_root_length
              (omega arith))
            (>>=-Accepts _ _
              (read_bytes-Accepts 32 h.shard_tree_state_root f.shard_tree_state_root_length
                (omega arith))
              (>>=-Accepts _ _
                (read_bytes-Accepts 32 h.fee_floor_set_root f.fee_floor_set_root_length
                  (omega arith))
                (>>=-Accepts _ _
                  (read_bytes-Accepts 32 h.anchor_reward_root f.anchor_reward_root_length
                    (omega arith))
                  (>>=-Accepts _ _
                    (read_uint-Accepts 8 h.timestamp_ms (omega arith) (omega (arith, f)))
                    (>>=-Accepts_last _ _
                      (read_uint-Accepts 8 h.nonce (omega arith) (omega (arith, f)))
                      (pure-Accepts (anchor_pow h)))))))))))

read_preimage-Accepts : (h : PowHeader) → check h ≡ ok tt → Accepts read_preimage (pow_preimage h) h
unfolding check pow_preimage
read_preimage-Accepts (fruit_pow h) e = read_fruit-Accepts h (check_fruit-FitsFruit h e)
read_preimage-Accepts (anchor_pow h) e = read_anchor-Accepts h (check_anchor-FitsAnchor h e)

-- Two proof-of-work headers that their constructors accept, of fruits or of anchors, have the same
-- preimage only if they are the same header: the same kind with the same value in every field.
pub pow_preimage-injective :
    (h k : PowHeader) → check h ≡ ok tt → check k ≡ ok tt → pow_preimage h ≡ pow_preimage k → h ≡ k
pow_preimage-injective h k eh ek same_bytes = ok-injective (
    sym (read_all-Accepts read_preimage (read_preimage-Accepts h eh))
    ∙ ap (read_all read_preimage) same_bytes
    ∙ read_all-Accepts read_preimage (read_preimage-Accepts k ek))
