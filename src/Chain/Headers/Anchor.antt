-- ===== src/Chain/Headers/Anchor.antt =====
-- `class AnchorHeader` of src/tensorpow/chain/headers.py.
use tensor_po_w.Base.{ℕ, ◌^◌, ◌<◌, ◌≡◌, ◌++◌, length, Result, ok, arith}
use tensor_po_w.Base.{◌>>=◌ as bind_result, ◌>>◌ as then_result}
use tensor_po_w.Base.{length-append, ◌≤◌}
use tensor_po_w.Base.Bytes.{Bytes, to_le, length-to_le}
use tensor_po_w.Checks.{require_uint, require_hash, u64_max}
use tensor_po_w.Crypto.Hash.{hash_len_bytes, domain_hash, anchor_header}
use tensor_po_w.Crypto.Primitives.{Primitives}
use tensor_po_w.Tx.Reader.{Parser, ◌>>=◌, pure, read_bytes, read_u16, read_u64, read_all}
use tensor_po_w.Tx.Reader.Laws.{Accepts, >>=-Accepts, >>=-Accepts_last, pure-Accepts}
use tensor_po_w.Tx.Reader.Laws.{read_bytes-Accepts, read_uint-Accepts}
use tensor_po_w.Tx.RoundTrip.{read_all-Accepts}
use tensor_po_w.Chain.Headers.{require_format_epoch, as_header_error}

pub record AnchorHeader : Type 0 where
  pub version : ℕ
  pub parent_anchor : Bytes
  pub fruit_set_root : Bytes
  pub parent_candidate_root : Bytes
  pub shard_tree_state_root : Bytes
  pub fee_floor_set_root : Bytes
  pub anchor_reward_root : Bytes
  pub timestamp_ms : ℕ
  pub nonce : ℕ

-- `AnchorHeader.__post_init__`
unfoldable pub check : AnchorHeader → Result (Unit {0})
check h = then_result (require_format_epoch h.version) (
    then_result (require_hash h.parent_anchor) (
      then_result (require_hash h.fruit_set_root) (
        then_result (require_hash h.parent_candidate_root) (
          then_result (require_hash h.shard_tree_state_root) (
            then_result (require_hash h.fee_floor_set_root) (
              then_result (require_hash h.anchor_reward_root) (
                then_result (require_uint h.timestamp_ms u64_max)
                  (require_uint h.nonce u64_max))))))))

unfoldable pub serialize : AnchorHeader → Bytes
serialize h =
    to_le 2 h.version
    ++ (h.parent_anchor
        ++ (h.fruit_set_root
            ++ (h.parent_candidate_root
                ++ (h.shard_tree_state_root
                    ++ (h.fee_floor_set_root
                        ++ (h.anchor_reward_root
                            ++ (to_le 8 h.timestamp_ms ++ to_le 8 h.nonce)))))))

unfoldable pub read_fields : Parser AnchorHeader
read_fields = do
  version ← read_u16
  parent_anchor ← read_bytes hash_len_bytes
  fruit_set_root ← read_bytes hash_len_bytes
  parent_candidate_root ← read_bytes hash_len_bytes
  shard_tree_state_root ← read_bytes hash_len_bytes
  fee_floor_set_root ← read_bytes hash_len_bytes
  anchor_reward_root ← read_bytes hash_len_bytes
  timestamp_ms ← read_u64
  nonce ← read_u64
  pure (record {
    version = version;
    parent_anchor = parent_anchor;
    fruit_set_root = fruit_set_root;
    parent_candidate_root = parent_candidate_root;
    shard_tree_state_root = shard_tree_state_root;
    fee_floor_set_root = fee_floor_set_root;
    anchor_reward_root = anchor_reward_root;
    timestamp_ms = timestamp_ms;
    nonce = nonce;
  })

unfoldable pub deserialize : Bytes → Result AnchorHeader
deserialize bs =
    as_header_error (bind_result (read_all read_fields bs) (λ h. then_result (check h) (ok h)))

unfoldable pub header_hash : Primitives → AnchorHeader → Bytes
header_hash p h = domain_hash p anchor_header (serialize h)

-- The widths that the constructor guarantees.
record Fits (h : AnchorHeader) : Type 0 where
  version : h.version < 2 ^ 16
  parent_anchor_length : length h.parent_anchor ≡ 32
  fruit_set_root_length : length h.fruit_set_root ≡ 32
  parent_candidate_root_length : length h.parent_candidate_root ≡ 32
  shard_tree_state_root_length : length h.shard_tree_state_root ≡ 32
  fee_floor_set_root_length : length h.fee_floor_set_root ≡ 32
  anchor_reward_root_length : length h.anchor_reward_root ≡ 32
  time : h.timestamp_ms < 2 ^ 64
  nonce_fits : h.nonce < 2 ^ 64

check-Fits : (h : AnchorHeader) → check h ≡ ok tt → Fits h
unfolding check require_format_epoch
check-Fits h e = ground arith

read_fields-Accepts : (h : AnchorHeader) → Fits h → Accepts read_fields (serialize h) h
unfolding read_fields serialize
read_fields-Accepts h f =
    >>=-Accepts _ _ (read_uint-Accepts 2 h.version (omega arith) (omega (arith, f))) (
      >>=-Accepts _ _ (read_bytes-Accepts 32 h.parent_anchor f.parent_anchor_length (omega arith)) (
        >>=-Accepts _ _
          (read_bytes-Accepts 32 h.fruit_set_root f.fruit_set_root_length (omega arith))
          (>>=-Accepts _ _
            (read_bytes-Accepts 32 h.parent_candidate_root f.parent_candidate_root_length
              (omega arith))
            (>>=-Accepts _ _
              (read_bytes-Accepts 32 h.shard_tree_state_root f.shard_tree_state_root_length
                (omega arith))
              (>>=-Accepts _ _
                (read_bytes-Accepts 32 h.fee_floor_set_root f.fee_floor_set_root_length
                  (omega arith))
                (>>=-Accepts _ _
                  (read_bytes-Accepts 32 h.anchor_reward_root f.anchor_reward_root_length
                    (omega arith))
                  (>>=-Accepts _ _
                    (read_uint-Accepts 8 h.timestamp_ms (omega arith) (omega (arith, f)))
                    (>>=-Accepts_last _ _
                      (read_uint-Accepts 8 h.nonce (omega arith) (omega (arith, f)))
                      (pure-Accepts h)))))))))

-- The bound that the two bytes of its length in an anchor need.
pub length-serialize : (h : AnchorHeader) → check h ≡ ok tt → length (serialize h) ≤ 210
unfolding serialize
length-serialize h e =
    let f = check-Fits h e in simp (length-append, length-to_le) (omega (arith, f))

-- An anchor header that its constructor accepts is read back from its serialization, unchanged.
pub anchor_deserialize-serialize :
    (h : AnchorHeader) → check h ≡ ok tt → deserialize (serialize h) ≡ ok h
unfolding deserialize as_header_error
anchor_deserialize-serialize h e =
    rw (read_all-Accepts read_fields (read_fields-Accepts h (check-Fits h e)), e)
