-- ===== src/Chain/Blocks/Anchor.antt =====
-- `class Anchor` of src/tensorpow/chain/blocks.py.
use tensor_po_w.Base.{
  ℕ, ◌+◌, ◌≤◌, ◌<◌, ◌^◌, ◌≡◌, ◌++◌, ltb, not, ◌==◌, ◌&&◌, Bool, true, false, List, [], ◌∷◌, All,
  map, concat, length, replicate, Result, ok, err, arith, ap, refl, if◌then◌else◌,
}
use tensor_po_w.Base.{value_error, raise_if}
use tensor_po_w.Base.{◌>>=◌ as bind_result, ◌>>◌ as then_result}
use tensor_po_w.Base.Bytes.{Bytes, beq, int_to_bytes}
use tensor_po_w.Base.Sorted.{blt, sorted}
use tensor_po_w.Base.Dict.{nat_eq, no_duplicates}
use tensor_po_w.Checks.{require_max_len, require_hash}
use tensor_po_w.Crypto.Primitives.{Primitives}
use tensor_po_w.Crypto.Hash.{
  hash_bytes, hash_len_bytes, domain_hash, shard_tree as shard_tree_domain,
}
use tensor_po_w.Chain.Headers.Anchor as Header
use tensor_po_w.Chain.Headers.Anchor.{AnchorHeader}
use tensor_po_w.Chain.Blocks.{
  require_hash_tuple, parent_candidate_max_count, FeeFloorEntry, check_entry, entry_bytes,
}
use tensor_po_w.Chain.Blocks.{
  fruit_set_root, parent_candidate_root, fee_floor_set_root, anchor_reward_root, require_root,
  as_reader_error, as_block_error,
}
use tensor_po_w.Chain.Blocks.Fruit.{sized}
use tensor_po_w.Mempool.ShardTree.Ids.{root_shard_id}
use tensor_po_w.Mempool.ShardTree.Tree as ShardTree
use tensor_po_w.Mempool.ShardTree.Tree.{shard_tree_max_bytes}
use tensor_po_w.Tx.Reader.{
  Parser, ◌>>=◌, pure, lift, read_bytes, read_u16, read_u32, read_u64, read_sized, read_many,
  read_all,
}
use tensor_po_w.Tx.Decode.{output_from_bytes}
use tensor_po_w.Tx.Output
use tensor_po_w.Tx.Output.{Output}
pub mod RoundTrip

pub record Anchor : Type 0 where
  pub header : AnchorHeader
  pub covered_fruit_hashes : List Bytes
  pub parent_candidate_hashes : List Bytes
  pub shard_tree_bytes : Bytes
  pub fee_floor_entries : List FeeFloorEntry
  pub anchor_reward_outputs : List Output
  pub genesis_commitment : Bytes

abbrev pub no_hash : Bytes
no_hash = replicate hash_len_bytes 0

-- `==` between tuples of hashes.
unfoldable pub same_hashes : List Bytes → List Bytes → Bool
same_hashes [] [] = true
same_hashes [] (y ∷ ys) = false
same_hashes (x ∷ xs) [] = false
same_hashes (x ∷ xs) (y ∷ ys) = beq x y && same_hashes xs ys

-- `==` between tuples of fee floor entries.
unfoldable pub same_entries : List FeeFloorEntry → List FeeFloorEntry → Bool
same_entries [] [] = true
same_entries [] (y ∷ ys) = false
same_entries (x ∷ xs) [] = false
same_entries (x ∷ xs) (y ∷ ys) =
    x.shard_id == y.shard_id
    && (x.floor_matoms_per_kb == y.floor_matoms_per_kb && same_entries xs ys)

abbrev pub by_shard : FeeFloorEntry → FeeFloorEntry → Bool
by_shard a b = ltb a.shard_id b.shard_id

abbrev pub entry_shard : FeeFloorEntry → ℕ
entry_shard e = e.shard_id

-- `_validate_genesis_empty_state`
unfoldable pub validate_genesis_empty_state : Bytes → List FeeFloorEntry → Result (Unit {0})
validate_genesis_empty_state tree_bytes entries =
    then_result
      (raise_if
        (not
          (beq tree_bytes (ShardTree.serialize (record { leaf_shard_ids = root_shard_id ∷ [] }))))
        value_error)
      (raise_if
        (not (
          same_entries entries (record { shard_id = root_shard_id; floor_matoms_per_kb = 0 } ∷ [])))
        value_error)

abbrev pub is_genesis : Anchor → Bool
is_genesis a = not (beq a.genesis_commitment no_hash)

-- The branches on `is_genesis_anchor`.
unfoldable pub check_genesis : Anchor → Result (Unit {0})
check_genesis a =
    if is_genesis a
    then then_result (raise_if (not (beq a.header.parent_anchor no_hash)) value_error) (
        then_result (raise_if (not (length a.covered_fruit_hashes == 0)) value_error) (
          then_result (raise_if (not (length a.parent_candidate_hashes == 0)) value_error) (
            then_result (raise_if (not (length a.anchor_reward_outputs == 0)) value_error)
              (validate_genesis_empty_state a.shard_tree_bytes a.fee_floor_entries))))
    else raise_if (length a.covered_fruit_hashes == 0) value_error

-- The checks of the lists and of the genesis rules.
unfoldable pub check_shape : Anchor → Result (Unit {0})
check_shape a = then_result (require_hash_tuple a.covered_fruit_hashes) (
    then_result (require_hash_tuple a.parent_candidate_hashes) (
      then_result
        (raise_if (ltb parent_candidate_max_count (length a.parent_candidate_hashes)) value_error)
        (then_result
          (raise_if (not (same_hashes (sorted blt a.covered_fruit_hashes) a.covered_fruit_hashes))
            value_error)
          (then_result (require_max_len a.shard_tree_bytes shard_tree_max_bytes) (
            then_result
              (raise_if
                (not (same_entries (sorted by_shard a.fee_floor_entries) a.fee_floor_entries))
                value_error)
              (then_result
                (raise_if (not (no_duplicates (map entry_shard a.fee_floor_entries))) value_error)
                (then_result (require_hash a.genesis_commitment) (check_genesis a))))))))

module _ (p : Primitives) where
  -- The comparison of the five roots with the header.
  unfoldable pub check_roots : Anchor → Result (Unit {0})
  check_roots a =
      then_result (require_root p (fruit_set_root p a.covered_fruit_hashes) a.header.fruit_set_root)
        (then_result
          (require_root p (parent_candidate_root p a.parent_candidate_hashes)
            a.header.parent_candidate_root)
          (then_result
            (require_root p (ok (domain_hash p shard_tree_domain a.shard_tree_bytes))
              a.header.shard_tree_state_root)
            (then_result
              (require_root p (fee_floor_set_root p a.fee_floor_entries)
                a.header.fee_floor_set_root)
              (require_root p (anchor_reward_root p a.anchor_reward_outputs)
                a.header.anchor_reward_root))))

  -- `Anchor.__post_init__`
  unfoldable pub check : Anchor → Result (Unit {0})
  check a = then_result (check_shape a) (check_roots a)

-- `u32(len(items)) || items`; a count that does not fit raises OverflowError.
unfoldable pub counted : List Bytes → Result Bytes
unfolding int_to_bytes
counted items = bind_result (int_to_bytes 4 (length items)) (λ count. ok (count ++ concat items))

unfoldable pub serialize : Anchor → Result Bytes
unfolding counted int_to_bytes
serialize a = bind_result (counted a.covered_fruit_hashes) (λ covered.
    bind_result (counted a.parent_candidate_hashes) (λ candidates.
      bind_result (int_to_bytes 4 (length a.shard_tree_bytes)) (λ tree_size.
        bind_result (counted (map entry_bytes a.fee_floor_entries)) (λ entries.
          bind_result (int_to_bytes 2 (length a.anchor_reward_outputs)) (λ output_count. ok (
            sized (Header.serialize a.header)
            ++ (covered
                ++ (candidates
                    ++ ((tree_size ++ a.shard_tree_bytes)
                        ++ (entries
                            ++ ((output_count
                                  ++ concat (
                                      map (λ o. sized (Output.to_bytes o)) a.anchor_reward_outputs))
                                ++ a.genesis_commitment)))))))))))

unfoldable pub read_hashes : Parser (List Bytes)
read_hashes = do count ← read_u32; read_many count (read_bytes hash_len_bytes)

-- The constructor of the entry is called while the reader reads.
unfoldable pub read_entry : Parser FeeFloorEntry
read_entry = do
  shard_id ← read_u32
  floor_matoms_per_kb ← read_u64
  lift (
      then_result
        (check_entry (record { shard_id = shard_id; floor_matoms_per_kb = floor_matoms_per_kb }))
        (ok (record { shard_id = shard_id; floor_matoms_per_kb = floor_matoms_per_kb })))

-- `_decode_anchor_reward_output(reader.bytes(reader.u16()))`
unfoldable pub read_reward_output : Parser Output
read_reward_output = do output_bytes ← read_sized; lift (output_from_bytes output_bytes)

-- `reader.bytes(reader.u32())`
unfoldable pub read_tree_bytes : Parser Bytes
read_tree_bytes = do tree_size ← read_u32; read_bytes tree_size

unfoldable pub read_entries : Parser (List FeeFloorEntry)
read_entries = do entry_count ← read_u32; read_many entry_count read_entry

unfoldable pub read_reward_outputs : Parser (List Output)
read_reward_outputs = do output_count ← read_u16; read_many output_count read_reward_output

unfoldable pub read_fields : Parser Anchor
read_fields = do
  header_bytes ← read_sized
  header ← lift (Header.deserialize header_bytes)
  covered ← read_hashes
  candidates ← read_hashes
  shard_tree_bytes ← read_tree_bytes
  entries ← read_entries
  outputs ← read_reward_outputs
  genesis_commitment ← read_bytes hash_len_bytes
  pure (record {
    header = header;
    covered_fruit_hashes = covered;
    parent_candidate_hashes = candidates;
    shard_tree_bytes = shard_tree_bytes;
    fee_floor_entries = entries;
    anchor_reward_outputs = outputs;
    genesis_commitment = genesis_commitment;
  })

module _ (p : Primitives) where
  unfoldable pub deserialize : Bytes → Result Anchor
  deserialize bs =
      bind_result (as_reader_error (read_all read_fields bs))
        (λ a. as_block_error (then_result (check p a) (ok a)))

  -- `block_hash`
  unfoldable pub block_hash : Anchor → Result Bytes
  block_hash a =
      if is_genesis a
      then bind_result (serialize a) (λ bs. ok (hash_bytes p bs))
      else ok (Header.header_hash p a.header)
