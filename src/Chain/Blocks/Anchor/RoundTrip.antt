-- ===== src/Chain/Blocks/Anchor/RoundTrip.antt =====
-- An anchor is read back from its serialization.
use tensor_po_w.Base.{
  suc, ◌≤◌, ◌<◌, ◌^◌, ◌≡◌, ◌++◌, ltb, not, List, [], ◌∷◌, All, map, concat, length, length-append,
  ok, arith, ap, refl,
}
use tensor_po_w.Base.{value_error, raise_if, >>-eq-ok}
use tensor_po_w.Base.Bytes.{Bytes, to_le, int_to_bytes_fits, length-to_le, distinct}
use tensor_po_w.Checks.{require_hash, require_max_len, require_max_len-eq-ok, require_hash-eq-ok}
use tensor_po_w.Crypto.Primitives.{Primitives}
use tensor_po_w.Chain.Headers.{require_shard_id}
use tensor_po_w.Chain.Headers.Anchor as Header
use tensor_po_w.Chain.Headers.Anchor.{AnchorHeader, anchor_deserialize-serialize, length-serialize}
use tensor_po_w.Chain.Headers.Fruit.{require_hashes}
use tensor_po_w.Chain.Blocks.{
  require_hash_tuple, FeeFloorEntry, check_entry, entry_bytes, as_reader_error, as_block_error,
}
use tensor_po_w.Chain.Blocks.Fruit.{sized}
use tensor_po_w.Base.Sorted.{blt, sorted}
use tensor_po_w.Base.Dict.{nat_eq, no_duplicates}
use tensor_po_w.Chain.Blocks.Anchor.{same_hashes, same_entries, by_shard, entry_shard}
use tensor_po_w.Chain.Blocks.Anchor.{
  Anchor, check, check_shape, counted, serialize, read_hashes, read_entry, read_entries,
  read_reward_outputs, read_tree_bytes, read_reward_output, read_fields, deserialize,
}
use tensor_po_w.Tx.Reader.{read_bytes}
use tensor_po_w.Tx.Reader.Laws.{
  concat-map_id, Accepts, >>=-Accepts, >>=-Accepts_last, pure-Accepts, lift-Accepts,
}
use tensor_po_w.Tx.Reader.Laws.{
  read_uint-Accepts, read_bytes-Accepts, read_sized-Accepts, read_many-Accepts,
}
use tensor_po_w.Tx.RoundTrip.{read_all-Accepts, output_from_bytes-to_bytes}
use tensor_po_w.Tx.Output
use tensor_po_w.Tx.Output.{Output}

-- The parts of an anchor are what their constructors accept, and its lists fit their counts.
pub record Holds (a : Anchor) : Type 0 where
  pub header_ok : Header.check a.header ≡ ok tt
  pub entries_ok : All (λ e. check_entry e ≡ ok tt) a.fee_floor_entries
  pub outputs_ok : All (λ o. Output.check o ≡ ok tt) a.anchor_reward_outputs
  pub covered_fit : length a.covered_fruit_hashes < 2 ^ 32
  pub entries_fit : length a.fee_floor_entries < 2 ^ 32
  pub outputs_fit : length a.anchor_reward_outputs < 2 ^ 16

-- The bytes of a list whose count fits.
abbrev counted_bytes : List Bytes → Bytes
counted_bytes items = to_le 4 (length items) ++ concat items

counted_fits :
    (items : List Bytes) → length items < 2 ^ 32 → counted items ≡ ok (counted_bytes items)
unfolding counted
counted_fits items few = rw (int_to_bytes_fits 4 (length items) (omega arith)) refl

read_hash-Accepts :
    (hs : List Bytes) → require_hashes hs ≡ ok tt → All (λ h. Accepts (read_bytes 32) h h) hs
unfolding require_hashes
read_hash-Accepts [] e = tt
read_hash-Accepts (h ∷ hs) e =
    let (size, rest) = >>-eq-ok (require_hash h) _ e in
    (read_bytes-Accepts 32 h (require_hash-eq-ok h size) (omega arith), read_hash-Accepts hs rest)

read_hashes-Accepts :
    (hs : List Bytes)
    → require_hash_tuple hs ≡ ok tt
    → length hs < 2 ^ 32
    → Accepts read_hashes (counted_bytes hs) hs
unfolding read_hashes require_hash_tuple
read_hashes-Accepts hs e few =
    let (_, each) = >>-eq-ok (raise_if (not (distinct hs)) value_error) _ e in
    >>=-Accepts _ _ (read_uint-Accepts 4 (length hs) (omega arith) (omega arith)) (
      rw (← concat-map_id hs)
        (read_many-Accepts (read_bytes 32) (λ h. h) hs (read_hash-Accepts hs each)))

check_entry-fits :
    (e : FeeFloorEntry)
    → check_entry e ≡ ok tt
    → (e.shard_id < 2 ^ 32) × (e.floor_matoms_per_kb < 2 ^ 64)
unfolding check_entry require_shard_id
check_entry-fits e h = ground arith

read_entry-Accepts :
    (e : FeeFloorEntry) → check_entry e ≡ ok tt → Accepts read_entry (entry_bytes e) e
unfolding read_entry entry_bytes
read_entry-Accepts e h =
    >>=-Accepts _ _
      (read_uint-Accepts 4 e.shard_id (omega arith) (omega (arith, check_entry-fits e h)))
      (>>=-Accepts_last _ _
        (read_uint-Accepts 8 e.floor_matoms_per_kb (omega arith)
          (omega (arith, check_entry-fits e h)))
        (lift-Accepts _ _ (rw h refl)))

length-output : (o : Output) → Output.check o ≡ ok tt → length (Output.to_bytes o) ≤ 2076
unfolding Output.check Output.to_bytes
length-output o e =
    let small : length o.payload ≤ 2048 = ground arith in
    simp (length-append, length-to_le) (omega arith)

read_reward_output-Accepts :
    (o : Output) → Output.check o ≡ ok tt → Accepts read_reward_output (sized (Output.to_bytes o)) o
unfolding read_reward_output
read_reward_output-Accepts o e =
    >>=-Accepts_last _ _ (read_sized-Accepts (Output.to_bytes o) (omega (arith, length-output o e)))
      (lift-Accepts _ _ (output_from_bytes-to_bytes o e))

entries-Accept :
    (es : List FeeFloorEntry)
    → All (λ e. check_entry e ≡ ok tt) es
    → All (λ e. Accepts read_entry (entry_bytes e) e) es
entries-Accept [] h = tt
entries-Accept (e ∷ es) (he, h) = (read_entry-Accepts e he, entries-Accept es h)

outputs-Accept :
    (os : List Output)
    → All (λ o. Output.check o ≡ ok tt) os
    → All (λ o. Accepts read_reward_output (sized (Output.to_bytes o)) o) os
outputs-Accept [] h = tt
outputs-Accept (o ∷ os) (ho, h) = (read_reward_output-Accepts o ho, outputs-Accept os h)

length-map_entry : (es : List FeeFloorEntry) → length (map entry_bytes es) ≡ length es
length-map_entry [] = refl
length-map_entry (e ∷ es) = ap suc (length-map_entry es)

entry_list-Accepts :
    (es : List FeeFloorEntry)
    → All (λ e. check_entry e ≡ ok tt) es
    → length es < 2 ^ 32
    → Accepts read_entries (counted_bytes (map entry_bytes es)) es
unfolding read_entries
entry_list-Accepts es valid few = rw (length-map_entry es) (
    >>=-Accepts _ _ (read_uint-Accepts 4 (length es) (omega arith) (omega arith))
      (read_many-Accepts read_entry entry_bytes es (entries-Accept es valid)))

output_list-Accepts :
    (os : List Output)
    → All (λ o. Output.check o ≡ ok tt) os
    → length os < 2 ^ 16
    → Accepts read_reward_outputs
        (to_le 2 (length os) ++ concat (map (λ o. sized (Output.to_bytes o)) os))
        os
unfolding read_reward_outputs
output_list-Accepts os valid few =
    >>=-Accepts _ _ (read_uint-Accepts 2 (length os) (omega arith) (omega arith)) (
      read_many-Accepts read_reward_output (λ o. sized (Output.to_bytes o)) os
        (outputs-Accept os valid))

tree_bytes-Accepts :
    (bs : Bytes) → length bs ≤ 262144 → Accepts read_tree_bytes (to_le 4 (length bs) ++ bs) bs
unfolding read_tree_bytes
tree_bytes-Accepts bs small =
    >>=-Accepts _ _ (read_uint-Accepts 4 (length bs) (omega arith) (omega arith))
      (read_bytes-Accepts (length bs) bs refl (omega arith))

-- What the checks of the shape say of the widths.
record Shape (a : Anchor) : Type 0 where
  covered_ok : require_hash_tuple a.covered_fruit_hashes ≡ ok tt
  candidates_ok : require_hash_tuple a.parent_candidate_hashes ≡ ok tt
  candidates_fit : length a.parent_candidate_hashes ≤ 10000
  tree_fits : length a.shard_tree_bytes ≤ 262144
  commitment : length a.genesis_commitment ≡ 32

check_shape-Shape : (a : Anchor) → check_shape a ≡ ok tt → Shape a
unfolding check_shape
check_shape-Shape a e =
    let (covered, e₁) = >>-eq-ok (require_hash_tuple a.covered_fruit_hashes) _ e in
    let (candidates, e₂) = >>-eq-ok (require_hash_tuple a.parent_candidate_hashes) _ e₁ in
    let (few, e₃) =
      >>-eq-ok (raise_if (ltb 10000 (length a.parent_candidate_hashes)) value_error) _ e₂ in
    let (_, e₄) =
      >>-eq-ok
        (raise_if (not (same_hashes (sorted blt a.covered_fruit_hashes) a.covered_fruit_hashes))
          value_error)
        _ e₃ in
    let (tree, e₅) = >>-eq-ok (require_max_len a.shard_tree_bytes 262144) _ e₄ in
    let (_, e₆) =
      >>-eq-ok
        (raise_if (not (same_entries (sorted by_shard a.fee_floor_entries) a.fee_floor_entries))
          value_error)
        _ e₅ in
    let (_, e₇) =
      >>-eq-ok (raise_if (not (no_duplicates (map entry_shard a.fee_floor_entries))) value_error) _
        e₆ in
    let (size, _) = >>-eq-ok (require_hash a.genesis_commitment) _ e₇ in
    record {
      covered_ok = covered;
      candidates_ok = candidates;
      candidates_fit = ground (arith, few);
      tree_fits = require_max_len-eq-ok a.shard_tree_bytes 262144 tree;
      commitment = require_hash-eq-ok a.genesis_commitment size;
    }

-- The bytes of an anchor whose counts fit.
abbrev layout : Anchor → Bytes
layout a =
    sized (Header.serialize a.header)
    ++ (counted_bytes a.covered_fruit_hashes
        ++ (counted_bytes a.parent_candidate_hashes
            ++ ((to_le 4 (length a.shard_tree_bytes) ++ a.shard_tree_bytes)
                ++ (counted_bytes (map entry_bytes a.fee_floor_entries)
                    ++ ((to_le 2 (length a.anchor_reward_outputs)
                          ++ concat (map (λ o. sized (Output.to_bytes o)) a.anchor_reward_outputs))
                        ++ a.genesis_commitment)))))

serialize-layout : (a : Anchor) → Holds a → Shape a → serialize a ≡ ok (layout a)
unfolding serialize
serialize-layout a h s =
    rw
      (
        counted_fits a.covered_fruit_hashes h.covered_fit,
        counted_fits a.parent_candidate_hashes (omega (arith, s.candidates_fit)),
        int_to_bytes_fits 4 (length a.shard_tree_bytes) (omega (arith, s.tree_fits)),
        counted_fits (map entry_bytes a.fee_floor_entries)
            (omega (arith, length-map_entry a.fee_floor_entries, h.entries_fit)),
        int_to_bytes_fits 2 (length a.anchor_reward_outputs) (omega (arith, h.outputs_fit)),
      )
      refl

read_fields-Accepts : (a : Anchor) → Holds a → Shape a → Accepts read_fields (layout a) a
unfolding read_fields
read_fields-Accepts a h s =
    >>=-Accepts _ _
      (read_sized-Accepts (Header.serialize a.header)
        (omega (arith, length-serialize a.header h.header_ok)))
      (>>=-Accepts _ _ (lift-Accepts _ a.header (anchor_deserialize-serialize a.header h.header_ok))
        (>>=-Accepts _ _ (read_hashes-Accepts a.covered_fruit_hashes s.covered_ok h.covered_fit) (
          >>=-Accepts _ _
            (read_hashes-Accepts a.parent_candidate_hashes s.candidates_ok
              (omega (arith, s.candidates_fit)))
            (>>=-Accepts _ _ (tree_bytes-Accepts a.shard_tree_bytes s.tree_fits) (
              >>=-Accepts _ _ (entry_list-Accepts a.fee_floor_entries h.entries_ok h.entries_fit) (
                >>=-Accepts _ _
                  (output_list-Accepts a.anchor_reward_outputs h.outputs_ok h.outputs_fit)
                  (>>=-Accepts_last _ _
                    (read_bytes-Accepts 32 a.genesis_commitment s.commitment (omega arith))
                    (pure-Accepts a))))))))

-- An anchor that the constructor accepts is serialized, and read back from its serialization, where
-- the parts are what their constructors accept and the lists fit the counts in front of them.
pub anchor_body_deserialize-serialize :
    (p : Primitives) (a : Anchor)
    → Holds a
    → check p a ≡ ok tt
    → (bs : Bytes) × (serialize a ≡ ok bs) × (deserialize p bs ≡ ok a)
unfolding deserialize as_reader_error as_block_error check
anchor_body_deserialize-serialize p a h made =
    let (shape, roots) = >>-eq-ok (check_shape a) _ made in
    let fits = check_shape-Shape a shape in
    let accepted = read_fields-Accepts a h fits in
    (
      layout a,
      serialize-layout a h fits,
      rw (read_all-Accepts read_fields accepted, shape, roots) refl,
    )
