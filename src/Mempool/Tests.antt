-- ===== src/Mempool/Tests.antt =====
-- The theorems on mempools at concrete inputs.
use tensor_po_w.Mempool.ShardTreeTests.{one_leaf}
use tensor_po_w.Mempool.Pool.Adding.{check_shard, add_decoded, admit, Request, put_entry, add_tx}
use tensor_po_w.Mempool.Pool.Fees.{
  window_rate, fee_rate, fee_floor, recent_fee_rate, calculate_next_fee_floor,
  calculate_next_fee_floor-between,
}
use tensor_po_w.Base.Dict.{without, lookup, nat_eq, member}
use tensor_po_w.Mempool.Pool.ByShard.{ByShard}
use tensor_po_w.Mempool.Pool.ByShard.Reachable.{Reachable-ByShard}
use tensor_po_w.Mempool.Pool.Selection.{eligible, choose, chosen, select_for_fruit, entry_tx}
use tensor_po_w.Mempool.Pool.Selection.Division.{IsSelection, pending, select_for_fruit_lem}
use tensor_po_w.Script.Template.{
  verify_multisig_template, verify_inner_template, verify_hashlock, validate_with, validate_shape,
  try_template, require_template_id, pubkey_hash, infer_inner_template_id, verify_pkh,
  verify_witness, require_sig_type, validate_template_payload, verify_with, verify_template,
  verify_utxo_spend, check_locks,
}
use tensor_po_w.Script.Multisig.{
  verify_ordered_multisig, require_distinct_multisig_keys, parse_multisig_payload, next_match,
  verify_signature_bytes,
}
use tensor_po_w.Mempool.Pool.Spends.{
  output_sum, assess_fee, assess_input, assess_inputs, decode_canonical_tx, same_tx, same_inputs,
  same_outputs, same_output, assess_spends, Assessment, Submission,
}
use tensor_po_w.Crypto.Signatures.{verify_by_sig_type, verify, load_public_key}
use tensor_po_w.Base.Bytes.{distinct, contains, chunks_fuel, chunks, beq, Bytes, from_le, to_le}
use tensor_po_w.Mempool.ShardTree.Ids.{decode_shard_id, require_shard_id}
use tensor_po_w.Base.Sorted.{sorted}
use tensor_po_w.Base.{
  ℕ, ◌≡◌, refl, [], ◌∷◌, List, ok, true, false, replicate, if◌then◌else◌, length, ◌++◌, none, some,
  min, max, ◌≤◌, map, arith,
}
use tensor_po_w.Crypto.Hash.{domain_hash}
use tensor_po_w.Crypto.Toy.{toy}
use tensor_po_w.State.Outpoint.{Outpoint}
use tensor_po_w.State.Utxo.{Utxo}
use tensor_po_w.State.UtxoSet.{same}
use tensor_po_w.Tx.Decode.{read_input, read_output, read_fields, from_bytes, decode}
use tensor_po_w.Tx.Reader.{
  read_all, read_uint, read_bytes, read_many, read_sized, finish, as_decode_error,
}
use tensor_po_w.Tx.Payload.{require_template_payload}
use tensor_po_w.Mempool.ShardTree.Tree.{find_leaf, route_tx}
use tensor_po_w.Mempool.Pool.{check_entry, Mempool, Entry, View, accept, get_entry}
use tensor_po_w.Tx.Transaction.{Transaction, tx_id, sighash_preimage}
use tensor_po_w.Mempool.Pool.Marks.{spends}
use tensor_po_w.Mempool.Pool.Reachable.{Reachable, pending-disjoint}
use tensor_po_w.Tx.Input
use tensor_po_w.Tx.Output
use tensor_po_w.State.Outpoint
use tensor_po_w.Tx.Transaction
use tensor_po_w.Mempool.Pool

-- An output of 500 matoms that the key of 32 ones owns, and the view that holds it.
abbrev public_key : Bytes
public_key = replicate 32 1

abbrev owned : Utxo
owned = record {
  outpoint = record { tx_id = replicate 32 7; output_index = 3 };
  amount_matoms = 500;
  template_id = 0;
  owner_pubkey_hash = replicate 32 173;
  locktime_ms = 0;
  lockheight = 0;
  payload = replicate 32 173;
}

abbrev view : View
view o = if same o owned.outpoint then some owned else none

-- The spending of that output. The first byte of the signature is the checksum of the message, as
-- the toy scheme has it.
abbrev signed : Transaction
signed = record {
  version = 0;
  sig_type = 0;
  locktime_ms = 0;
  lockheight = 0;
  inputs =
      record {
        previous_outpoint = owned.outpoint;
        sequence = 0xffff_ffff;
        witness = replicate 64 5 ++ public_key;
      }
      ∷ [];
  outputs =
      record {
        amount_matoms = 400;
        template_id = 0;
        locktime_ms = 0;
        lockheight = 0;
        payload = replicate 32 5;
      }
      ∷ [];
}

abbrev signed_id : Bytes
signed_id = replicate 32 119

abbrev pool : Mempool
pool = Pool.empty one_leaf (some view)

abbrev request : Request
request = record {
  submitted = Submission.transaction signed;
  requested_shard = none;
  request_view = none;
  current_time_ms = 0;
  current_height = 0;
}

-- Its 221 bytes pay 100 matoms.
abbrev signed_entry : Entry
signed_entry = record {
  tx = signed;
  entry_id = signed_id;
  shard_id = 0;
  tx_size_bytes = 221;
  fee_matoms = 100;
  fee_rate_matoms_per_kb = 452;
  is_coinbase = false;
}

abbrev filled : Mempool
filled = put_entry pool signed_entry

signed-tx_id : tx_id toy signed ≡ signed_id
unfolding tx_id Transaction.to_bytes Input.to_bytes Output.to_bytes Outpoint.to_bytes to_le
    domain_hash
signed-tx_id = refl

signed-size : length (Transaction.to_bytes signed) ≡ 221
unfolding Transaction.to_bytes Input.to_bytes Output.to_bytes Outpoint.to_bytes to_le
signed-size = refl

signed-decoded :
    decode_canonical_tx (Submission.transaction signed) ≡ some (signed, Transaction.to_bytes signed)
unfolding decode_canonical_tx from_bytes decode as_decode_error read_all read_fields read_uint
    read_bytes read_many read_sized finish read_input read_output Transaction.new Transaction.check
    Transaction.to_bytes Input.new Input.check Input.to_bytes Output.new Output.check
    Output.to_bytes Outpoint.new Outpoint.from_bytes Outpoint.to_bytes require_template_payload
    to_le from_le beq same_tx same_inputs same_outputs same_output same
signed-decoded = refl

signed-assessed :
    assess_spends toy [] signed 221 (some view) 0 0 ≡ ok (Assessment.spendable 100 452)
unfolding assess_spends check_locks assess_inputs member lookup assess_input same beq
    Transaction.sighash verify_utxo_spend verify_template verify_with validate_template_payload
    require_sig_type verify_witness verify_pkh domain_hash verify_signature_bytes chunks chunks_fuel
    contains distinct from_le to_le load_public_key verify verify_by_sig_type fee_rate assess_fee
    output_sum next_match parse_multisig_payload require_distinct_multisig_keys
    verify_ordered_multisig infer_inner_template_id pubkey_hash require_template_id try_template
    validate_shape validate_with verify_hashlock verify_inner_template verify_multisig_template
    Outpoint.to_bytes Output.to_bytes Transaction.bare_bytes sighash_preimage
signed-assessed = refl

signed-routed : route_tx one_leaf signed_id ≡ ok 0
unfolding route_tx find_leaf decode_shard_id require_shard_id from_le
signed-routed = refl

signed-floor : fee_floor pool 0 ≡ ok 0
unfolding fee_floor require_shard_id lookup
signed-floor = refl

signed_entry-check : check_entry toy signed_entry ≡ ok tt
unfolding check_entry require_shard_id beq
signed_entry-check = rw signed-tx_id refl

signed-admitted :
    admit toy pool signed 221 0 (Assessment.spendable 100 452)
    ≡ ok (accept signed_id 0 100 452, filled)
unfolding admit
signed-admitted = rw (signed-tx_id, signed-floor, signed_entry-check) refl

signed-added :
    add_decoded toy pool request signed (Transaction.to_bytes signed)
    ≡ ok (accept signed_id 0 100 452, filled)
unfolding add_decoded check_shard lookup
signed-added = rw (signed-tx_id, signed-size, signed-routed, signed-assessed, signed-admitted) refl

signed_added : add_tx toy pool request ≡ ok (accept signed_id 0 100 452, filled)
unfolding add_tx
signed_added = rw (signed-decoded, add_tx) signed-added

filled-Reachable : Reachable toy filled
filled-Reachable =
    Reachable.tx_added request (Reachable.new_mempool one_leaf (some view)) signed_added

filled-get : get_entry filled signed_id ≡ some signed_entry
unfolding get_entry lookup put_entry beq
filled-get = refl

filled-spends : spends owned.outpoint signed.inputs ≡ true
unfolding spends same beq
filled-spends = refl

pending-disjoint_example : signed_id ≡ signed_id
pending-disjoint_example =
    pending-disjoint toy signed_id signed_id signed_entry signed_entry owned.outpoint
      filled-Reachable filled-get filled-get filled-spends filled-spends

Reachable-ByShard_example : ByShard filled
Reachable-ByShard_example = Reachable-ByShard toy filled-Reachable

filled-selected : select_for_fruit filled 0 8192 ≡ ok (signed ∷ [])
unfolding select_for_fruit require_shard_id fee_floor chosen choose sorted eligible lookup put_entry
    without
filled-selected = refl

root-required : require_shard_id 0 ≡ ok 0
unfolding require_shard_id
root-required = refl

select_for_fruit_lem_example :
    (floor : ℕ) × (fee_floor filled 0 ≡ ok floor)
    × (es : List Entry) × (select_for_fruit filled 0 8192 ≡ ok (map entry_tx es))
    × IsSelection floor 8192 (pending filled 0) es
select_for_fruit_lem_example = select_for_fruit_lem filled 0 8192 root-required (omega arith)

floor_of_root : fee_floor filled 0 ≡ ok 0
unfolding fee_floor require_shard_id lookup put_entry
floor_of_root = refl

rate_of_root : recent_fee_rate filled 0 ≡ ok 0
unfolding recent_fee_rate require_shard_id window_rate lookup put_entry
rate_of_root = refl

calculate_next_fee_floor-between_example :
    (next_floor : ℕ) × (calculate_next_fee_floor filled 0 none ≡ ok next_floor)
    × (min 0 0 ≤ next_floor)
    × (next_floor ≤ max 0 0)
calculate_next_fee_floor-between_example =
    calculate_next_fee_floor-between filled 0 0 0 floor_of_root rate_of_root
