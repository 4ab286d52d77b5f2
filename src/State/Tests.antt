-- ===== src/State/Tests.antt =====
-- The theorems on unspent outputs at a concrete input.
use tensor_po_w.Base.{
  ◌≡◌, refl, [], ◌∷◌, ok, none, some, replicate, Option, arith, true, false, List, All,
}
use tensor_po_w.Base.Bytes.{Bytes, IsBytes, to_le, beq}
use tensor_po_w.Crypto.Toy.{toy}
use tensor_po_w.State.Outpoint.{Outpoint}
use tensor_po_w.State.UtxoSet.{
  UtxoSet, same, outpoint_eq, get, empty, add, remove, remove_found, add_owner, remove_owner,
  by_owner, store_owner,
}
use tensor_po_w.Base.Dict.{bytes_eq, lookup, without, member, discard}
use tensor_po_w.State.UtxoSet.Consistent.{Consistent}
use tensor_po_w.State.UtxoSet.Reachable.{Reachable, Reachable-Consistent, remove-succeeds}
use tensor_po_w.State.UtxoSet.ByOwner.{IsOwned, has_outpoint, by_owner_lem}
use tensor_po_w.State.UtxoSet.Laws.{add-get, remove-get}
use tensor_po_w.Crypto.Hash.{domain_hash}
use tensor_po_w.State.Utxo.{Utxo, check, to_bytes, from_bytes, outpoint_key}
use tensor_po_w.State.Utxo.Codec.{IsValid, utxo_from_bytes-to_bytes, utxo_from_bytes-eq-ok}
use tensor_po_w.State.Outpoint

abbrev pub utxo : Utxo
utxo = record {
  outpoint = record { tx_id = replicate 32 7; output_index = 3 };
  amount_matoms = 500;
  template_id = 0;
  owner_pubkey_hash = replicate 32 5;
  locktime_ms = 0;
  lockheight = 9;
  payload = replicate 32 5;
}

utxo-check : check utxo ≡ ok tt
unfolding check
utxo-check = refl

utxo-IsValid : IsValid utxo
utxo-IsValid = record {
  outpoint_valid = record { tx_id_length = refl; index_fits = omega arith };
  checked = utxo-check;
}

utxo_from_bytes-to_bytes_example :
    (from_bytes toy (to_bytes utxo) none ≡ ok utxo)
    × (from_bytes toy (to_bytes utxo) (some (outpoint_key toy utxo)) ≡ ok utxo)
utxo_from_bytes-to_bytes_example = utxo_from_bytes-to_bytes toy utxo utxo-IsValid

encoded-IsBytes : IsBytes (to_bytes utxo)
unfolding to_bytes Outpoint.to_bytes to_le
encoded-IsBytes = omega arith

utxo_from_bytes-eq-ok_example :
    IsValid utxo
    × (to_bytes utxo ≡ to_bytes utxo)
    × ((k : Bytes) → ◌≡◌ {A = Option Bytes} none (some k) → outpoint_key toy utxo ≡ k)
utxo_from_bytes-eq-ok_example =
    utxo_from_bytes-eq-ok toy (to_bytes utxo) none encoded-IsBytes
      utxo_from_bytes-to_bytes_example.0

-- The set with that output, and the set without it again.
abbrev pub one_utxo : UtxoSet
one_utxo = record {
  utxos = (utxo.outpoint, utxo) ∷ [];
  outpoint_by_key = (outpoint_key toy utxo, utxo.outpoint) ∷ [];
  outpoints_by_owner = (utxo.owner_pubkey_hash, utxo.outpoint ∷ []) ∷ [];
  items_cache = none;
  key_ints_cache = none;
  subtree_cache = [];
}

added : add toy empty utxo ≡ ok one_utxo
unfolding add get lookup add_owner
added = refl

add-get_example :
    (get empty utxo.outpoint ≡ none)
    × (get one_utxo utxo.outpoint ≡ some utxo)
    × ((o : Outpoint) → same o utxo.outpoint ≡ false → get one_utxo o ≡ get empty o)
add-get_example = add-get toy empty utxo added

removed : remove toy one_utxo utxo.outpoint ≡ ok (utxo, empty)
unfolding remove remove_found get lookup without remove_owner store_owner member discard same beq
    domain_hash to_bytes Outpoint.key Outpoint.to_bytes to_le
removed = refl

remove-get_example :
    (get one_utxo utxo.outpoint ≡ some utxo)
    × (get empty utxo.outpoint ≡ none)
    × ((o : Outpoint) → same o utxo.outpoint ≡ false → get empty o ≡ get one_utxo o)
remove-get_example = remove-get toy one_utxo utxo.outpoint removed

one_utxo-Reachable : Reachable toy one_utxo
one_utxo-Reachable = Reachable.added utxo Reachable.start added

Reachable-Consistent_example : Consistent toy one_utxo
Reachable-Consistent_example = Reachable-Consistent toy one_utxo-Reachable

one_utxo-get : get one_utxo utxo.outpoint ≡ some utxo
unfolding get lookup same beq
one_utxo-get = refl

remove-succeeds_example : (s : UtxoSet) × (remove toy one_utxo utxo.outpoint ≡ ok (utxo, s))
remove-succeeds_example = remove-succeeds toy utxo.outpoint utxo one_utxo-Reachable one_utxo-get

by_owner_lem_example :
    (us : List Utxo) × (by_owner one_utxo (replicate 32 5) ≡ ok us)
    × All (IsOwned one_utxo (replicate 32 5)) us
    × ((u : Utxo) → IsOwned one_utxo (replicate 32 5) u → has_outpoint u.outpoint us ≡ true)
by_owner_lem_example = by_owner_lem toy one_utxo (replicate 32 5) one_utxo-Reachable refl
