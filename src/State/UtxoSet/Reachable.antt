-- ===== src/State/UtxoSet/Reachable.antt =====
-- The sets of unspent outputs that calls of `add` and `remove` reach.
use tensor_po_w.Base.{some, ok, ◌≡◌, refl}
use tensor_po_w.Base.Dict.{bytes_eq, without}
use tensor_po_w.Crypto.Primitives.{Primitives}
use tensor_po_w.State.Outpoint.{Outpoint}
use tensor_po_w.State.Utxo.{Utxo, outpoint_key}
use tensor_po_w.State.UtxoSet.{UtxoSet, outpoint_eq, get, empty, add, remove, remove_found}
use tensor_po_w.State.UtxoSet.Owners.{remove_owner-ok}
use tensor_po_w.State.UtxoSet.{invalidate_merkle_cache}
use tensor_po_w.State.UtxoSet.Consistent.{Consistent, empty-Consistent}
use tensor_po_w.State.UtxoSet.Consistent.Adding.{add-Consistent}
use tensor_po_w.State.UtxoSet.Consistent.Removing.{remove-Consistent}

module _ (p : Primitives) where
  -- The sets that calls of `add` and `remove` reach from the empty set.
  pub data Reachable : UtxoSet → Type 0 where
    start : Reachable empty
    added : {s s' : UtxoSet} (u : Utxo) → Reachable s → add p s u ≡ ok s' → Reachable s'
    removed :
        {s s' : UtxoSet} {u : Utxo} (o : Outpoint)
        → Reachable s
        → remove p s o ≡ ok (u, s')
        → Reachable s'

  -- In every reachable set the three indices agree: an output stands under its own outpoint, its
  -- Merkle key leads to that outpoint, and its owner's set holds the outpoint; what an owner's set
  -- holds is present and of that owner; and every Merkle key in its index is the key of the present
  -- output at the outpoint that it leads to.
  pub Reachable-Consistent : {s : UtxoSet} → Reachable s → Consistent p s
  Reachable-Consistent start = empty-Consistent p
  Reachable-Consistent (added {s} u r e) = add-Consistent p s u (Reachable-Consistent r) e
  Reachable-Consistent (removed {s} o r e) = remove-Consistent p s o (Reachable-Consistent r) e

  -- In a reachable set the removal of a present outpoint succeeds and returns its output: the
  -- deletions from the two other indices never raise KeyError.
  pub remove-succeeds :
      {s : UtxoSet} (o : Outpoint) (u : Utxo)
      → Reachable s
      → get s o ≡ some u
      → (s' : UtxoSet) × (remove p s o ≡ ok (u, s'))
  unfolding remove remove_found
  remove-succeeds {s} o u r present =
      let c = Reachable-Consistent r in
      let (_, key) = c.keyed o u present in
      let (owners, found) =
        remove_owner-ok s.outpoints_by_owner u.owner_pubkey_hash o (c.owned o u present) in
      (
        invalidate_merkle_cache (record s {
          utxos = without o s.utxos;
          outpoint_by_key = without (outpoint_key p u) s.outpoint_by_key;
          outpoints_by_owner = owners;
        }),
        rw (present, remove, key, found) refl,
      )
