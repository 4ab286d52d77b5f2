-- ===== src/State/UtxoSet/Consistent.antt =====
-- When the three indices of a set of unspent outputs agree.
pub mod Adding
pub mod Removing
use tensor_po_w.Base.{
  Bool, true, false, not, List, [], ◌∷◌, Option, none, some, Result, ok, err, ◌≡◌, refl, sym, ap,
  ◌∙◌,
}
use tensor_po_w.Base.{
  if◌then◌else◌, Bool-cases, Option-cases, inl, inr, arith, ok-injective, eq_of_some, ◌⊎◌,
  key_error, value_error,
}
use tensor_po_w.Base.{raise_if, raise_if-eq-ok, >>-eq-ok, >>=-eq-ok, ◌>>=◌, ◌>>◌}
use tensor_po_w.Base.Bytes.{Bytes, beq, beq→eq, beq_refl}
use tensor_po_w.Base.Dict.{
  Eq, bytes_eq, lookup, without, eq_refl, is_some, none_of_is_some, lookup-cons,
}
use tensor_po_w.Base.Dict.{lookup-without, lookup-without_other, lookup-without_self}
use tensor_po_w.Crypto.Primitives.{Primitives}
use tensor_po_w.State.Outpoint.{Outpoint}
use tensor_po_w.State.Utxo.{Utxo, outpoint_key}
use tensor_po_w.State.UtxoSet.{
  UtxoSet, same, same_iff, outpoint_eq, get, empty, add, remove, remove_found,
}
use tensor_po_w.State.UtxoSet.{add_owner, remove_owner}
use tensor_po_w.State.UtxoSet.Laws.{add-get, remove-get}
use tensor_po_w.State.UtxoSet.Owners.{
  owner_has, owner_has-add_owner, owner_has-remove_owner, remove_owner-ok,
}

module _ (p : Primitives) where
  -- What the indices by key and by owner say of the outputs that are present.
  pub record Consistent (s : UtxoSet) : Type 0 where
    pub keyed :
        (o : Outpoint) (u : Utxo)
        → get s o ≡ some u
        → (u.outpoint ≡ o) × (lookup (outpoint_key p u) s.outpoint_by_key ≡ some o)
    pub owned :
        (o : Outpoint) (u : Utxo)
        → get s o ≡ some u
        → owner_has s.outpoints_by_owner u.owner_pubkey_hash o ≡ true
    pub listed :
        (w : Bytes) (o : Outpoint)
        → owner_has s.outpoints_by_owner w o ≡ true
        → (u : Utxo) × (get s o ≡ some u) × (u.owner_pubkey_hash ≡ w)
    pub backed :
        (k : Bytes) (o : Outpoint)
        → lookup k s.outpoint_by_key ≡ some o
        → (u : Utxo) × (get s o ≡ some u) × (outpoint_key p u ≡ k)

  pub empty-Consistent : Consistent empty
  unfolding get lookup owner_has
  empty-Consistent = record {
    keyed = λ o u e. cc;
    owned = λ o u e. cc;
    listed = λ w o e. cc;
    backed = λ k o e. cc;
  }
