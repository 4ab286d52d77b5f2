-- ===== src/State/UtxoSet.antt =====
-- The set of unspent outputs of src/tensorpow/state/utxo.py without its Merkle proofs. A dict and a
-- set are association lists and lists: their order is never read.
use tensor_po_w.Base.{
  ℕ, not, ◌==◌, ◌&&◌, ◌||◌, Bool, true, false, List, [], ◌∷◌, Option, none, some, ◌≡◌, refl,
}
use tensor_po_w.Base.{
  Result, ok, err, key_error, value_error, raise_if, ◌>>◌, ◌>>=◌, if◌then◌else◌, length,
}
use tensor_po_w.Base.{and_true, ap₂, ==_iff, ◌↔◌, arith}
use tensor_po_w.Base.Bytes.{Bytes, beq, beq→eq, beq_refl}
use tensor_po_w.Base.Dict.{Eq, bytes_eq, lookup, without, assign, member, discard, is_some}
use tensor_po_w.Crypto.Primitives.{Primitives}
use tensor_po_w.Base.Sorted.{blt, sorted}
use tensor_po_w.Checks.{require_hash}
use tensor_po_w.State.Outpoint.{Outpoint, to_bytes}
use tensor_po_w.State.Utxo.{Utxo, outpoint_key}
pub mod Laws
pub mod Owners
pub mod Consistent
pub mod Reachable
pub mod ByOwner

-- `==` between two outpoints.
unfoldable pub same : Outpoint → Outpoint → Bool
same a b = beq a.tx_id b.tx_id && (a.output_index == b.output_index)

same→eq : (a b : Outpoint) → same a b ≡ true → a ≡ b
unfolding same
same→eq a b h =
    let (ids, indices) = and_true (beq a.tx_id b.tx_id) (a.output_index == b.output_index) h in
    ap₂ (λ t i. record { tx_id = t; output_index = i }) (beq→eq a.tx_id b.tx_id ids)
      ((==_iff a.output_index b.output_index).0 indices)

pub same_iff : (a b : Outpoint) → (same a b ≡ true) ↔ (a ≡ b)
unfolding same
same_iff a b = (same→eq a b, λ e. rw e (ground (arith, beq_refl b.tx_id)))

instance abbrev pub outpoint_eq : Eq Outpoint
outpoint_eq = record { eq = same; eq_iff = same_iff }

pub record UtxoSet : Type 0 where
  pub utxos : List (Outpoint × Utxo)
  pub outpoint_by_key : List (Bytes × Outpoint)
  pub outpoints_by_owner : List (Bytes × List Outpoint)
  pub items_cache : Option (List (ℕ × Bytes × Bytes))
  pub key_ints_cache : Option (List ℕ)
  pub subtree_cache : List ((ℕ × ℕ) × Bytes)

-- `_invalidate_merkle_cache`
abbrev pub invalidate_merkle_cache : UtxoSet → UtxoSet
invalidate_merkle_cache s = record s {
  items_cache = none;
  key_ints_cache = none;
  subtree_cache = [];
}

-- `UTXOSet()`
abbrev pub empty : UtxoSet
empty = record {
  utxos = [];
  outpoint_by_key = [];
  outpoints_by_owner = [];
  items_cache = none;
  key_ints_cache = none;
  subtree_cache = [];
}

-- `get`
unfoldable pub get : UtxoSet → Outpoint → Option Utxo
get s o = lookup o s.utxos

-- `contains`
unfoldable pub holds : UtxoSet → Outpoint → Bool
unfolding get
holds s o = is_some (get s o)

-- `setdefault(owner, set()).add(outpoint)`
unfoldable pub add_owner :
    Bytes → Outpoint → List (Bytes × List Outpoint) → List (Bytes × List Outpoint)
add_owner owner o owners = elim (lookup owner owners) [
  | none ↦ (owner, o ∷ []) ∷ owners
  | some os ↦ assign owner (if member o os then os else o ∷ os) owners
]

-- `if not owner_outpoints: del self._outpoints_by_owner[owner]`, for the owner's new set.
unfoldable pub store_owner :
    Bytes → List Outpoint → List (Bytes × List Outpoint) → List (Bytes × List Outpoint)
store_owner owner [] owners = without owner owners
store_owner owner (o ∷ os) owners = assign owner (o ∷ os) owners

-- The rest of `remove` for the owner's set.
unfoldable pub remove_owner :
    Bytes → Outpoint → List (Bytes × List Outpoint) → Result (List (Bytes × List Outpoint))
remove_owner owner o owners = elim (lookup owner owners) [
  | none ↦ err key_error
  | some os ↦ if member o os then ok (store_owner owner (discard o os) owners) else err key_error
]

module _ (p : Primitives) where
  -- `add`
  unfoldable pub add : UtxoSet → Utxo → Result UtxoSet
  unfolding get
  add s u = do
    raise_if (is_some (get s u.outpoint)) key_error
    raise_if (is_some (lookup (outpoint_key p u) s.outpoint_by_key)) value_error
    ok (
        invalidate_merkle_cache (record s {
          utxos = (u.outpoint, u) ∷ s.utxos;
          outpoint_by_key = (outpoint_key p u, u.outpoint) ∷ s.outpoint_by_key;
          outpoints_by_owner = add_owner u.owner_pubkey_hash u.outpoint s.outpoints_by_owner;
        }))

  -- `remove` of an outpoint whose output is `u`.
  unfoldable pub remove_found : UtxoSet → Outpoint → Utxo → Result (Utxo × UtxoSet)
  remove_found s o u = do
    raise_if (not (is_some (lookup (outpoint_key p u) s.outpoint_by_key))) key_error
    owners ← remove_owner u.owner_pubkey_hash o s.outpoints_by_owner
    ok (
      u,
      invalidate_merkle_cache (record s {
        utxos = without o s.utxos;
        outpoint_by_key = without (outpoint_key p u) s.outpoint_by_key;
        outpoints_by_owner = owners;
      }),
    )

  -- `remove`
  unfoldable pub remove : UtxoSet → Outpoint → Result (Utxo × UtxoSet)
  unfolding get remove_found
  remove s o = elim (get s o) [ none ↦ err key_error | some u ↦ remove_found s o u ]

-- The order of `outpoint.to_bytes()`.
unfoldable pub earlier : Utxo → Utxo → Bool
unfolding blt
earlier a b = blt (to_bytes a.outpoint) (to_bytes b.outpoint)

-- `tuple(self._utxos[outpoint] for outpoint in outpoints)`
unfoldable pub get_all : UtxoSet → List Outpoint → Result (List Utxo)
get_all s [] = ok []
get_all s (o ∷ os) = elim (get s o) [
  | none ↦ err key_error
  | some u ↦ get_all s os >>= λ us. ok (u ∷ us)
]

-- `by_owner`
unfoldable pub by_owner : UtxoSet → Bytes → Result (List Utxo)
unfolding get_all
by_owner s owner_pubkey_hash = do
  require_hash owner_pubkey_hash
  elim (lookup owner_pubkey_hash s.outpoints_by_owner) [
    | none ↦ ok []
    | some outpoints ↦ get_all s outpoints >>= λ us. ok (sorted earlier us)
  ]
