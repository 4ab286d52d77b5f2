-- ===== src/State/UtxoSet/Consistent/Adding.antt =====
-- `add` keeps the indices of a set of unspent outputs in agreement.
use tensor_po_w.Base.{true, false, ◌∷◌, none, some, ok, ◌≡◌, refl, sym, ap}
use tensor_po_w.Base.{
  if◌then◌else◌, Bool-cases, inl, inr, arith, ok-injective, eq_of_some, ◌⊎◌, key_error, value_error,
}
use tensor_po_w.Base.{raise_if, raise_if-eq-ok, >>-eq-ok}
use tensor_po_w.Base.Bytes.{Bytes, beq, beq→eq}
use tensor_po_w.Base.Dict.{bytes_eq, lookup, eq_refl, is_some, none_of_is_some, lookup-cons}
use tensor_po_w.Crypto.Primitives.{Primitives}
use tensor_po_w.State.Outpoint.{Outpoint}
use tensor_po_w.State.Utxo.{Utxo, outpoint_key}
use tensor_po_w.State.UtxoSet.{UtxoSet, same, same_iff, outpoint_eq, get, add}
use tensor_po_w.State.UtxoSet.{add_owner}
use tensor_po_w.State.UtxoSet.Owners.{owner_has, owner_has-add_owner}
use tensor_po_w.State.UtxoSet.Consistent.{Consistent}

module _ (p : Primitives) where
  -- What a successful `add` found and made.
  record Added (s : UtxoSet) (u : Utxo) (s' : UtxoSet) : Type 0 where
    absent : get s u.outpoint ≡ none
    unkeyed : lookup (outpoint_key p u) s.outpoint_by_key ≡ none
    found : (o : Outpoint) → get s' o ≡ (if same o u.outpoint then some u else get s o)
    keys : s'.outpoint_by_key ≡ (outpoint_key p u, u.outpoint) ∷ s.outpoint_by_key
    owners : s'.outpoints_by_owner ≡ add_owner u.owner_pubkey_hash u.outpoint s.outpoints_by_owner

  add-Added : (s : UtxoSet) (u : Utxo) {s' : UtxoSet} → add p s u ≡ ok s' → Added s u s'
  unfolding add get
  add-Added s u {s'} e =
      let (absent, e₁) = >>-eq-ok (raise_if (is_some (get s u.outpoint)) key_error) _ e in
      let (unkeyed, e₂) =
        >>-eq-ok (raise_if (is_some (lookup (outpoint_key p u) s.outpoint_by_key)) value_error) _
          e₁ in
      let made = ok-injective e₂ in
      record {
        absent = none_of_is_some _ (raise_if-eq-ok _ key_error absent);
        unkeyed = none_of_is_some _ (raise_if-eq-ok _ value_error unkeyed);
        found = λ o. rw (← made) (lookup-cons o u.outpoint u s.utxos);
        keys = rw (← made) refl;
        owners = rw (← made) refl;
      }

  module _ (s : UtxoSet) (u : Utxo) {s' : UtxoSet} (c : Consistent p s) (a : Added s u s') where
    -- An output that is present afterwards is the new one, or was present before.
    added_or_old :
        (o : Outpoint) (v : Utxo)
        → get s' o ≡ some v
        → ((same o u.outpoint ≡ true) × (u ≡ v))
          ⊎ ((same o u.outpoint ≡ false) × (get s o ≡ some v))
    added_or_old o v h = elim (Bool-cases (same o u.outpoint)) [
      | inl here ↦ inl (here, eq_of_some (rw (a.found o, here) at h))
      | inr other ↦ inr (other, rw (a.found o, other) at h)
    ]

    added_keyed :
        (o : Outpoint) (v : Utxo)
        → get s' o ≡ some v
        → (v.outpoint ≡ o) × (lookup (outpoint_key p v) s'.outpoint_by_key ≡ some o)
    added_keyed o v h = elim (added_or_old o v h) [
      | inl (here, new) ↦
          let place : u.outpoint ≡ o = sym ((same_iff o u.outpoint).0 here) in
          rw (← new) (
            place,
            rw
                (
                  a.keys,
                  lookup-cons (outpoint_key p u) (outpoint_key p u) u.outpoint s.outpoint_by_key,
                  eq_refl (outpoint_key p u),
                )
                (ap some place),
          )
      | inr (other, old) ↦
          let (place, key) = c.keyed o v old in
          let apart : beq (outpoint_key p v) (outpoint_key p u) ≡ false =
            elim (Bool-cases (beq (outpoint_key p v) (outpoint_key p u))) [
              | inr differ ↦ differ
              | inl equal ↦
                  cc (rw (beq→eq (outpoint_key p v) (outpoint_key p u) equal) at key, a.unkeyed)
            ] in
          (
            place,
            rw
                (
                  a.keys,
                  lookup-cons (outpoint_key p v) (outpoint_key p u) u.outpoint s.outpoint_by_key,
                  apart,
                )
                key,
          )
    ]

    added_owned :
        (o : Outpoint) (v : Utxo)
        → get s' o ≡ some v
        → owner_has s'.outpoints_by_owner v.owner_pubkey_hash o ≡ true
    added_owned o v h =
        rw
          (
            a.owners,
            owner_has-add_owner s.outpoints_by_owner u.owner_pubkey_hash v.owner_pubkey_hash
                u.outpoint o,
          )
          (elim (added_or_old o v h) [
            | inl (here, new) ↦ rw (← new, eq_refl u.owner_pubkey_hash, here) refl
            | inr (other, old) ↦ rw (other, c.owned o v old) (ground arith)
          ])

    added_listed :
        (w : Bytes) (o : Outpoint)
        → owner_has s'.outpoints_by_owner w o ≡ true
        → (v : Utxo) × (get s' o ≡ some v) × (v.owner_pubkey_hash ≡ w)
    added_listed w o h =
        let has =
          rw (a.owners, owner_has-add_owner s.outpoints_by_owner u.owner_pubkey_hash w u.outpoint o)
            at h in
        elim (Bool-cases (same o u.outpoint)) [
          | inr other ↦
              let before : owner_has s.outpoints_by_owner w o ≡ true =
                ground (arith, rw other at has) in
              let (v, found, owner) = c.listed w o before in (v, rw (a.found o, other) found, owner)
          | inl here ↦ elim (Bool-cases (beq w u.owner_pubkey_hash)) [
            | inl mine ↦ (u, rw (a.found o, here) refl, sym (beq→eq w u.owner_pubkey_hash mine))
            | inr foreign ↦
                let (v, found, owner) = c.listed w o (rw foreign at has) in
                cc (rw ((same_iff o u.outpoint).0 here) at found, a.absent)
          ]
        ]

    -- No Merkle key is stale.
    added_backed :
        (k : Bytes) (o : Outpoint)
        → lookup k s'.outpoint_by_key ≡ some o
        → (v : Utxo) × (get s' o ≡ some v) × (outpoint_key p v ≡ k)
    added_backed k o h =
        let found =
          rw (a.keys, lookup-cons k (outpoint_key p u) u.outpoint s.outpoint_by_key) at h in
        elim (Bool-cases (beq k (outpoint_key p u))) [
          | inl new ↦
              let place : u.outpoint ≡ o = eq_of_some (rw new at found) in
              let here : same o u.outpoint ≡ true = (same_iff o u.outpoint).1 (sym place) in
              (u, rw (a.found o, here) refl, sym (beq→eq k (outpoint_key p u) new))
          | inr old ↦
              let (v, present, key) = c.backed k o (rw old at found) in
              elim (Bool-cases (same o u.outpoint)) [
                | inl here ↦ cc (rw ((same_iff o u.outpoint).0 here) at present, a.absent)
                | inr other ↦ (v, rw (a.found o, other) present, key)
              ]
        ]

  pub add-Consistent :
      (s : UtxoSet) (u : Utxo) {s' : UtxoSet} → Consistent p s → add p s u ≡ ok s' → Consistent p s'
  add-Consistent s u c e =
      let a = add-Added s u e in
      record {
        keyed = added_keyed s u c a;
        owned = added_owned s u c a;
        listed = added_listed s u c a;
        backed = added_backed s u c a;
      }
