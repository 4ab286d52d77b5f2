-- ===== src/State/UtxoSet/Consistent/Removing.antt =====
-- `remove` keeps the indices of a set of unspent outputs in agreement.
use tensor_po_w.Base.{true, false, not, none, some, ok, ◌≡◌, sym, ap, ◌∙◌}
use tensor_po_w.Base.{
  if◌then◌else◌, Bool-cases, Option-cases, inl, inr, arith, ok-injective, eq_of_some, key_error,
}
use tensor_po_w.Base.{raise_if, >>-eq-ok, >>=-eq-ok}
use tensor_po_w.Base.Bytes.{Bytes, beq, beq→eq}
use tensor_po_w.Base.Dict.{bytes_eq, lookup, without, eq_refl, is_some}
use tensor_po_w.Base.Dict.{lookup-without, lookup-without_other}
use tensor_po_w.Crypto.Primitives.{Primitives}
use tensor_po_w.State.Outpoint.{Outpoint}
use tensor_po_w.State.Utxo.{Utxo, outpoint_key}
use tensor_po_w.State.UtxoSet.{UtxoSet, same, same_iff, outpoint_eq, get, remove, remove_found}
use tensor_po_w.State.UtxoSet.{remove_owner}
use tensor_po_w.State.UtxoSet.Owners.{owner_has, owner_has-remove_owner}
use tensor_po_w.State.UtxoSet.Consistent.{Consistent}

module _ (p : Primitives) where
  -- What a successful `remove` found and made.
  record Removed (s : UtxoSet) (o : Outpoint) (u : Utxo) (s' : UtxoSet) : Type 0 where
    present : get s o ≡ some u
    found : (j : Outpoint) → get s' j ≡ (if same j o then none else get s j)
    keys : s'.outpoint_by_key ≡ without (outpoint_key p u) s.outpoint_by_key
    owners : remove_owner u.owner_pubkey_hash o s.outpoints_by_owner ≡ ok s'.outpoints_by_owner

  remove_found-Removed :
      (s : UtxoSet) (o : Outpoint) (w : Utxo) {u : Utxo} {s' : UtxoSet}
      → get s o ≡ some w
      → remove_found p s o w ≡ ok (u, s')
      → Removed s o u s'
  unfolding remove_found get
  remove_found-Removed s o w {u} {s'} present e =
      let (_, e₁) =
        >>-eq-ok (raise_if (not (is_some (lookup (outpoint_key p w) s.outpoint_by_key))) key_error)
          _ e in
      let (owners, removed, e₂) =
        >>=-eq-ok (remove_owner w.owner_pubkey_hash o s.outpoints_by_owner) _ e₁ in
      let pair = ok-injective e₂ in
      let output : w ≡ u = ap (λ q. q.0) pair in
      rw (← output) (record {
        present = present;
        found = λ j. rw (← ap (λ q. q.1.utxos) pair) (lookup-without j o s.utxos);
        keys = sym (ap (λ q. q.1.outpoint_by_key) pair);
        owners = removed ∙ ap (λ q. ok q.1.outpoints_by_owner) pair;
      })

  remove-Removed :
      (s : UtxoSet) (o : Outpoint) {u : Utxo} {s' : UtxoSet}
      → remove p s o ≡ ok (u, s')
      → Removed s o u s'
  unfolding remove
  remove-Removed s o e = elim (Option-cases (get s o)) [
    | inl absent ↦ cc (rw (absent, remove) at e)
    | inr (w, present) ↦ remove_found-Removed s o w present (rw (present, remove) at e)
  ]

  module _ (s : UtxoSet) (o : Outpoint) (u : Utxo) {s' : UtxoSet} (c : Consistent p s)
      (r : Removed s o u s') where
    -- An output that is present afterwards stands elsewhere, and was present before.
    kept : (j : Outpoint) (v : Utxo) → get s' j ≡ some v → (same j o ≡ false) × (get s j ≡ some v)
    kept j v h = elim (Bool-cases (same j o)) [
      | inl here ↦ cc (rw (r.found j, here) at h)
      | inr other ↦ (other, rw (r.found j, other) at h)
    ]

    removed_keyed :
        (j : Outpoint) (v : Utxo)
        → get s' j ≡ some v
        → (v.outpoint ≡ j) × (lookup (outpoint_key p v) s'.outpoint_by_key ≡ some j)
    removed_keyed j v h =
        let (other, old) = kept j v h in
        let (place, key) = c.keyed j v old in
        let (_, removed_key) = c.keyed o u r.present in
        let apart : beq (outpoint_key p v) (outpoint_key p u) ≡ false =
          elim (Bool-cases (beq (outpoint_key p v) (outpoint_key p u))) [
            | inr differ ↦ differ
            | inl equal ↦
                let moved = rw (beq→eq (outpoint_key p v) (outpoint_key p u) equal) at key in
                let clash : j ≡ o = eq_of_some (sym moved ∙ removed_key) in
                cc ((same_iff j o).1 clash)
          ] in
        (
          place,
          rw r.keys (
              lookup-without_other (outpoint_key p v) (outpoint_key p u) s.outpoint_by_key apart
              ∙ key),
        )

    removed_owned :
        (j : Outpoint) (v : Utxo)
        → get s' j ≡ some v
        → owner_has s'.outpoints_by_owner v.owner_pubkey_hash j ≡ true
    removed_owned j v h =
        let (other, old) = kept j v h in
        owner_has-remove_owner s.outpoints_by_owner u.owner_pubkey_hash v.owner_pubkey_hash o j
          r.owners
        ∙ rw (other, c.owned j v old) (ground arith)

    removed_listed :
        (w : Bytes) (j : Outpoint)
        → owner_has s'.outpoints_by_owner w j ≡ true
        → (v : Utxo) × (get s' j ≡ some v) × (v.owner_pubkey_hash ≡ w)
    removed_listed w j h =
        let has =
          rw (owner_has-remove_owner s.outpoints_by_owner u.owner_pubkey_hash w o j r.owners) at
            h in
        elim (Bool-cases (same j o)) [
          | inr other ↦
              let before : owner_has s.outpoints_by_owner w j ≡ true =
                ground (arith, rw other at has) in
              let (v, found, owner) = c.listed w j before in (v, rw (r.found j, other) found, owner)
          | inl here ↦ elim (Bool-cases (beq w u.owner_pubkey_hash)) [
            | inl mine ↦ cc (rw (mine, here) at has)
            | inr foreign ↦
                let (v, found, owner) = c.listed w j (rw foreign at has) in
                let place : j ≡ o = (same_iff j o).0 here in
                let output : v ≡ u = eq_of_some (sym found ∙ rw place r.present) in
                cc (
                  (eq_refl w),
                  (rw (sym owner ∙ ap (λ x. x.owner_pubkey_hash) output) at foreign),
                  eq_refl u.owner_pubkey_hash,
                )
          ]
        ]

    -- The key of the removed output is gone, and no other one is stale.
    removed_backed :
        (k : Bytes) (j : Outpoint)
        → lookup k s'.outpoint_by_key ≡ some j
        → (v : Utxo) × (get s' j ≡ some v) × (outpoint_key p v ≡ k)
    removed_backed k j h =
        let found = rw (r.keys, lookup-without k (outpoint_key p u) s.outpoint_by_key) at h in
        elim (Bool-cases (beq k (outpoint_key p u))) [
          | inl gone ↦ absurd (let missing = rw gone at found in cc)
          | inr apart ↦
              let (v, present, key) = c.backed k j (rw apart at found) in
              elim (Bool-cases (same j o)) [
                | inr other ↦ (v, rw (r.found j, other) present, key)
                | inl here ↦
                    let output : v ≡ u =
                      eq_of_some (sym present ∙ rw ((same_iff j o).0 here) r.present) in
                    let clash : k ≡ outpoint_key p u = sym key ∙ ap (outpoint_key p) output in
                    absurd (let equal = (bytes_eq.eq_iff k (outpoint_key p u)).1 clash in cc)
              ]
        ]

  pub remove-Consistent :
      (s : UtxoSet) (o : Outpoint) {u : Utxo} {s' : UtxoSet}
      → Consistent p s
      → remove p s o ≡ ok (u, s')
      → Consistent p s'
  remove-Consistent s o {u} c e =
      let r = remove-Removed s o e in
      record {
        keyed = removed_keyed s o u c r;
        owned = removed_owned s o u c r;
        listed = removed_listed s o u c r;
        backed = removed_backed s o u c r;
      }
