-- ===== src/State/UtxoSet/Laws.antt =====
-- Adding an output and removing it again.
use tensor_po_w.Base.{not, false, none, some, ◌≡◌, refl}
use tensor_po_w.Base.{ok, raise_if, raise_if-eq-ok, >>-eq-ok, >>=-eq-ok}
use tensor_po_w.Base.{ok-injective, inl, inr, ap, key_error, value_error, Option-cases}
use tensor_po_w.Base.Dict.{
  bytes_eq, lookup, without, is_some, none_of_is_some, eq_refl, lookup-without_self,
  lookup-without_other,
}
use tensor_po_w.Crypto.Primitives.{Primitives}
use tensor_po_w.State.Outpoint.{Outpoint}
use tensor_po_w.State.Utxo.{Utxo, outpoint_key}
use tensor_po_w.State.UtxoSet.{UtxoSet, same, outpoint_eq, get}
use tensor_po_w.State.UtxoSet.{add, remove, remove_found, remove_owner}

-- `add` refuses an outpoint that is present; where it succeeds, exactly that outpoint is new, and
-- every other one keeps its output.
pub add-get :
    (p : Primitives) (s : UtxoSet) (u : Utxo) {s' : UtxoSet}
    → add p s u ≡ ok s'
    → (get s u.outpoint ≡ none)
      × (get s' u.outpoint ≡ some u)
      × ((o : Outpoint) → same o u.outpoint ≡ false → get s' o ≡ get s o)
unfolding add get lookup
add-get p s u {s'} e =
    let (absent, e₁) = >>-eq-ok (raise_if (is_some (get s u.outpoint)) key_error) _ e in
    let (_, e₂) =
      >>-eq-ok (raise_if (is_some (lookup (outpoint_key p u) s.outpoint_by_key)) value_error) _
        e₁ in
    let made = ok-injective e₂ in
    (
      none_of_is_some (get s u.outpoint) (raise_if-eq-ok _ key_error absent),
      rw (← made, eq_refl u.outpoint) refl,
      λ o h. rw (← made, h) refl,
    )

remove_found-get :
    (p : Primitives) (s : UtxoSet) (o : Outpoint) (w : Utxo) {u : Utxo} {s' : UtxoSet}
    → remove_found p s o w ≡ ok (u, s')
    → (w ≡ u) × (get s' o ≡ none) × ((j : Outpoint) → same j o ≡ false → get s' j ≡ get s j)
unfolding remove_found get
remove_found-get p s o w {u} {s'} e =
    let (_, e₁) =
      >>-eq-ok (raise_if (not (is_some (lookup (outpoint_key p w) s.outpoint_by_key))) key_error) _
        e in
    let (owners, _, e₂) =
      >>=-eq-ok (remove_owner w.owner_pubkey_hash o s.outpoints_by_owner) _ e₁ in
    let pair = ok-injective e₂ in
    let left : without o s.utxos ≡ s'.utxos = ap (λ q. q.1.utxos) pair in
    (
      ap (λ q. q.0) pair,
      rw (← left) (lookup-without_self o s.utxos),
      λ j h. rw (← left) (lookup-without_other j o s.utxos h),
    )

-- `remove` returns the output of a present outpoint; afterwards the outpoint is absent, and every
-- other one keeps its output.
pub remove-get :
    (p : Primitives) (s : UtxoSet) (o : Outpoint) {u : Utxo} {s' : UtxoSet}
    → remove p s o ≡ ok (u, s')
    → (get s o ≡ some u)
      × (get s' o ≡ none)
      × ((j : Outpoint) → same j o ≡ false → get s' j ≡ get s j)
unfolding remove
remove-get p s o {u} {s'} e = elim (Option-cases (get s o)) [
  | inl absent ↦ cc (rw (absent, remove) at e)
  | inr (w, found) ↦
      let (same_output, absent, kept) = remove_found-get p s o w (rw (found, remove) at e) in
      (rw (found, same_output) refl, absent, kept)
]
