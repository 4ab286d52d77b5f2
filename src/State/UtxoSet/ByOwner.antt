-- ===== src/State/UtxoSet/ByOwner.antt =====
-- `UTXOSet.by_owner` finds exactly an owner's outputs.
use tensor_po_w.Base.{
  Bool, true, false, List, [], ◌∷◌, none, some, ok, Option, ◌≡◌, refl, length, All,
}
use tensor_po_w.Base.{if◌then◌else◌, Option-cases, inl, inr, arith, ap, sym, ◌∙◌}
use tensor_po_w.Base.Bytes.{Bytes}
use tensor_po_w.Base.Dict.{bytes_eq, lookup, member}
use tensor_po_w.Base.Sorted.{insert, sorted, All-sorted}
use tensor_po_w.Checks.{require_hash_lem}
use tensor_po_w.Crypto.Primitives.{Primitives}
use tensor_po_w.State.Outpoint.{Outpoint}
use tensor_po_w.State.Utxo.{Utxo}
use tensor_po_w.State.UtxoSet.{
  UtxoSet, same, same_iff, outpoint_eq, get, get_all, by_owner, earlier,
}
use tensor_po_w.State.UtxoSet.Owners.{owner_has, in_set}
use tensor_po_w.State.UtxoSet.Consistent.{Consistent}
use tensor_po_w.State.UtxoSet.Reachable.{Reachable, Reachable-Consistent}

-- Whether one of the outputs stands at the outpoint.
unfoldable pub has_outpoint : Outpoint → List Utxo → Bool
has_outpoint o [] = false
has_outpoint o (u ∷ us) = if same o u.outpoint then true else has_outpoint o us

has_outpoint-insert :
    (o : Outpoint) (u : Utxo) (us : List Utxo)
    → has_outpoint o (insert earlier u us) ≡ (if same o u.outpoint then true else has_outpoint o us)
unfolding has_outpoint insert
has_outpoint-insert o u [] = refl
has_outpoint-insert o u (v ∷ us) = ground (arith, has_outpoint-insert o u us)

has_outpoint-sorted :
    (o : Outpoint) (us : List Utxo) → has_outpoint o (sorted earlier us) ≡ has_outpoint o us
unfolding has_outpoint sorted
has_outpoint-sorted o [] = refl
has_outpoint-sorted o (u ∷ us) =
    rw (has_outpoint-insert o u (sorted earlier us), has_outpoint-sorted o us) refl

-- An output of the set that belongs to the owner.
pub record IsOwned (s : UtxoSet) (w : Bytes) (u : Utxo) : Type 0 where
  pub present : get s u.outpoint ≡ some u
  pub owner : u.owner_pubkey_hash ≡ w

module _ (p : Primitives) (s : UtxoSet) (w : Bytes) (c : Consistent p s) where
  IsOwned-of_get :
      (o : Outpoint) (u : Utxo) → get s o ≡ some u → u.owner_pubkey_hash ≡ w → IsOwned s w u
  IsOwned-of_get o u found owner = record {
    present = ap (get s) (c.keyed o u found).0 ∙ found;
    owner = owner;
  }

  owned_listed :
      (o : Option (List Outpoint)) (u : Utxo)
      → lookup w s.outpoints_by_owner ≡ o
      → IsOwned s w u
      → in_set u.outpoint o ≡ true
  unfolding owner_has
  owned_listed o u e h =
      ap (in_set u.outpoint) (sym e)
      ∙ ap (λ v. in_set u.outpoint (lookup v s.outpoints_by_owner)) (sym h.owner)
      ∙ c.owned u.outpoint u h.present

  get_all-cons :
      (o : Outpoint) (os : List Outpoint) (u : Utxo) (us : List Utxo)
      → get s o ≡ some u
      → get_all s os ≡ ok us
      → get_all s (o ∷ os) ≡ ok (u ∷ us)
  unfolding get_all
  get_all-cons o os u us found rest = rw (found, get_all, rest) refl

  get_all-ok :
      (os : List Outpoint)
      → ((o : Outpoint)
          → member o os ≡ true
          → (u : Utxo) × (get s o ≡ some u) × (u.owner_pubkey_hash ≡ w))
      → (us : List Utxo) × (get_all s os ≡ ok us)
        × All (IsOwned s w) us
        × ((o : Outpoint) → member o os ≡ true → has_outpoint o us ≡ true)
  unfolding get_all member has_outpoint
  get_all-ok [] h = ([], refl, tt, λ o m. m)
  get_all-ok (o ∷ os) h =
      let (u, found, owner) = h o (rw ((same_iff o o).1 refl) refl) in
      let (us, rest, owned, all_found) = get_all-ok os (λ x m. h x (ground (arith, m))) in
      (
        u ∷ us,
        get_all-cons o os u us found rest,
        (IsOwned-of_get o u found owner, owned),
        λ x m.
            let place : u.outpoint ≡ o = (c.keyed o u found).0 in
            let later = all_found x in rw place (ground (arith, m, later)),
      )

-- On a reachable set and a hash of 32 bytes, `by_owner` returns a list of present outputs of that
-- owner, in which each present output of the owner stands.
pub by_owner_lem :
    (p : Primitives) (s : UtxoSet) (w : Bytes)
    → Reachable p s
    → length w ≡ 32
    → (us : List Utxo) × (by_owner s w ≡ ok us)
      × All (IsOwned s w) us
      × ((u : Utxo) → IsOwned s w u → has_outpoint u.outpoint us ≡ true)
unfolding by_owner owner_has has_outpoint
by_owner_lem p s w r size =
    let c = Reachable-Consistent p r in
    elim (Option-cases (lookup w s.outpoints_by_owner)) [
      | inl none_listed ↦ (
        [],
        rw (require_hash_lem w size, none_listed) refl,
        tt,
        λ u h. absurd (let listed = owned_listed p s w c none u none_listed h in cc),
      )
      | inr (os, listed) ↦
          let (us, got, owned, found) = get_all-ok p s w c os (λ o m. c.listed w o (rw listed m)) in
          (
            sorted earlier us,
            rw (require_hash_lem w size, listed, got) refl,
            All-sorted earlier (IsOwned s w) us owned,
            λ u h.
                has_outpoint-sorted u.outpoint us
                ∙ found u.outpoint (owned_listed p s w c (some os) u listed h),
          )
    ]
