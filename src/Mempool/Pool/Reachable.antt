-- ===== src/Mempool/Pool/Reachable.antt =====
-- The mempools that the operations of `class Mempool` reach.
use tensor_po_w.Base.{
  ℕ, true, List, Option, none, some, ◌≡◌, sym, ap, subst, ◌∙◌, inl, inr, eq_of_some,
}
use tensor_po_w.Base.{ok, >>=-eq-ok, >>-eq-ok, ok-injective}
use tensor_po_w.Base.Bytes.{Bytes}
use tensor_po_w.Base.Dict.{nat_eq, bytes_eq, lookup}
use tensor_po_w.Crypto.Primitives.{Primitives}
use tensor_po_w.State.Outpoint.{Outpoint}
use tensor_po_w.State.UtxoSet.{same, outpoint_eq}
use tensor_po_w.Mempool.ShardTree.Ids.{require_shard_id}
use tensor_po_w.Mempool.ShardTree.Tree.{ShardTree}
use tensor_po_w.Mempool.Pool.{Mempool, Entry, View, AddResult, empty, get_entry}
use tensor_po_w.Mempool.Pool.Fees.{
  fee_floor, set_fee_floor, record_confirmed_fruit, sample_of, with_sample, check_sample,
  calculate_next_fee_floor,
}
use tensor_po_w.Mempool.Pool.Marks.{spends}
use tensor_po_w.Mempool.Pool.Adding.{Request, add_tx}
use tensor_po_w.Mempool.Pool.Removing.{remove, evict_at, evict_below_floor}
use tensor_po_w.Mempool.Pool.Consistent.{
  Consistent, empty-Consistent, put-Consistent, remove_entry-Consistent, remove_all-Consistent,
}
use tensor_po_w.Mempool.Pool.Outcome.{Outcome, add_tx-Outcome}

module _ (p : Primitives) where
  -- What calls of the operations reach from a new mempool.
  pub data Reachable : Mempool → Type 0 where
    new_mempool : (tree : ShardTree) (view : Option View) → Reachable (empty tree view)
    tx_added :
        {m m' : Mempool} {answer : AddResult} (r : Request)
        → Reachable m
        → add_tx p m r ≡ ok (answer, m')
        → Reachable m'
    tx_removed : {m : Mempool} (id : Bytes) → Reachable m → Reachable (remove m id).1
    below_evicted :
        {m m' : Mempool} {ids : List Bytes} (shard_id : ℕ) (floor : Option ℕ)
        → Reachable m
        → evict_below_floor m shard_id floor ≡ ok (ids, m')
        → Reachable m'
    floor_set :
        {m m' : Mempool} (shard_id floor : ℕ)
        → Reachable m
        → set_fee_floor m shard_id floor ≡ ok m'
        → Reachable m'
    fruit_recorded :
        {m m' : Mempool} {next_floor : ℕ} (shard_id fees payload_bytes : ℕ)
        → Reachable m
        → record_confirmed_fruit m shard_id fees payload_bytes ≡ ok (next_floor, m')
        → Reachable m'

  Outcome-Consistent : {m m' : Mempool} → Outcome m m' → Consistent m → Consistent m'
  Outcome-Consistent (inl same) c = rw same c
  Outcome-Consistent {m} (inr (e, made, fresh)) c = rw made (put-Consistent m e c fresh)

  -- The operations on fee floors leave the entries and the spent outpoints.
  Same : Mempool → Mempool → Type 0
  Same m m' = (m'.entries ≡ m.entries) × (m'.spent_outpoints ≡ m.spent_outpoints)

  Same-Consistent : {m m' : Mempool} → Same m m' → Consistent m → Consistent m'
  unfolding Same
  Same-Consistent {m} {m'} (es, ss) c = record {
    marked = λ id e o h u. rw ss (c.marked id e o (ap (lookup id) (sym es) ∙ h) u);
    backed = λ id o h. rw es (c.backed id o (ap (lookup o) (sym ss) ∙ h));
  }

  set_fee_floor-Same :
      (m : Mempool) (shard_id floor : ℕ) {m' : Mempool}
      → set_fee_floor m shard_id floor ≡ ok m'
      → Same m m'
  unfolding set_fee_floor Same
  set_fee_floor-Same m shard_id floor e =
      let (_, _, e₁) = >>=-eq-ok (require_shard_id shard_id) _ e in
      (
        ap (λ x. x.entries) (sym (ok-injective e₁)),
        ap (λ x. x.spent_outpoints) (sym (ok-injective e₁)),
      )

  record-Same :
      (m : Mempool) (shard_id fees payload_bytes : ℕ) {n : ℕ} {m' : Mempool}
      → record_confirmed_fruit m shard_id fees payload_bytes ≡ ok (n, m')
      → Same m m'
  unfolding record_confirmed_fruit Same with_sample
  record-Same m shard_id fees payload_bytes e =
      let s = sample_of shard_id fees payload_bytes in
      let (_, e₁) = >>-eq-ok (check_sample s) _ e in
      let (_, _, e₂) = >>=-eq-ok (calculate_next_fee_floor (with_sample m s) shard_id none) _ e₁ in
      (
        ap (λ x. x.1.entries) (sym (ok-injective e₂)),
        ap (λ x. x.1.spent_outpoints) (sym (ok-injective e₂)),
      )

  evict-Consistent :
      (m : Mempool) (shard_id : ℕ) (floor : Option ℕ) {ids : List Bytes} {m' : Mempool}
      → evict_below_floor m shard_id floor ≡ ok (ids, m')
      → Consistent m
      → Consistent m'
  unfolding evict_below_floor evict_at
  evict-Consistent m shard_id none e c =
      let (id, _, e₁) = >>=-eq-ok (require_shard_id shard_id) _ e in
      let (floor, _, e₂) = >>=-eq-ok (fee_floor m id) _ e₁ in
      subst Consistent (ap (λ x. x.1) (ok-injective e₂)) (remove_all-Consistent _ m c)
  evict-Consistent m shard_id (some floor) e c =
      let (id, _, e₁) = >>=-eq-ok (require_shard_id shard_id) _ e in
      let (m₁, set, e₂) = >>=-eq-ok (set_fee_floor m id floor) _ e₁ in
      subst Consistent (ap (λ x. x.1) (ok-injective e₂))
        (remove_all-Consistent _ m₁ (Same-Consistent (set_fee_floor-Same m id floor set) c))

  pub Reachable-agrees : {m : Mempool} → Reachable m → Consistent m
  unfolding remove
  Reachable-agrees (new_mempool tree view) = empty-Consistent tree view
  Reachable-agrees (tx_added {m} r h e) =
      Outcome-Consistent (add_tx-Outcome p m r e) (Reachable-agrees h)
  Reachable-agrees (tx_removed {m} id h) = remove_entry-Consistent id m (Reachable-agrees h)
  Reachable-agrees (below_evicted {m} shard_id floor h e) =
      evict-Consistent m shard_id floor e (Reachable-agrees h)
  Reachable-agrees (floor_set {m} shard_id floor h e) =
      Same-Consistent (set_fee_floor-Same m shard_id floor e) (Reachable-agrees h)
  Reachable-agrees (fruit_recorded {m} shard_id fees payload_bytes h e) =
      Same-Consistent (record-Same m shard_id fees payload_bytes e) (Reachable-agrees h)

  -- In a mempool that the operations reach no two pending transactions spend the same outpoint.
  pub pending-disjoint :
      {m : Mempool} (a b : Bytes) (e f : Entry) (o : Outpoint)
      → Reachable m
      → get_entry m a ≡ some e
      → get_entry m b ≡ some f
      → spends o e.tx.inputs ≡ true
      → spends o f.tx.inputs ≡ true
      → a ≡ b
  unfolding get_entry
  pending-disjoint a b e f o h there there' uses uses' =
      let c = Reachable-agrees h in
      eq_of_some (sym (c.marked a e o there uses) ∙ c.marked b f o there' uses')
