-- ===== src/Mempool/Pool/ByShard/Reachable.antt =====
-- The two dicts of entries of src/tensorpow/mempool/mempool.py agree in every mempool that is reached.
use tensor_po_w.Base.{ℕ, Option, none, some, List, ◌≡◌, ap, subst, inl, inr}
use tensor_po_w.Base.{ok, >>=-eq-ok, >>-eq-ok, ok-injective}
use tensor_po_w.Base.Bytes.{Bytes}
use tensor_po_w.Crypto.Primitives.{Primitives}
use tensor_po_w.Mempool.ShardTree.Ids.{require_shard_id}
use tensor_po_w.Mempool.Pool.{Mempool}
use tensor_po_w.Mempool.Pool.ByShard.{ByShard, empty-ByShard, put-ByShard}
use tensor_po_w.Mempool.Pool.ByShard.Removing.{remove_entry-ByShard, remove_all-ByShard}
use tensor_po_w.Mempool.Pool.Fees.{
  fee_floor, set_fee_floor, record_confirmed_fruit, sample_of, with_sample, check_sample,
  calculate_next_fee_floor,
}
use tensor_po_w.Mempool.Pool.Removing.{remove, evict_at, evict_below_floor}
use tensor_po_w.Mempool.Pool.Outcome.{Outcome, add_tx-Outcome}
use tensor_po_w.Mempool.Pool.Reachable.{Reachable}

set_fee_floor-ByShard :
    (m : Mempool) (shard_id floor : ℕ) {m' : Mempool}
    → set_fee_floor m shard_id floor ≡ ok m'
    → ByShard m
    → ByShard m'
unfolding set_fee_floor
set_fee_floor-ByShard m shard_id floor e c =
    let (_, _, e₁) = >>=-eq-ok (require_shard_id shard_id) _ e in
    subst ByShard (ok-injective e₁) (record { placed = c.placed; held = c.held })

record-ByShard :
    (m : Mempool) (shard_id fees payload_bytes : ℕ) {n : ℕ} {m' : Mempool}
    → record_confirmed_fruit m shard_id fees payload_bytes ≡ ok (n, m')
    → ByShard m
    → ByShard m'
unfolding record_confirmed_fruit with_sample
record-ByShard m shard_id fees payload_bytes e c =
    let s = sample_of shard_id fees payload_bytes in
    let (_, e₁) = >>-eq-ok (check_sample s) _ e in
    let (_, _, e₂) = >>=-eq-ok (calculate_next_fee_floor (with_sample m s) shard_id none) _ e₁ in
    subst ByShard (ap (λ x. x.1) (ok-injective e₂)) (record { placed = c.placed; held = c.held })

evict-ByShard :
    (m : Mempool) (shard_id : ℕ) (floor : Option ℕ) {ids : List Bytes} {m' : Mempool}
    → evict_below_floor m shard_id floor ≡ ok (ids, m')
    → ByShard m
    → ByShard m'
unfolding evict_below_floor evict_at
evict-ByShard m shard_id none e c =
    let (id, _, e₁) = >>=-eq-ok (require_shard_id shard_id) _ e in
    let (floor, _, e₂) = >>=-eq-ok (fee_floor m id) _ e₁ in
    subst ByShard (ap (λ x. x.1) (ok-injective e₂)) (remove_all-ByShard _ m c)
evict-ByShard m shard_id (some floor) e c =
    let (id, _, e₁) = >>=-eq-ok (require_shard_id shard_id) _ e in
    let (m₁, made, e₂) = >>=-eq-ok (set_fee_floor m id floor) _ e₁ in
    subst ByShard (ap (λ x. x.1) (ok-injective e₂))
      (remove_all-ByShard _ m₁ (set_fee_floor-ByShard m id floor made c))

Outcome-ByShard : {m m' : Mempool} → Outcome m m' → ByShard m → ByShard m'
Outcome-ByShard (inl same) c = rw same c
Outcome-ByShard {m} (inr (e, made, fresh)) c = rw made (put-ByShard m e c fresh)

-- In a mempool that the operations reach, a pending entry stands under its own id, and in the dict
-- of its own shard; and what the dict of a shard holds under an id is pending under that id and of
-- that shard.
pub Reachable-ByShard : (p : Primitives) {m : Mempool} → Reachable p m → ByShard m
unfolding remove
Reachable-ByShard p (Reachable.new_mempool tree view) = empty-ByShard tree view
Reachable-ByShard p (Reachable.tx_added {m} r h e) =
    Outcome-ByShard (add_tx-Outcome p m r e) (Reachable-ByShard p h)
Reachable-ByShard p (Reachable.tx_removed {m} id h) =
    remove_entry-ByShard id m (Reachable-ByShard p h)
Reachable-ByShard p (Reachable.below_evicted {m} shard_id floor h e) =
    evict-ByShard m shard_id floor e (Reachable-ByShard p h)
Reachable-ByShard p (Reachable.floor_set {m} shard_id floor h e) =
    set_fee_floor-ByShard m shard_id floor e (Reachable-ByShard p h)
Reachable-ByShard p (Reachable.fruit_recorded {m} shard_id fees payload_bytes h e) =
    record-ByShard m shard_id fees payload_bytes e (Reachable-ByShard p h)
