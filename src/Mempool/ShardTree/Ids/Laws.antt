-- ===== src/Mempool/ShardTree/Ids/Laws.antt =====
-- When an identifier is accepted, and the routes that it selects.
use tensor_po_w.Base.{
  ℕ, suc, zero, ◌+◌, ◌-◌, ◌*◌, ◌^◌, ◌<◌, ◌≤◌, ltb, ◌==◌, ◌≡◌, refl, sym, ap, ◌∙◌,
}
use tensor_po_w.Base.{Bool, ok, ◌↔◌, arith, ◌⊎◌, inl, inr, subst, Bool-cases}
use tensor_po_w.Base.Sums.{one_if}
use tensor_po_w.Mempool.ShardTree.Ids.{
  depth_of, path_of, low_bits, require_shard_id, encode_shard_id,
}
use tensor_po_w.Mempool.ShardTree.Ids.{decode_shard_id}
use native.Mathlib.Nat.{
  pow-le-pow_right, mod-mod_of_dvd, mod-lt, mod-eq_of_lt, two-pow-succ, pow-suc, add-zero, add-suc,
  dvd_refl, dvd-mul_right_of_dvd, mod-eq-sub-mod,
}
use Prim.Native.Nat.{◌∣◌}

-- A canonical identifier: at most 16 levels deep, with a path of as many bits.
pub record IsShardId (id : ℕ) : Type 0 where
  pub depth_fits : depth_of id ≤ 16
  pub path_fits : path_of id < 2 ^ depth_of id

pub require_shard_id_iff : (id : ℕ) → (require_shard_id id ≡ ok id) ↔ IsShardId id
unfolding require_shard_id
require_shard_id_iff id = (
  λ e. record { depth_fits = ground arith; path_fits = ground arith },
  λ h. let d = h.depth_fits in let p = h.path_fits in ground arith,
)

pub decode-IsShardId : (id : ℕ) → IsShardId id → decode_shard_id id ≡ ok (depth_of id, path_of id)
unfolding decode_shard_id
decode-IsShardId id h = rw ((require_shard_id_iff id).1 h) refl

pub decode-eq-ok :
    (id : ℕ) {d q : ℕ}
    → decode_shard_id id ≡ ok (d, q)
    → IsShardId id × (depth_of id ≡ d) × (path_of id ≡ q)
unfolding decode_shard_id require_shard_id
decode-eq-ok id e =
    (record { depth_fits = ground arith; path_fits = ground arith }, ground arith, ground arith)

pub pow-le-pow : (a b : ℕ) → a ≤ b → 2 ^ a ≤ 2 ^ b
pow-le-pow a b h = pow-le-pow_right (omega arith) h

-- The identifier of a depth and a path.
abbrev pub id_of : ℕ → ℕ → ℕ
id_of depth path = depth * 2 ^ 16 + path

pub encode_lem :
    (d q : ℕ)
    → d ≤ 16
    → q < 2 ^ d
    → (encode_shard_id d q ≡ ok (id_of d q))
      × (depth_of (id_of d q) ≡ d)
      × (path_of (id_of d q) ≡ q)
unfolding encode_shard_id
encode_lem d q hd hq =
    let small : 2 ^ d ≤ 65536 = pow-le-pow d 16 hd in (ground arith, omega arith, omega arith)

pub id_of-IsShardId : (d q : ℕ) → d ≤ 16 → q < 2 ^ d → IsShardId (id_of d q)
id_of-IsShardId d q hd hq =
    let (_, depth, path) = encode_lem d q hd hq in
    record { depth_fits = rw depth hd; path_fits = rw (depth, path) hq }

-- An identifier is that of its depth and path.
pub id_of_parts : (id : ℕ) → id_of (depth_of id) (path_of id) ≡ id
id_of_parts id = omega arith

-- Whether the shard selects the route.
unfoldable pub selects : ℕ → ℕ → Bool
selects id route = path_of id == low_bits (depth_of id) route

pub low_bits-lt : (d q : ℕ) → low_bits d q < 2 ^ d
low_bits-lt d q = mod-lt q (ground (arith, pow-le-pow 0 d (omega arith)))

pow-dvd : (a k : ℕ) → 2 ^ a ∣ 2 ^ (a + k)
pow-dvd a zero = rw (add-zero a) (dvd_refl (2 ^ a))
pow-dvd a (suc k) =
    rw (add-suc a k, pow-suc 2 (a + k)) (dvd-mul_right_of_dvd (2 ^ a) (pow-dvd a k) 2)

pub low_bits-low_bits : (a d q : ℕ) → a ≤ d → low_bits a (low_bits d q) ≡ low_bits a q
low_bits-low_bits a d q h =
    let e : a + (d - a) ≡ d = omega arith in
    mod-mod_of_dvd (2 ^ a) q (subst (λ n. 2 ^ a ∣ 2 ^ n) e (pow-dvd a (d - a)))

pub pow-next : (d : ℕ) → 2 ^ (d + 1) ≡ 2 ^ d + 2 ^ d
pow-next d = ap (λ n. 2 ^ n) (let e : d + 1 ≡ suc d = omega arith in e) ∙ two-pow-succ d

-- The next bit of a route.
low_bits-suc :
    (d q : ℕ) → (low_bits (d + 1) q ≡ low_bits d q) ⊎ (low_bits (d + 1) q ≡ low_bits d q + 2 ^ d)
low_bits-suc d q =
    let lower = low_bits-low_bits d (d + 1) q (omega arith) in
    let bound : low_bits (d + 1) q < 2 ^ d + 2 ^ d = rw (← pow-next d) (low_bits-lt (d + 1) q) in
    elim (Bool-cases (ltb (low_bits (d + 1) q) (2 ^ d))) [
      | inl below ↦ inl (sym (mod-eq_of_lt (ground arith)) ∙ lower)
      | inr above ↦
          let rest = mod-eq-sub-mod {n = low_bits (d + 1) q} {m = 2 ^ d} (ground arith) in
          let small = mod-eq_of_lt {n = low_bits (d + 1) q - 2 ^ d} {m = 2 ^ d} (ground arith) in
          inr (ground arith)
    ]

-- Exactly one of two children selects a route that the parent selects, and none any other.
pub selects-children :
    (d q r : ℕ)
    → d < 16
    → q < 2 ^ d
    → one_if (selects (id_of (d + 1) q) r) + one_if (selects (id_of (d + 1) (q + 2 ^ d)) r)
      ≡ one_if (selects (id_of d q) r)
unfolding selects
selects-children d q r hd hq =
    let low = low_bits-lt d r in
    let double = pow-next d in
    let (_, d0, q0) = encode_lem d q (omega arith) hq in
    let (_, d1, q1) = encode_lem (d + 1) q (omega arith) (omega arith) in
    let (_, d2, q2) = encode_lem (d + 1) (q + 2 ^ d) (omega arith) (omega arith) in
    rw (d0, q0, d1, q1, d2, q2)
      (elim (low_bits-suc d r) [
        | inl same ↦ rw same (ground (arith, low, double, hq))
        | inr above ↦ rw above (ground (arith, low, double, hq))
      ])
