-- ===== src/Mempool/Pool/Selection/Greedy.antt =====
-- What the loop of `Mempool.select_for_fruit` takes and passes over, in the order of `_selection_key`.
use tensor_po_w.Base.{
  ℕ, ◌+◌, ◌≤◌, ◌<◌, ltb, true, false, List, [], ◌∷◌, ◌++◌, All, ◌≡◌, refl, inl, inr, Bool-cases,
  arith, ltb→lt, if◌then◌else◌,
}
use tensor_po_w.Base.Sorted.Ranked.{Ranked, blt_asymm, blt-false_trans}
use tensor_po_w.Mempool.Pool.{Entry}
use tensor_po_w.Mempool.Pool.Selection.{better, choose, total_size}
use mathlib.Core.List.{Perm, perm_middle}
use mathlib.Core.List.Perm

-- The sizes of those of the entries that `e` is not better than.
unfoldable pub size_ahead : Entry → List Entry → ℕ
size_ahead e [] = 0
size_ahead e (x ∷ xs) = (if better e x then 0 else x.tx_size_bytes) + size_ahead e xs

pub better_asymm : (a b : Entry) → better a b ≡ true → better b a ≡ false
unfolding better
better_asymm a b h = ground (arith, blt_asymm a.entry_id b.entry_id)

pub better-false_trans :
    (a b c : Entry) → better a b ≡ false → better b c ≡ false → better a c ≡ false
unfolding better
better-false_trans a b c h k = ground (arith, blt-false_trans a.entry_id b.entry_id c.entry_id)

-- What the loop passes over.
unfoldable pub passed : ℕ → ℕ → List Entry → List Entry
passed budget used [] = []
passed budget used (e ∷ es) =
    if ltb budget (used + e.tx_size_bytes)
    then e ∷ passed budget used es
    else passed budget (used + e.tx_size_bytes) es

-- An entry that does not fit is passed over, and one that fits is taken.
passes :
    (budget used : ℕ) (e : Entry) (es : List Entry)
    → ltb budget (used + e.tx_size_bytes) ≡ true
    → (choose budget used (e ∷ es) ≡ choose budget used es)
      × (passed budget used (e ∷ es) ≡ e ∷ passed budget used es)
unfolding choose passed
passes budget used e es over = (rw over refl, rw over refl)

takes :
    (budget used : ℕ) (e : Entry) (es : List Entry)
    → ltb budget (used + e.tx_size_bytes) ≡ false
    → (choose budget used (e ∷ es) ≡ e ∷ choose budget (used + e.tx_size_bytes) es)
      × (passed budget used (e ∷ es) ≡ passed budget (used + e.tx_size_bytes) es)
unfolding choose passed
takes budget used e es room = (rw room refl, rw room refl)

pub choose-perm :
    (budget used : ℕ) (es : List Entry) → Perm (choose budget used es ++ passed budget used es) es
unfolding choose passed
choose-perm budget used [] = Perm.rfl
choose-perm budget used (e ∷ es) = elim (Bool-cases (ltb budget (used + e.tx_size_bytes))) [
  | inl over ↦
      let (taken, left) = passes budget used e es over in
      rw (taken, left)
        (Perm.trans (perm_middle (choose budget used es) (passed budget used es))
          (Perm.cons e (choose-perm budget used es)))
  | inr room ↦
      let (taken, left) = takes budget used e es room in
      rw (taken, left) (Perm.cons e (choose-perm budget (used + e.tx_size_bytes) es))
]

pub choose-fits :
    (budget used : ℕ) (es : List Entry)
    → used ≤ budget
    → used + total_size (choose budget used es) ≤ budget
unfolding choose total_size
choose-fits budget used [] h = omega arith
choose-fits budget used (e ∷ es) h = elim (Bool-cases (ltb budget (used + e.tx_size_bytes))) [
  | inl over ↦ rw over (choose-fits budget used es h)
  | inr fits ↦
      let rest = choose-fits budget (used + e.tx_size_bytes) es (ground arith) in
      rw fits (omega arith)
]

passed-All :
    (P : Entry → Type 0) (budget used : ℕ) (es : List Entry)
    → All P es
    → All P (passed budget used es)
unfolding passed
passed-All P budget used [] h = tt
passed-All P budget used (e ∷ es) (he, h) =
    elim (Bool-cases (ltb budget (used + e.tx_size_bytes))) [
      | inl over ↦ rw over (he, passed-All P budget used es h)
      | inr fits ↦ rw fits (passed-All P budget (used + e.tx_size_bytes) es h)
    ]

size_ahead-cons :
    (x e : Entry) (es : List Entry)
    → better x e ≡ false
    → size_ahead x (e ∷ es) ≡ e.tx_size_bytes + size_ahead x es
unfolding size_ahead
size_ahead-cons x e es h = rw h refl

-- An entry that is taken takes its bytes from each later one.
taken_ahead :
    (budget used : ℕ) (e : Entry) (taken es : List Entry)
    → All (λ x. better x e ≡ false) es
    → All (λ x. budget < used + e.tx_size_bytes + size_ahead x taken + x.tx_size_bytes) es
    → All (λ x. budget < used + size_ahead x (e ∷ taken) + x.tx_size_bytes) es
taken_ahead budget used e taken [] low h = tt
taken_ahead budget used e taken (x ∷ es) (worse, low) (over, h) =
    (omega (arith, size_ahead-cons x e taken worse), taken_ahead budget used e taken es low h)

pub choose-full :
    (budget used : ℕ) (es : List Entry)
    → Ranked better es
    → All
        (λ x. budget < used + size_ahead x (choose budget used es) + x.tx_size_bytes)
        (passed budget used es)
unfolding choose passed
choose-full budget used [] h = tt
choose-full budget used (e ∷ es) (low, h) =
    elim (Bool-cases (ltb budget (used + e.tx_size_bytes))) [
      | inl over ↦
          let (taken, left) = passes budget used e es over in
          let excess = ltb→lt budget (used + e.tx_size_bytes) over in
          rw (taken, left) (omega arith, choose-full budget used es h)
      | inr room ↦
          let (taken, left) = takes budget used e es room in
          rw (taken, left)
            (taken_ahead budget used e (choose budget (used + e.tx_size_bytes) es)
              (passed budget (used + e.tx_size_bytes) es)
              (passed-All (λ x. better x e ≡ false) budget (used + e.tx_size_bytes) es low)
              (choose-full budget (used + e.tx_size_bytes) es h))
    ]

pub choose-All :
    (P : Entry → Type 0) (budget used : ℕ) (es : List Entry)
    → All P es
    → All P (choose budget used es)
unfolding choose
choose-All P budget used [] h = tt
choose-All P budget used (e ∷ es) (he, h) =
    elim (Bool-cases (ltb budget (used + e.tx_size_bytes))) [
      | inl over ↦ rw over (choose-All P budget used es h)
      | inr fits ↦ rw fits (he, choose-All P budget (used + e.tx_size_bytes) es h)
    ]

pub choose-Ranked :
    (budget used : ℕ) (es : List Entry) → Ranked better es → Ranked better (choose budget used es)
unfolding choose
choose-Ranked budget used [] h = tt
choose-Ranked budget used (e ∷ es) (low, h) =
    elim (Bool-cases (ltb budget (used + e.tx_size_bytes))) [
      | inl over ↦ rw over (choose-Ranked budget used es h)
      | inr fits ↦ rw fits (
        choose-All (λ x. better x e ≡ false) budget (used + e.tx_size_bytes) es low,
        choose-Ranked budget (used + e.tx_size_bytes) es h,
      )
    ]
