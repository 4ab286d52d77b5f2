-- ===== src/Script/Stack/Laws.antt =====
-- The bounds on the stack, operation by operation, and the one exception that they raise.
use tensor_po_w.Base.{
  ℕ, zero, suc, ◌≤◌, ◌≡◌, refl, [], ◌∷◌, List, All, length, Bool, true, false, Result, ok, err,
  arith,
}
use tensor_po_w.Base.{raise_if, script_error, ◌>>=◌ as bind_result}
use tensor_po_w.Base.Bytes.{Bytes}
use tensor_po_w.Script.Stack.{Stack, push, push_bool, pop, pop_many, push_initial}
use tensor_po_w.Script.Stack.{
  decode_small_int, decode_lock, truthy, script_max_stack_items, script_max_element_bytes,
}

abbrev pub IsItem : Bytes → Type 0
IsItem item = length item ≤ script_max_element_bytes

-- At most 1024 items, of at most 520 bytes each.
pub record IsBounded (s : Stack) : Type 0 where
  pub count : length s ≤ script_max_stack_items
  pub sizes : All IsItem s

abbrev pub Outcome : {A : Type 0} → (A → Type 0) → Result A → Type 0
Outcome P (ok a) = P a
Outcome P (err e) = e ≡ script_error

-- A result that satisfies `P`, or ScriptError.
pub record Ensures {A : Type 0} (P : A → Type 0) (m : Result A) : Type 0 where
  pub outcome : Outcome P m

abbrev pub Any : {A : Type 0} → A → Type 0
Any a = Unit {0}

bind_outcome :
    {A B : Type 0} {P : A → Type 0} {Q : B → Type 0} (m : Result A) (f : A → Result B)
    → Ensures P m
    → ((a : A) → P a → Ensures Q (f a))
    → Ensures Q (bind_result m f)
bind_outcome (ok a) f h k = k a h.outcome
bind_outcome (err e) f h k = record { outcome = h.outcome }

pub >>=-Ensures :
    {A B : Type 0} {P : A → Type 0} {Q : B → Type 0} {m : Result A} {f : A → Result B}
    → Ensures P m
    → ((a : A) → P a → Ensures Q (f a))
    → Ensures Q (bind_result m f)
>>=-Ensures {m = m} {f = f} h k = bind_outcome m f h k

pub raise_if-Ensures :
    {B : Type 0} {Q : B → Type 0} (b : Bool) {k : Result B}
    → Ensures Q k
    → Ensures Q (bind_result (raise_if b script_error) (λ u. k))
raise_if-Ensures true h = record { outcome = refl }
raise_if-Ensures false h = h

pub ok-Ensures : {A : Type 0} {P : A → Type 0} {a : A} → P a → Ensures P (ok a)
ok-Ensures h = record { outcome = h }

pub raised-Ensures : {A : Type 0} {P : A → Type 0} → Ensures P (err script_error)
raised-Ensures = record { outcome = refl }

pub push-Ensures : (item : Bytes) (s : Stack) → IsBounded s → Ensures IsBounded (push item s)
unfolding push
push-Ensures item s h = ground arith

pub push_bool-Ensures : (b : Bool) (s : Stack) → IsBounded s → Ensures IsBounded (push_bool b s)
unfolding push_bool
push_bool-Ensures true s h = push-Ensures (1 ∷ []) s h
push_bool-Ensures false s h = push-Ensures [] s h

-- What is popped is an item of the bounded stack, and what stays is bounded.
abbrev pub Popped : Bytes × Stack → Type 0
Popped (item, s) = IsItem item × IsBounded s

pub pop-Ensures : (s : Stack) → IsBounded s → Ensures Popped (pop s)
unfolding pop
pop-Ensures [] h = raised-Ensures
pop-Ensures (item ∷ s) h = ok-Ensures (h.sizes.0, record { count = omega arith; sizes = h.sizes.1 })

pub pop_many-Ensures :
    (n : ℕ) (acc : List Bytes) (s : Stack)
    → IsBounded s
    → Ensures (λ q. IsBounded q.1) (pop_many n acc s)
unfolding pop_many
pop_many-Ensures zero acc s h = ok-Ensures h
pop_many-Ensures (suc n) acc s h =
    >>=-Ensures (pop-Ensures s h) (λ q popped. pop_many-Ensures n (q.0 ∷ acc) q.1 popped.1)

pub push_initial-Ensures :
    (items : List Bytes) (s : Stack) → IsBounded s → Ensures IsBounded (push_initial items s)
unfolding push_initial
push_initial-Ensures [] s h = ok-Ensures h
push_initial-Ensures (item ∷ items) s h = ground (arith, push_initial-Ensures items (item ∷ s))

pub decode_small_int-Ensures : (item : Bytes) → Ensures Any (decode_small_int item)
unfolding decode_small_int
decode_small_int-Ensures (b ∷ []) = ok-Ensures tt
decode_small_int-Ensures [] = raised-Ensures
decode_small_int-Ensures (b ∷ c ∷ rest) = raised-Ensures

pub decode_lock-Ensures : (item : Bytes) → Ensures Any (decode_lock item)
unfolding decode_lock
decode_lock-Ensures item = ground arith

pub truthy-Ensures : (item : Bytes) → Ensures Any (truthy item)
unfolding truthy
truthy-Ensures item = ground arith
