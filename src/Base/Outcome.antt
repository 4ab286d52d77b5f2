-- ===== src/Base/Outcome.antt =====
-- Exceptions as values. Each constructor of `Error` is a class of Python exceptions; the message
-- texts are not kept. The static types of the model stand for the source's `isinstance` tests, so
-- `TypeError` has no constructor.
use mathlib.Core.Path.{◌≡◌, refl}
use mathlib.Core.Logic.{◌⊎◌, inl, inr}
use mathlib.Core.Bool.{Bool, true, false}

-- `stuck` is no Python exception: it marks a loop whose fuel ran out.
pub data Error : Type 0 where
  value_error key_error index_error assertion_error : Error
  script_error tx_decode_error header_decode_error shard_tree_decode_error : Error
  block_decode_error overflow_error stuck : Error

-- What a call returns, or the exception that it raises.
pub data Result {ℓ} (A : Type ℓ) : Type ℓ where
  err : (raised : Error) → Result A
  ok : (returned : A) → Result A

-- `if test: raise e`
abbrev pub raise_if : Bool → Error → Result (Unit {0})
raise_if true e = err e
raise_if false e = ok tt

infixl 5 ◌>>=◌ ◌>>◌
-- The statements behind a call run where it returns, on what it returns.
abbrev pub ◌>>=◌ {ℓ κ} : {A : Type ℓ} {B : Type κ} → Result A → (A → Result B) → Result B
err raised >>= rest = err raised
ok returned >>= rest = rest returned

-- The statements behind a guard.
abbrev pub ◌>>◌ {ℓ} : {A : Type ℓ} → Result (Unit {0}) → Result A → Result A
check >> rest = check >>= λ _. rest

-- A block that returns has run its call and the statements behind it.
pub >>=-eq-ok {ℓ κ} :
    {A : Type ℓ} {B : Type κ} (call : Result A) (rest : A → Result B) {b : B}
    → (call >>= rest) ≡ ok b
    → (a : A) × (call ≡ ok a) × (rest a ≡ ok b)
>>=-eq-ok (err raised) rest e = cc
>>=-eq-ok (ok returned) rest e = (returned, refl, e)

-- What a passed guard says, and what it leaves.
pub >>-eq-ok {ℓ} :
    {A : Type ℓ} (check : Result (Unit {0})) (rest : Result A) {b : A}
    → (check >> rest) ≡ ok b
    → (check ≡ ok tt) × (rest ≡ ok b)
>>-eq-ok (err raised) rest e = cc
>>-eq-ok (ok tt) rest e = (refl, e)

pub raise_if-eq-ok : (b : Bool) (e : Error) → raise_if b e ≡ ok tt → b ≡ false
raise_if-eq-ok true e h = cc
raise_if-eq-ok false e h = refl

pub Result-cases {ℓ} :
    {A : Type ℓ} (r : Result A) → ((a : A) × (r ≡ ok a)) ⊎ ((e : Error) × (r ≡ err e))
Result-cases (ok a) = inl (a, refl)
Result-cases (err e) = inr (e, refl)

-- A constructor call: the checks, then the object.
pub checked-eq-ok {ℓ} :
    {A : Type ℓ} (m : Result (Unit {0})) (a : A) {b : A}
    → (m >> ok a) ≡ ok b
    → (b ≡ a) × (m ≡ ok tt)
checked-eq-ok (ok tt) a h = (cc, refl)
checked-eq-ok (err e) a h = (cc, cc)

pub ok-injective {ℓ} : {A : Type ℓ} {a b : A} → ok a ≡ ok b → a ≡ b
ok-injective e = cc
