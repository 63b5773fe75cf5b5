-- ===== src/Prelude/Results.antt =====
-- Python code that may raise: the exceptions that the simulator lets escape, and their monad.
-- `not_finite` is what `int` raises on an infinity (OverflowError) or a NaN (ValueError).
use dingo_cli.Prelude.Tests.{if◌then◌else◌}
use mathlib.Core.Path.{◌≡◌, refl, sym}
use mathlib.Core.Logic.{◌≢◌}
use mathlib.Core.Bool.{Bool, true, false}
use native.Mathlib.Omega.{arith}
use mathlib.Core.Option.{Option, none, some}

-- `unsupported` is the class of dingosim.py, the others are Python's; type_error is an AttributeError too.
pub data Fault : Type 0 where
  unsupported index_error value_error key_error type_error not_finite : Fault

pub data Result {ℓ} (A : Type ℓ) : Type ℓ where
  ok : A → Result A
  raise : Fault → Result A

infixl 5 ◌>>=◌ ◌>>◌
abbrev pub ◌>>=◌ {ℓ κ} : {A : Type ℓ} {B : Type κ} → Result A → (A → Result B) → Result B
ok a >>= f = f a
raise e >>= f = raise e

abbrev pub ◌>>◌ {ℓ} : {B : Type ℓ} → Result (Unit {0}) → Result B → Result B
m >> k = m >>= λ _. k

abbrev pub or_raise {ℓ} : {A : Type ℓ} → Fault → Option A → Result A
or_raise e none = raise e
or_raise e (some a) = ok a

pub raise-ne-ok : {A : Type 0} (e : Fault) (a : A) → raise e ≢ ok a
raise-ne-ok e a h = cc

-- The computation returns, and its result satisfies `P`.
pub data Returns {A : Type 0} (P : A → Type 0) : Result A → Type 0 where
  returns : (a : A) → P a → Returns P (ok a)

module _ {A : Type 0} where
  pub Returns-value : {P : A → Type 0} (r : Result A) → Returns P r → (a : A) × (r ≡ ok a) × P a
  Returns-value (ok a) (returns b h) = (a, refl, h)
  Returns-value (raise e) h = elim h [ ]

  pub Returns-weaken :
      {P Q : A → Type 0} {r : Result A} → ((a : A) → P a → Q a) → Returns P r → Returns Q r
  Returns-weaken f (returns a h) = returns a (f a h)

  pub Returns-eq :
      {P Q : A → Type 0} {r : Result A}
      → Returns P r
      → ((a : A) → r ≡ ok a → P a → Q a)
      → Returns Q r
  Returns-eq (returns a h) f = returns a (f a refl h)

  pub Returns-bind :
      {B : Type 0} {P : A → Type 0} {Q : B → Type 0} {r : Result A} {f : A → Result B}
      → Returns P r
      → ((a : A) → P a → Returns Q (f a))
      → Returns Q (r >>= f)
  Returns-bind (returns a h) k = k a h

  pub Returns-if :
      {P : A → Type 0} (b : Bool) {r s : Result A}
      → (b ≡ true → Returns P r)
      → (b ≡ false → Returns P s)
      → Returns P (if b then r else s)
  Returns-if true yes_case no_case = yes_case refl
  Returns-if false yes_case no_case = no_case refl

-- Inversion of a successful bind.
pub >>=-eq-ok :
    {A B : Type 0} (r : Result A) (f : A → Result B) {b : B}
    → (r >>= f) ≡ ok b
    → (a : A) × (r ≡ ok a) × (f a ≡ ok b)
>>=-eq-ok (ok a) f h = (a, refl, h)
>>=-eq-ok (raise e) f h = cc

-- The computation returns, and its result satisfies `P`, or a conversion to an integer fails, which
-- it may do only where `E` holds.
pub data Outcome {A : Type 0} (E : Type 0) (P : A → Type 0) : Result A → Type 0 where
  returns_as : (a : A) → P a → Outcome E P (ok a)
  overflows : E → Outcome E P (raise not_finite)

module _ {A : Type 0} {E : Type 0} where
  pub Outcome-Returns : {P : A → Type 0} {r : Result A} → Returns P r → Outcome E P r
  Outcome-Returns (returns a h) = returns_as a h

  pub Outcome-weaken :
      {P Q : A → Type 0} {r : Result A} → ((a : A) → P a → Q a) → Outcome E P r → Outcome E Q r
  Outcome-weaken f (returns_as a h) = returns_as a (f a h)
  Outcome-weaken f (overflows e) = overflows e

  pub Outcome-bind :
      {B : Type 0} {P : A → Type 0} {Q : B → Type 0} {r : Result A} {f : A → Result B}
      → Outcome E P r
      → ((a : A) → P a → Outcome E Q (f a))
      → Outcome E Q (r >>= f)
  Outcome-bind (returns_as a h) k = k a h
  Outcome-bind (overflows e) k = overflows e

  pub Outcome-total : {P : A → Type 0} {r : Result A} → ¬ E → Outcome E P r → Returns P r
  Outcome-total never (returns_as a h) = returns a h
  Outcome-total never (overflows e) = absurd (never e)

  -- What holds of the result of a computation that returned.
  pub Outcome-result : {P : A → Type 0} (r : Result A) (a : A) → Outcome E P r → r ≡ ok a → P a
  Outcome-result (ok b) a (returns_as c h) e = let same : b ≡ a = ground arith in rw (sym same) h
  Outcome-result (raise f) a h e = cc

  -- The rest of the block may use the equation of what it binds.
  pub Outcome-bind_eq :
      {B : Type 0} {P : A → Type 0} {Q : B → Type 0} {r : Result A} {f : A → Result B}
      → Outcome E P r
      → ((a : A) → r ≡ ok a → P a → Outcome E Q (f a))
      → Outcome E Q (r >>= f)
  Outcome-bind_eq (returns_as a h) k = k a refl h
  Outcome-bind_eq (overflows e) k = overflows e

  pub Outcome-if :
      {P : A → Type 0} (b : Bool) {r s : Result A}
      → (b ≡ true → Outcome E P r)
      → (b ≡ false → Outcome E P s)
      → Outcome E P (if b then r else s)
  Outcome-if true yes_case no_case = yes_case refl
  Outcome-if false yes_case no_case = no_case refl

  -- A conversion that may fail, where it may.
  pub Outcome-converts : (o : Option A) → E → Outcome E (λ a. Unit {0}) (or_raise not_finite o)
  Outcome-converts none e = overflows e
  Outcome-converts (some a) e = returns_as a tt

pub or_raise-eq-ok :
    {A : Type 0} (e : Fault) (o : Option A) (a : A) → or_raise e o ≡ ok a → o ≡ some a
or_raise-eq-ok e none a h = cc
or_raise-eq-ok e (some b) a h = let same : b ≡ a = ground arith in rw same refl

-- Two blocks with the same first step and the same rest.
pub >>=_same :
    {A B : Type 0} (r : Result A) {f g : A → Result B}
    → ((a : A) → f a ≡ g a)
    → (r >>= f) ≡ (r >>= g)
>>=_same (ok a) h = h a
>>=_same (raise e) h = refl
