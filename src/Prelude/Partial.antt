-- ===== src/Prelude/Partial.antt =====
-- What holds of the result of a computation, if it returns one.
use mathlib.Core.Path.{◌≡◌, refl, sym}
use native.Mathlib.Omega.{arith}
use dingo_cli.Prelude.Results.{Result, ok, raise, ◌>>=◌}

abbrev pub IfOk : {A : Type 0} → (A → Type 0) → Result A → Type 0
IfOk {A} P r = (a : A) → r ≡ ok a → P a

pub IfOk-ok : {A : Type 0} (P : A → Type 0) (a : A) → P a → IfOk P (ok a)
IfOk-ok P a h b e = let same : a ≡ b = ground arith in rw (sym same) h

-- The rest of a block may use the equation of what it binds.
pub IfOk-bind :
    {A B : Type 0} (P : B → Type 0) (r : Result A) (f : A → Result B)
    → ((a : A) → r ≡ ok a → IfOk P (f a))
    → IfOk P (r >>= f)
IfOk-bind P (ok a) f h b e = h a refl b e
IfOk-bind P (raise x) f h b e = cc
