-- ===== src/Prelude/Options.antt =====
-- Optional values: a chain of steps of which any may have no result.
use Prim.Native.Nat.{suc}
use mathlib.Core.Path.{◌≡◌, refl, sym, ap}
use mathlib.Core.Option.{Option, none, some}
use mathlib.Core.List.{List, [], ◌∷◌}
use native.Mathlib.Omega.{arith}
use dingo_cli.Prelude.Lists.{length}

infixl 5 ◌>>=◌
abbrev pub ◌>>=◌ : {A B : Type 0} → Option A → (A → Option B) → Option B
none >>= f = none
some a >>= f = f a

-- The conversions of all slots of a group.
unfoldable pub each : {S C : Type 0} → (S → Option C) → List S → Option (List C)
each convert [] = some []
each convert (s ∷ ss) = do c ← convert s; cs ← each convert ss; some (c ∷ cs)

abbrev pub IfSome : {A : Type 0} → (A → Type 0) → Option A → Type 0
IfSome {A} P o = (a : A) → o ≡ some a → P a

pub IfSome-some : {A : Type 0} (P : A → Type 0) (a : A) → P a → IfSome P (some a)
IfSome-some P a h b e = let same : a ≡ b = ground arith in rw (sym same) h

pub length-each :
    {S C : Type 0} (convert : S → Option C) (ss : List S) (cs : List C)
    → each convert ss ≡ some cs
    → length cs ≡ length ss
unfolding each
length-each convert [] cs e = ground arith
length-each convert (s ∷ ss) cs e =
    elim (convert s) as (λ o. convert s ≡ o → length cs ≡ suc (length ss)) [
      | none ↦ λ f. absurd (let e' = rw f at e in cc)
      | some c ↦ λ f.
          elim (each convert ss) as (λ o. each convert ss ≡ o → length cs ≡ suc (length ss)) [
            | none ↦ λ g. absurd (let e' = rw (f, g) at e in cc)
            | some more ↦ λ g.
                (let e' = rw (f, g) at e in
                  let z : cs ≡ c ∷ more = ground arith in
                  rw z (ap suc (length-each convert ss more g)))
          ]
            refl
    ]
      refl

pub IfSome-bind :
    {A B : Type 0} (P : B → Type 0) (o : Option A) (f : A → Option B)
    → ((a : A) → o ≡ some a → IfSome P (f a))
    → IfSome P (o >>= f)
IfSome-bind P none f h b e = cc
IfSome-bind P (some a) f h b e = h a refl b e
