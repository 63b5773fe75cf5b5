-- ===== src/Fuzz/Random.antt =====
-- Python's random source, as fwhost/fuzz.py uses it: a state that gives numbers below a bound. What it
-- gives is a parameter, on which `randrange` and `choice` are written.
use dingo_cli.Prelude.{
  ℕ, zero, suc, ◌+◌, ◌-◌, ◌<◌, ◌≤◌, ◌≡◌, refl, ap, Bool, true, false, List, [], ◌∷◌, arith, length,
  get_or, if◌then◌else◌,
}

-- randbelow(n) is below n, for n > 0.
pub record Source (R : Type 0) : Type 0 where
  pub below : ℕ → R → ℕ × R
  -- random() < percent / 100
  pub chance : (percent : ℕ) → R → Bool × R
  pub below-lt : (n : ℕ) (r : R) → 0 < n → (below n r).0 < n

abbrev pub Gen : Type 0 → Type 0 → Type 0
Gen R A = R → A × R

module _ {R : Type 0} where
  abbrev pub done : {A : Type 0} → A → Gen R A
  done a r = (a, r)

  infixl 5 ◌>>=◌
  abbrev pub ◌>>=◌ : {A B : Type 0} → Gen R A → (A → Gen R B) → Gen R B
  ◌>>=◌ m f r = f (m r).0 (m r).1

  -- m if on else x
  unfoldable pub when : {A : Type 0} (on : Bool) → A → Gen R A → Gen R A
  when on x m = if on then m else done x

  -- A list of `count` calls, with the index from `i` on.
  unfoldable pub times : {A : Type 0} (count i : ℕ) → (ℕ → Gen R A) → Gen R (List A)
  times zero i g = done []
  times (suc count) i g = do x ← g i; xs ← times count (suc i) g; done (x ∷ xs)

module _ {R : Type 0} (src : Source R) where
  -- rnd.randrange(lo, hi)
  unfoldable pub randrange : (lo hi : ℕ) → Gen R ℕ
  randrange lo hi r = let (n, r') = src.below (hi - lo) r in (lo + n, r')

  -- rnd.choice of a list that is not empty
  unfoldable pub choice : {A : Type 0} → A → List A → Gen R A
  choice x xs r = let (n, r') = src.below (length (x ∷ xs)) r in (get_or (x ∷ xs) n x, r')

-- What holds of whatever a generator gives.
abbrev pub Always : {R A : Type 0} → (A → Type 0) → Gen R A → Type 0
Always {R} P g = (r : R) → P (g r).0

unfoldable pub All : {A : Type 0} → (A → Type 0) → List A → Type 0
All P [] = Unit {0}
All P (x ∷ xs) = P x × All P xs

module _ {R : Type 0} where
  pub Always-bind :
      {A B : Type 0} (Q : A → Type 0) (P : B → Type 0) (m : Gen R A) (f : A → Gen R B)
      → Always Q m
      → ((a : A) → Q a → Always P (f a))
      → Always P (m >>= f)
  Always-bind Q P m f h k r = k (m r).0 (h r) (m r).1

  pub times-All :
      {A : Type 0} (P : A → Type 0) (count i : ℕ) (g : ℕ → Gen R A)
      → ((i : ℕ) → Always P (g i))
      → Always (λ xs. (length xs ≡ count) × All P xs) (times count i g)
  unfolding times All
  times-All P zero i g h r = (refl, tt)
  times-All P (suc count) i g h r =
      let (n, all) = times-All P count (suc i) g h (g i r).1 in (omega arith, (h i r, all))

  pub length-times :
      {A : Type 0} (count i : ℕ) (g : ℕ → Gen R A)
      → Always (λ xs. length xs ≡ count) (times count i g)
  unfolding times
  length-times zero i g r = refl
  length-times (suc count) i g r = ap suc (length-times count (suc i) g (g i r).1)

  pub when-All :
      {A : Type 0} (P : A → Type 0) (on : Bool) (x : A) (m : Gen R A)
      → P x
      → Always P m
      → Always P (when on x m)
  unfolding when
  when-All P true x m p h r = h r
  when-All P false x m p h r = p

pub All-nil : {A : Type 0} (P : A → Type 0) → All P []
unfolding All
All-nil P = tt

get_or-All :
    {A : Type 0} (P : A → Type 0) (xs : List A) (i : ℕ) (x : A) → All P xs → P x → P (get_or xs i x)
unfolding All
get_or-All P [] i x h p = p
get_or-All P (y ∷ xs) zero x h p = h.0
get_or-All P (y ∷ xs) (suc i) x h p = get_or-All P xs i x h.1 p

module _ {R : Type 0} (src : Source R) where
  pub choice-All :
      {A : Type 0} (P : A → Type 0) (x : A) (xs : List A)
      → All P (x ∷ xs)
      → Always P (choice src x xs)
  unfolding choice All
  choice-All P x xs h r = get_or-All P (x ∷ xs) _ x h h.0

  pub randrange-lt : (lo hi : ℕ) → lo < hi → Always (λ n. (lo ≤ n) × (n < hi)) (randrange src lo hi)
  unfolding randrange
  randrange-lt lo hi h r =
      let z = src.below-lt (hi - lo) r (omega arith) in (omega arith, omega arith)
