-- ===== src/Double.antt =====
-- Python's `float`, which the var map of fwmodel/model/dingosim.py holds. Its arithmetic is not
-- the program's, so it is an interface: the operations, and the laws of IEEE doubles that the
-- properties rest on, all about whole numbers that a double holds exactly.
pub mod Exact
pub mod Truth
use dingo_cli.Prelude.{ℕ, ◌≤◌, ◌^◌, ◌≡◌, Bool, true, false, not, Option, some}
use dingo_cli.Prelude.Int.{ℤ, pos, pos_part, neg_part, ◌+ℤ◌, ◌-ℤ◌, ◌*ℤ◌, eqb_ℤ, ltb_ℤ, leb_ℤ}

-- A double holds every whole number up to 2 ^ 53.
abbrev pub IsExact : ℤ → Type 0
IsExact z = (pos_part z ≤ 2 ^ 53) × (neg_part z ≤ 2 ^ 53)

pub record Double (W : Type 0) : Type 0 where
  pub of_int : ℤ → W
  -- `int(x)`, which raises on an infinity and on a NaN.
  pub to_int : W → Option ℤ
  pub add : W → W → W
  pub sub : W → W → W
  pub mul : W → W → W
  pub div : W → W → W
  pub eq : W → W → Bool
  pub lt : W → W → Bool
  pub le : W → W → Bool
  pub to_int-of_int : (a : ℤ) → IsExact a → to_int (of_int a) ≡ some a
  pub eq-of_int : (a b : ℤ) → IsExact a → IsExact b → eq (of_int a) (of_int b) ≡ eqb_ℤ a b
  pub lt-of_int : (a b : ℤ) → IsExact a → IsExact b → lt (of_int a) (of_int b) ≡ ltb_ℤ a b
  pub le-of_int : (a b : ℤ) → IsExact a → IsExact b → le (of_int a) (of_int b) ≡ leb_ℤ a b
  pub add-of_int :
      (a b : ℤ)
      → IsExact a
      → IsExact b
      → IsExact (a +ℤ b)
      → add (of_int a) (of_int b) ≡ of_int (a +ℤ b)
  pub sub-of_int :
      (a b : ℤ)
      → IsExact a
      → IsExact b
      → IsExact (a -ℤ b)
      → sub (of_int a) (of_int b) ≡ of_int (a -ℤ b)
  pub mul-of_int :
      (a b : ℤ)
      → IsExact a
      → IsExact b
      → IsExact (a *ℤ b)
      → mul (of_int a) (of_int b) ≡ of_int (a *ℤ b)
  pub div-one : (x : W) → div x (of_int (pos 1)) ≡ x

module _ {W : Type 0} (d : Double W) where
  open d use {of_int, eq}

  abbrev pub of_ℕ : ℕ → W
  of_ℕ n = of_int (pos n)

  -- `float(b)` of a Boolean.
  abbrev pub of_bool : Bool → W
  of_bool true = of_ℕ 1
  of_bool false = of_ℕ 0

  -- `bool(x)`: a NaN is true, a zero of either sign is false.
  abbrev pub truth : W → Bool
  truth x = not (eq x (of_ℕ 0))
