-- ===== src/Double/Truth.antt =====
-- Tests on doubles that hold flags and whole numbers.
use dingo_cli.Prelude.{ℕ, ◌+◌, ◌-◌, ◌≤◌, ◌^◌, ◌≡◌, Bool, true, false, not, ◌==◌, ltb, arith, ap}
use dingo_cli.Prelude.Int.{pos, ◌+ℤ◌, ◌-ℤ◌}
use dingo_cli.Double.{Double, of_ℕ, of_bool, truth}

module _ {W : Type 0} (d : Double W) where
  open d use {of_int, add, sub, eq, lt, eq-of_int, lt-of_int, add-of_int, sub-of_int}

  pub eq-of_ℕ : (a b : ℕ) → a ≤ 2 ^ 53 → b ≤ 2 ^ 53 → eq (of_ℕ d a) (of_ℕ d b) ≡ (a == b)
  eq-of_ℕ a b h k = ground (arith, eq-of_int (pos a) (pos b))

  pub lt-of_ℕ : (a b : ℕ) → a ≤ 2 ^ 53 → b ≤ 2 ^ 53 → lt (of_ℕ d a) (of_ℕ d b) ≡ ltb a b
  lt-of_ℕ a b h k = ground (arith, lt-of_int (pos a) (pos b))

  pub add-of_ℕ : (a b : ℕ) → a + b ≤ 2 ^ 53 → add (of_ℕ d a) (of_ℕ d b) ≡ of_ℕ d (a + b)
  unfolding ◌+ℤ◌
  add-of_ℕ a b h = ground (arith, add-of_int (pos a) (pos b))

  pub sub-of_ℕ : (a b : ℕ) → b ≤ a → a ≤ 2 ^ 53 → sub (of_ℕ d a) (of_ℕ d b) ≡ of_ℕ d (a - b)
  unfolding ◌-ℤ◌
  sub-of_ℕ a b h k = ground (arith, sub-of_int (pos a) (pos b))

  pub truth-of_ℕ : (a : ℕ) → a ≤ 2 ^ 53 → truth d (of_ℕ d a) ≡ not (a == 0)
  truth-of_ℕ a h = ap not (eq-of_ℕ a 0 h (omega arith))

  pub truth-of_bool : (b : Bool) → truth d (of_bool d b) ≡ b
  truth-of_bool true = truth-of_ℕ 1 (omega arith)
  truth-of_bool false = truth-of_ℕ 0 (omega arith)
