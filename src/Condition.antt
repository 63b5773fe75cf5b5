-- ===== src/Condition.antt =====
-- `Sim._cmp` and `Sim._condition` of fwmodel/model/dingosim.py (can_input.cpp, condition.cpp).
pub mod Operators
use dingo_cli.Prelude.{ℕ, ◌+◌, ◌-◌, Bool, true, false, not, List, ltb, ◌==◌, if◌then◌else◌}
use dingo_cli.Prelude.Int.{ℤ, pos, negsuc, ◌-ℤ◌, eqb_ℤ, ltb_ℤ}
use dingo_cli.Prelude.Results.{Result, ok, not_finite, or_raise, ◌>>=◌}
use dingo_cli.Enums.{op_eq, op_ne, op_gt, op_lt, op_ge, op_le, op_bitand, op_bitnand}
use dingo_cli.Double.{Double, of_ℕ}
use dingo_cli.Bits.{and_ℤ}
use dingo_cli.Vars.{read, write}

pub record ConditionConfig (W : Type 0) : Type 0 where
  pub enabled : Bool
  pub input : ℕ
  pub operator : ℕ
  pub arg : W

-- ~x & 0xFFFFFFFF or 1
unfoldable pub complement32 : ℤ → ℤ
unfolding and_ℤ ◌-ℤ◌
complement32 x =
    let flipped = and_ℤ (negsuc 0 -ℤ x) (pos (0xFFFFFFFF)) in
    if eqb_ℤ flipped (pos 0) then pos 1 else flipped

module _ {W : Type 0} (d : Double W) where
  open d use {of_int, to_int, eq, lt, le}

  -- int(lhs) & int(rhs)
  unfoldable pub and_ints : W → W → Result ℤ
  unfolding and_ℤ
  and_ints lhs rhs = do
    a ← or_raise not_finite (to_int lhs)
    b ← or_raise not_finite (to_int rhs)
    ok (and_ℤ a b)

  -- Sim._cmp
  unfoldable pub cmp : (op : ℕ) (lhs rhs : W) (can_input : Bool) → Result Bool
  cmp op lhs rhs can_input =
      if op == op_eq
      then ok (eq lhs rhs)
      else if op == op_ne
      then ok (not (eq lhs rhs))
      else if op == op_gt
      then ok (lt rhs lhs)
      else if op == op_lt
      then ok (lt lhs rhs)
      else if op == op_ge
      then ok (le rhs lhs)
      else if op == op_le
      then ok (le lhs rhs)
      else if op == op_bitand
      then (do
        both ← and_ints lhs rhs
        ok (if can_input then ltb_ℤ (pos 0) both else not (eqb_ℤ both (pos 0))))
      else if op == op_bitnand
      then (if can_input
          then (do both ← and_ints lhs rhs; ok (not (ltb_ℤ (pos 0) both)))
          else ok true)
      else ok false

  -- The bits that condition.cpp keeps of the two operands.
  unfoldable pub low_16 : W → W → Result ℤ
  low_16 lhs rhs = do both ← and_ints lhs rhs; ok (and_ℤ both (pos (0xFFFF)))

  -- The value of an enabled condition.
  unfoldable pub condition_value : (op : ℕ) (lhs rhs : W) → Result W
  condition_value op lhs rhs =
      if op == op_bitand
      then (do both ← low_16 lhs rhs; ok (of_int both))
      else if op == op_bitnand
      then (do both ← low_16 lhs rhs; ok (of_int (complement32 both)))
      else if ltb op_bitnand op
      then ok (of_ℕ d 0)
      else (do holds ← cmp op lhs rhs false; ok (if holds then of_ℕ d 1 else of_ℕ d 0))

  -- Sim._condition. A condition has no state.
  unfoldable pub condition :
      (base i : ℕ) → ConditionConfig W → Unit {0} → List W → Result (Unit {0} × List W)
  unfolding condition_value low_16 complement32 cmp and_ints read write
  condition base i c state vars =
      if c.enabled
      then (do
        lhs ← read vars c.input
        value ← condition_value c.operator lhs c.arg
        vars' ← write vars (base + i) value
        ok (state, vars'))
      else (do vars' ← write vars (base + i) (of_ℕ d 0); ok (state, vars'))
