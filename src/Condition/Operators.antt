-- ===== src/Condition/Operators.antt =====
-- What the operators of conditions and of CAN inputs compute on whole numbers.
use native.Mathlib.Nat.{mod-eq_of_lt}
use dingo_cli.Prelude.{
  ℕ, ◌-◌, ◌≤◌, ◌<◌, ◌^◌, ◌≡◌, Bool, true, false, not, arith, ◌==◌, if◌then◌else◌,
}
use dingo_cli.Prelude.Int.{ℤ, pos, negsuc, ◌-ℤ◌, eqb_ℤ, ltb_ℤ, leb_ℤ}
use dingo_cli.Prelude.Results.{ok}
use dingo_cli.Enums.{op_eq, op_ne, op_gt, op_lt, op_ge, op_le, op_bitand, op_bitnand}
use dingo_cli.Double.{Double, of_ℕ, of_bool, truth, IsExact}
use dingo_cli.Bits.{and_ℤ}
use dingo_cli.Bits.Laws.{mod_power, and_ℤ-low_mask}
use dingo_cli.Dbc.Range.{mod_power-lt}
use dingo_cli.Double.Truth.{truth-of_ℕ}
use dingo_cli.Condition.{and_ints, cmp, low_16, complement32, condition_value}

-- The comparisons on integers.
abbrev pub compares : (op : ℕ) → ℤ → ℤ → Bool
compares op a b =
    if op == op_eq
    then eqb_ℤ a b
    else if op == op_ne
    then not (eqb_ℤ a b)
    else if op == op_gt
    then ltb_ℤ b a
    else if op == op_lt
    then ltb_ℤ a b
    else if op == op_ge
    then leb_ℤ b a
    else leb_ℤ a b

module _ {W : Type 0} (d : Double W) where
  open d use {of_int, to_int, eq-of_int, lt-of_int, le-of_int, to_int-of_int}

  cmp-compares :
      (op : ℕ) (a b : ℤ) (can_input : Bool)
      → IsExact a
      → IsExact b
      → op ≤ op_le
      → cmp d op (of_int a) (of_int b) can_input ≡ ok (compares op a b)
  unfolding cmp
  cmp-compares op a b can_input ha hb h = ground (
    arith,
    eq-of_int a b ha hb,
    lt-of_int a b ha hb,
    lt-of_int b a hb ha,
    le-of_int a b ha hb,
    le-of_int b a hb ha,
  )

  -- On whole numbers that a double holds, the six comparisons decide the order of the integers, for
  -- conditions and CAN inputs alike, and the value of a condition is 1 or 0.
  pub condition_value-compares :
      (op : ℕ) (a b : ℤ)
      → IsExact a
      → IsExact b
      → op ≤ op_le
      → (condition_value d op (of_int a) (of_int b) ≡ ok (of_bool d (compares op a b)))
        × ((can_input : Bool) → cmp d op (of_int a) (of_int b) can_input ≡ ok (compares op a b))
  unfolding condition_value
  condition_value-compares op a b ha hb h = (
    ground (arith, cmp-compares op a b false ha hb h),
    λ can_input. cmp-compares op a b can_input ha hb h,
  )

  module _ (a b : ℤ) (ha : IsExact a) (hb : IsExact b) where
    and_ints-of_int : and_ints d (of_int a) (of_int b) ≡ ok (and_ℤ a b)
    unfolding and_ints
    and_ints-of_int = rw (to_int-of_int a ha, to_int-of_int b hb)

    -- For a CAN input, on whole numbers that a double holds, BitwiseAnd tests whether the bits that the
    -- operands share make a positive number, and BitwiseNand is its complement.
    pub cmp_complement :
        (cmp d op_bitand (of_int a) (of_int b) true ≡ ok (ltb_ℤ (pos 0) (and_ℤ a b)))
        × (cmp d op_bitnand (of_int a) (of_int b) true ≡ ok (not (ltb_ℤ (pos 0) (and_ℤ a b))))
    unfolding cmp
    cmp_complement = (rw and_ints-of_int, rw and_ints-of_int)

    low_16-of_int : low_16 d (of_int a) (of_int b) ≡ ok (pos (mod_power 16 (and_ℤ a b)))
    unfolding low_16
    low_16-of_int = rw (and_ints-of_int, and_ℤ-low_mask 16 (and_ℤ a b))

    complement32_lem : (n : ℕ) → n < 2 ^ 16 → complement32 (pos n) ≡ pos (2 ^ 32 - 1 - n)
    unfolding complement32 ◌-ℤ◌
    complement32_lem n h =
        ground (arith, and_ℤ-low_mask 32 (negsuc n), mod-eq_of_lt {n = n} {m = 2 ^ 32})

    -- For a condition, on whole numbers that a double holds, BitwiseAnd gives the low 16 bits that the
    -- operands share, and BitwiseNand gives 2 ^ 32 - 1 less that, which is true whatever they are.
    pub condition_value_bits :
        let n = mod_power 16 (and_ℤ a b) in
        (n < 2 ^ 16)
        × (condition_value d op_bitand (of_int a) (of_int b) ≡ ok (of_ℕ d n))
        × (condition_value d op_bitnand (of_int a) (of_int b) ≡ ok (of_ℕ d (2 ^ 32 - 1 - n)))
        × (truth d (of_ℕ d (2 ^ 32 - 1 - n)) ≡ true)
    unfolding condition_value
    condition_value_bits =
        let n = mod_power 16 (and_ℤ a b) in
        let small = mod_power-lt 16 (and_ℤ a b) in
        (
          small,
          rw low_16-of_int,
          rw (low_16-of_int, complement32_lem n small),
          ground (arith, truth-of_ℕ d (2 ^ 32 - 1 - n)),
        )
