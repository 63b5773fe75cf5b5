-- ===== src/Sim/Slots/Can.antt =====
-- The slots that convert a float to an integer: CAN inputs, conditions and CAN outputs.
use dingo_cli.Prelude.{
  ℕ, suc, ◌+◌, ◌*◌, ◌≤◌, ◌≡◌, refl, Bool, true, false, ◌&&◌, ◌||◌, List, arith, length, ◌==◌, ltb,
}
use dingo_cli.Prelude.Results.{
  Outcome, returns_as, Outcome-Returns, Outcome-bind, Outcome-if, Outcome-converts,
}
use dingo_cli.Enums.{op_eq, op_ne, op_gt, op_lt, op_ge, op_le, op_bitand, op_bitnand}
use dingo_cli.Double.{Double}
use dingo_cli.Vars.Frame.{Frame, Frame-trans, Frame-refl, read-Returns}
use dingo_cli.Config.Accepted.{ConditionReads}
use dingo_cli.CanInput.{CanInputConfig, CanInputState, RxFrame, accepts, receive, check_timeout}
use dingo_cli.Condition.{ConditionConfig, and_ints, cmp, low_16, condition_value, condition}
use dingo_cli.Sim.Slots.{write-Frame}

-- The operators that convert their operands.
abbrev pub is_bitwise : ℕ → Bool
is_bitwise op = op == op_bitand || op == op_bitnand

module _ {W : Type 0} (d : Double W) (E : Type 0) where
  open d use {to_int, eq, lt, le}

  and_ints-Outcome : (lhs rhs : W) → E → Outcome E (λ z. Unit {0}) (and_ints d lhs rhs)
  unfolding and_ints
  and_ints-Outcome lhs rhs h =
      Outcome-bind (Outcome-converts (to_int lhs) h)
        λ a t. Outcome-bind (Outcome-converts (to_int rhs) h) λ b u. returns_as _ tt

  cmp-Outcome :
      (op : ℕ) (lhs rhs : W) (can_input : Bool)
      → (is_bitwise op ≡ true → E)
      → Outcome E (λ b. Unit {0}) (cmp d op lhs rhs can_input)
  unfolding cmp
  cmp-Outcome op lhs rhs can_input h =
      Outcome-if (op == op_eq) (λ e. returns_as _ tt)
        λ e.
          Outcome-if (op == op_ne) (λ e. returns_as _ tt)
            λ e.
              Outcome-if (op == op_gt) (λ e. returns_as _ tt)
                λ e.
                  Outcome-if (op == op_lt) (λ e. returns_as _ tt)
                    λ e.
                      Outcome-if (op == op_ge) (λ e. returns_as _ tt)
                        λ e.
                          Outcome-if (op == op_le) (λ e. returns_as _ tt)
                            λ e.
                              Outcome-if (op == op_bitand)
                                (λ f.
                                  Outcome-bind (and_ints-Outcome lhs rhs (h (rw f refl)))
                                    λ z t. returns_as _ tt)
                                λ f.
                                  Outcome-if (op == op_bitnand)
                                    (λ g.
                                      Outcome-if can_input
                                        (λ k.
                                          Outcome-bind
                                            (and_ints-Outcome lhs rhs (h (rw (f, g) refl)))
                                            λ z t. returns_as _ tt)
                                        (λ k. returns_as _ tt))
                                    (λ g. returns_as _ tt)

  condition_value-Outcome :
      (op : ℕ) (lhs rhs : W)
      → (is_bitwise op ≡ true → E)
      → Outcome E (λ x. Unit {0}) (condition_value d op lhs rhs)
  unfolding condition_value low_16
  condition_value-Outcome op lhs rhs h =
      Outcome-if (op == op_bitand)
        (λ e. Outcome-bind (low_16-Outcome (h (rw e refl))) λ z t. returns_as _ tt)
        (λ e.
          Outcome-if (op == op_bitnand)
            (λ f. Outcome-bind (low_16-Outcome (h (rw (e, f) refl))) λ z t. returns_as _ tt)
            (λ f.
              Outcome-if (ltb op_bitnand op) (λ g. returns_as _ tt)
                (λ g. Outcome-bind (cmp-Outcome op lhs rhs false h) λ b t. returns_as _ tt)))
    where
      low_16-Outcome : E → Outcome E (λ z. Unit {0}) (low_16 d lhs rhs)
      low_16-Outcome e = Outcome-bind (and_ints-Outcome lhs rhs e) λ z t. returns_as _ tt

  module _ (n : ℕ) where
    pub condition-Frame :
        (base i : ℕ) (c : ConditionConfig W) (s : Unit {0}) (xs : List W)
        → ConditionReads n c
        → (c.enabled ≡ true → is_bitwise c.operator ≡ true → E)
        → length xs ≡ n
        → base + 1 * suc i ≤ n
        → Outcome E
            (λ r. Frame (base + 1 * i) (base + 1 * suc i) xs r.1)
            (condition d base i c s xs)
    unfolding condition
    condition-Frame base i c s xs good bits e h =
        let lo = base + 1 * i in
        let hi = base + 1 * suc i in
        Outcome-if c.enabled
          (λ enabled.
            Outcome-bind (Outcome-Returns (read-Returns xs c.input (omega (arith, good enabled))))
              λ x f. Outcome-bind (condition_value-Outcome c.operator x c.arg (bits enabled)) λ y t.
                Outcome-bind
                  (Outcome-Returns
                    (write-Frame lo hi xs (base + i) y (omega arith) (omega arith) (omega arith)))
                  λ ys g. returns_as _ g)
          (λ disabled.
            Outcome-bind
              (Outcome-Returns
                (write-Frame lo hi xs (base + i) _ (omega arith) (omega arith) (omega arith)))
              λ ys g. returns_as _ g)

    pub receive-Frame :
        (base now ext_ide : ℕ) (frame : RxFrame) (i : ℕ) (c : CanInputConfig W) (s : CanInputState)
        (xs : List W)
        → (c.enabled ≡ true → is_bitwise c.operator ≡ true → E)
        → length xs ≡ n
        → base + 2 * suc i ≤ n
        → Outcome E
            (λ r. Frame (base + 2 * i) (base + 2 * suc i) xs r.1)
            (receive d base now ext_ide frame i c s xs)
    unfolding receive accepts
    receive-Frame base now ext_ide (fid, payload) i c s xs bits e h =
        let lo = base + 2 * i in
        let hi = base + 2 * suc i in
        Outcome-if (accepts d ext_ide (fid, payload) c)
          (λ accepted.
            Outcome-bind
              (Outcome-Returns (
                write-Frame lo hi xs (base + 2 * i + 1) _ (omega arith) (omega arith)
                  (omega arith)))
              λ x1 f1.
                Outcome-bind (cmp-Outcome c.operator _ c.operand true (bits (ground arith))) λ b t.
                  Outcome-bind
                    (Outcome-Returns (
                      write-Frame lo hi x1 (base + 2 * i) _ (omega arith) (omega arith)
                        (omega (arith, f1.same_length))))
                    λ x2 f2. returns_as _ (Frame-trans f1 f2))
          (λ passed. returns_as (s, xs) (Frame-refl _ _ xs))

    pub check_timeout-Frame :
        (base now i : ℕ) (c : CanInputConfig W) (s : CanInputState) (xs : List W)
        → length xs ≡ n
        → base + 2 * suc i ≤ n
        → Outcome E
            (λ r. Frame (base + 2 * i) (base + 2 * suc i) xs r.1)
            (check_timeout d base now i c s xs)
    unfolding check_timeout
    check_timeout-Frame base now i c s xs e h =
        let lo = base + 2 * i in
        let hi = base + 2 * suc i in
        Outcome-if (c.enabled && c.timeout_enabled && ltb (s.last_rx + c.timeout) now)
          (λ expired.
            Outcome-bind
              (Outcome-Returns
                (write-Frame lo hi xs (base + 2 * i) _ (omega arith) (omega arith) (omega arith)))
              λ x1 f1.
                Outcome-bind
                  (Outcome-Returns (
                    write-Frame lo hi x1 (base + 2 * i + 1) _ (omega arith) (omega arith)
                      (omega (arith, f1.same_length))))
                  λ x2 f2. returns_as _ (Frame-trans f1 f2))
          (λ passed. returns_as (s, xs) (Frame-refl _ _ xs))
