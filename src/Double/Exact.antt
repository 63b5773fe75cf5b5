-- ===== src/Double/Exact.antt =====
-- Whole numbers as doubles: the interface can be met, and the witnesses run on this instance.
use dingo_cli.Prelude.{◌/◌, ◌≡◌, refl, some, arith}
use dingo_cli.Prelude.Int.{ℤ, pos, negsuc, neg_part, ◌+ℤ◌, ◌-ℤ◌, ◌*ℤ◌, eqb_ℤ, ltb_ℤ, leb_ℤ, sub_ℕ}
use dingo_cli.Double.{Double}

-- The quotient, rounded towards zero.
unfoldable pub quotient : ℤ → ℤ → ℤ
quotient (pos a) (pos b) = pos (a / b)
quotient (pos a) b = sub_ℕ 0 (a / neg_part b)
quotient a (pos b) = sub_ℕ 0 (neg_part a / b)
quotient a b = pos (neg_part a / neg_part b)

pub quotient-one : (a : ℤ) → quotient a (pos 1) ≡ a
unfolding quotient
quotient-one (pos a) = ground arith
quotient-one (negsuc a) = ground arith

unfoldable pub exact : Double ℤ
unfolding quotient ◌+ℤ◌ ◌-ℤ◌ ◌*ℤ◌
exact = record {
  of_int = λ a. a;
  to_int = some;
  add = ◌+ℤ◌;
  sub = ◌-ℤ◌;
  mul = ◌*ℤ◌;
  div = quotient;
  eq = eqb_ℤ;
  lt = ltb_ℤ;
  le = leb_ℤ;
  to_int-of_int = λ a h. refl;
  eq-of_int = λ a b h k. refl;
  lt-of_int = λ a b h k. refl;
  le-of_int = λ a b h k. refl;
  add-of_int = λ a b h k l. refl;
  sub-of_int = λ a b h k l. refl;
  mul-of_int = λ a b h k l. refl;
  div-one = quotient-one;
}
