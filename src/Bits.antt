-- ===== src/Bits.antt =====
-- Python's bit operations on integers: shifts, and `&` on integers of either sign, which has the
-- two's complement digits of a negative number without end.
pub mod Laws
use Prim.Native.Nat.{bit_and, bit_or}
use dingo_cli.Prelude.{ℕ, ◌-◌, ◌*◌, ◌/◌, ◌^◌, ◌<◌}
use dingo_cli.Prelude.Int.{ℤ, pos, negsuc}

infixl 60 ◌<<<◌ ◌>>>◌
abbrev pub ◌<<<◌ : ℕ → ℕ → ℕ
x <<< k = x * 2 ^ k

abbrev pub ◌>>>◌ : ℕ → ℕ → ℕ
x >>> k = x / 2 ^ k

-- (1 << k) - 1
abbrev pub low_mask : ℕ → ℕ
low_mask k = 2 ^ k - 1

-- a & b
unfoldable pub and_ℤ : ℤ → ℤ → ℤ
and_ℤ (pos a) (pos b) = pos (bit_and a b)
and_ℤ (pos a) (negsuc m) = pos (a - bit_and a m)
and_ℤ (negsuc m) (pos b) = pos (b - bit_and b m)
and_ℤ (negsuc m) (negsuc n) = negsuc (bit_or m n)
