-- ===== src/Bits/Laws/Digits.antt =====
-- The lowest digit of `&` and of `|`.
use Prim.Native.Nat.{bit_and, bit_or, digits, bitwise, bit_and-bitwise, bit_or-bitwise}
use native.Mathlib.Nat.{le_refl}
use dingo_cli.Prelude.{
  ℕ, zero, suc, ◌+◌, ◌*◌, ◌/◌, ◌%◌, ◌≤◌, min, max, ◌≡◌, refl, ap, ◌∙◌, arith, ltb, Bool-cases, inl,
  inr,
}

-- Both operations are `digits z f`, with the first number as the fuel. More fuel gives the same.
module _ (z : ℕ → ℕ) (f : ℕ → ℕ → ℕ) where
  digits_once_more : (n a b : ℕ) → a ≤ n → digits z f (suc n) a b ≡ digits z f n a b
  digits_once_more zero zero b h = refl
  digits_once_more (suc n) zero b h = refl
  digits_once_more zero (suc a) b h = absurd (omega arith)
  digits_once_more (suc n) (suc a) b h =
      ap (λ t. t * 2 + f (suc a % 2) (b % 2)) (digits_once_more n (suc a / 2) (b / 2) (omega arith))

  digits_more : (m n a b : ℕ) → a ≤ n → n ≤ m → digits z f m a b ≡ digits z f n a b
  digits_more zero zero a b h k = refl
  digits_more zero (suc n) a b h k = absurd (omega arith)
  digits_more (suc m) n a b h k = elim (Bool-cases (ltb m n)) [
    | inl lt ↦ let e : suc m ≡ n = ground arith in ap (λ t. digits z f t a b) e
    | inr ge ↦ digits_once_more m a b (ground arith) ∙ digits_more m n a b h (ground arith)
  ]

  bitwise_digit :
      (a b : ℕ)
      → bitwise z f (suc a) b ≡ bitwise z f (suc a / 2) (b / 2) * 2 + f (suc a % 2) (b % 2)
  bitwise_digit a b =
      ap (λ t. t * 2 + f (suc a % 2) (b % 2))
        (digits_more a (suc a / 2) (suc a / 2) (b / 2) (le_refl _) (omega arith))

pub bit_and_digit : (a b : ℕ) → bit_and a b ≡ bit_and (a / 2) (b / 2) * 2 + min (a % 2) (b % 2)
bit_and_digit zero b = omega (arith, bit_and-bitwise 0 b, bit_and-bitwise 0 (b / 2))
bit_and_digit (suc a) b =
    rw (bit_and-bitwise, bit_and-bitwise (suc a / 2)) (bitwise_digit (λ c. 0) min a b)

pub bit_or_digit : (a b : ℕ) → bit_or a b ≡ bit_or (a / 2) (b / 2) * 2 + max (a % 2) (b % 2)
bit_or_digit zero b = omega (arith, bit_or-bitwise 0 b, bit_or-bitwise 0 (b / 2))
bit_or_digit (suc a) b =
    rw (bit_or-bitwise, bit_or-bitwise (suc a / 2)) (bitwise_digit (λ c. c) max a b)
