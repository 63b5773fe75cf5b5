-- ===== src/Bits/Laws/Division.antt =====
-- Quotients and remainders by a power of two, one digit at a time.
use native.Mathlib.Nat.{
  div-add-mod, mod-lt, mul-add-div_right, div-eq_of_lt, mul-add-mod_self_right, mod-eq_of_lt,
  div-div-eq-div-mul, div-add-mod', one-le-pow, pow-suc, zero-add, suc-add,
}
use dingo_cli.Prelude.{ℕ, zero, suc, ◌+◌, ◌*◌, ◌/◌, ◌%◌, ◌^◌, ◌<◌, ◌≡◌, ap, sym, ◌∙◌, arith}

pub power_pos : (k : ℕ) → 0 < 2 ^ k
power_pos k = one-le-pow k 2 (omega arith)

pub pow-add : (a b : ℕ) → 2 ^ (a + b) ≡ 2 ^ a * 2 ^ b
pow-add zero b = rw zero-add (omega arith)
pow-add (suc a) b =
    rw (suc-add a b, pow-suc 2 (a + b), pow-suc 2 a)
      (omega (arith, ap (λ (t : ℕ). t * 2) (pow-add a b)))

pub split_unique : (m q r a : ℕ) → r < m → a ≡ q * m + r → (a / m ≡ q) × (a % m ≡ r)
split_unique m q r a h e = rw e (
  omega (arith, mul-add-div_right {m = m} (omega arith) q r, div-eq_of_lt h),
  mul-add-mod_self_right q m r ∙ mod-eq_of_lt h,
)

module _ (a m : ℕ) (pos : 0 < m) where
  pub double_split : (a / (m * 2) ≡ a / 2 / m) × (a % (m * 2) ≡ a / 2 % m * 2 + a % 2)
  double_split =
      split_unique (m * 2) (a / 2 / m) (a / 2 % m * 2 + a % 2) a (omega (arith, mod-lt (a / 2) pos))
        (omega (arith, div-add-mod (a / 2) m))

-- The digits from `s` on, `l` of them, are those of the remainder by a greater power.
module _ (s l u : ℕ) where
  power_above : 2 ^ (s + l + u) ≡ 2 ^ u * 2 ^ l * 2 ^ s
  power_above = rw (pow-add (s + l) u, pow-add s l) (omega arith)

  pub div-mod_of_mod : (x : ℕ) → x / 2 ^ s % 2 ^ l ≡ x % 2 ^ (s + l + u) / 2 ^ s % 2 ^ l
  div-mod_of_mod x =
      let n = 2 ^ (s + l + u) in
      let e : x ≡ x / n * 2 ^ u * 2 ^ l * 2 ^ s + x % n =
        sym (div-add-mod' x n) ∙ omega (arith, ap (λ (t : ℕ). x / n * t) power_above) in
      let q : x / 2 ^ s ≡ x / n * 2 ^ u * 2 ^ l + x % n / 2 ^ s =
        ap (λ (t : ℕ). t / 2 ^ s) e
        ∙ mul-add-div_right {m = 2 ^ s} (power_pos s) (x / n * 2 ^ u * 2 ^ l) (x % n) in
      ap (λ (t : ℕ). t % 2 ^ l) q ∙ mul-add-mod_self_right (x / n * 2 ^ u) (2 ^ l) (x % n / 2 ^ s)

  pub div_above : (x : ℕ) → x / 2 ^ (s + l + u) ≡ x / 2 ^ s / 2 ^ l / 2 ^ u
  div_above x = rw (
    div-div-eq-div-mul x (2 ^ s) (2 ^ l),
    div-div-eq-div-mul x (2 ^ s * 2 ^ l) (2 ^ u),
    pow-add (s + l) u,
    pow-add s l,
  )
