-- ===== src/Bits/Laws.antt =====
-- Laws of `&` and `|` at variables, from the digit recursion that the native operations stand for.
mod Digits
pub mod Division
use Digits.{bit_and_digit, bit_or_digit}
use Division.{split_unique, double_split, power_pos, pow-add}
use Prim.Native.Nat.{bit_and, bit_or, bit_and-bitwise, bit_or-bitwise}
use native.Mathlib.Nat.{
  pow-suc, one-le-pow, div-one, mod-one, zero-add, suc-add, add-zero, mod-mod, mod-eq_of_lt,
  div-lt_iff_lt-mul, mul-le-mul, le_refl,
}
use dingo_cli.Prelude.{
  ℕ, zero, suc, ◌+◌, ◌-◌, ◌*◌, ◌/◌, ◌%◌, ◌^◌, ◌≤◌, ◌<◌, min, max, ◌≡◌, refl, ap, ◌∙◌, arith,
}
use dingo_cli.Prelude.Int.{ℤ, pos, negsuc}
use dingo_cli.Bits.{◌<<<◌, ◌>>>◌, low_mask, and_ℤ}

-- An operation on the digits, one by one.
module _ (op f : ℕ → ℕ → ℕ)
    (digit : (a b : ℕ) → op a b ≡ op (a / 2) (b / 2) * 2 + f (a % 2) (b % 2))
    (zeros : op 0 0 ≡ 0) where
  op_pair : (x u y v : ℕ) → y < 2 → v < 2 → op (x * 2 + y) (u * 2 + v) ≡ op x u * 2 + f y v
  op_pair x u y v h k = rw (
    digit (x * 2 + y) (u * 2 + v),
    (split_unique 2 x y (x * 2 + y) h refl).0,
    (split_unique 2 x y (x * 2 + y) h refl).1,
    (split_unique 2 u v (u * 2 + v) k refl).0,
    (split_unique 2 u v (u * 2 + v) k refl).1,
  )

  -- The digits from `k` on, and those below it.
  op_split : (k a b : ℕ) → op a b ≡ op (a / 2 ^ k) (b / 2 ^ k) * 2 ^ k + op (a % 2 ^ k) (b % 2 ^ k)
  op_split zero a b = rw (div-one a, div-one b, mod-one a, mod-one b, zeros) (omega arith)
  op_split (suc k) a b =
      let pos = one-le-pow k 2 (omega arith) in
      let (qa, ra) = double_split a (2 ^ k) pos in
      let (qb, rb) = double_split b (2 ^ k) pos in
      rw
        (
          pow-suc 2 k,
          qa,
          ra,
          qb,
          rb,
          op_pair (a / 2 % 2 ^ k) (b / 2 % 2 ^ k) (a % 2) (b % 2) (omega arith) (omega arith),
        )
        (omega (arith, digit a b, op_split k (a / 2) (b / 2)))

pub bit_and_split :
    (k a b : ℕ)
    → bit_and a b ≡ bit_and (a / 2 ^ k) (b / 2 ^ k) * 2 ^ k + bit_and (a % 2 ^ k) (b % 2 ^ k)
bit_and_split = op_split bit_and min bit_and_digit refl

pub bit_or_split :
    (k a b : ℕ)
    → bit_or a b ≡ bit_or (a / 2 ^ k) (b / 2 ^ k) * 2 ^ k + bit_or (a % 2 ^ k) (b % 2 ^ k)
bit_or_split = op_split bit_or max bit_or_digit refl

zero-bit_and : (b : ℕ) → bit_and 0 b ≡ 0
zero-bit_and b = bit_and-bitwise 0 b

pub zero-bit_or : (b : ℕ) → bit_or 0 b ≡ b
zero-bit_or b = bit_or-bitwise 0 b

-- Both numbers are halved by a digit, so each law goes down a bound on one of them.
bit_and-zero_below : (n a : ℕ) → a ≤ n → bit_and a 0 ≡ 0
bit_and-zero_below n zero h = zero-bit_and 0
bit_and-zero_below zero (suc a) h = absurd (omega arith)
bit_and-zero_below (suc n) (suc a) h =
    omega (arith, bit_and_digit (suc a) 0, bit_and-zero_below n (suc a / 2) (omega arith))

pub bit_and-zero : (a : ℕ) → bit_and a 0 ≡ 0
bit_and-zero a = bit_and-zero_below a a (omega arith)

bit_or-zero_below : (n a : ℕ) → a ≤ n → bit_or a 0 ≡ a
bit_or-zero_below n zero h = zero-bit_or 0
bit_or-zero_below zero (suc a) h = absurd (omega arith)
bit_or-zero_below (suc n) (suc a) h =
    omega (arith, bit_or_digit (suc a) 0, bit_or-zero_below n (suc a / 2) (omega arith))

pub bit_or-zero : (a : ℕ) → bit_or a 0 ≡ a
bit_or-zero a = bit_or-zero_below a a (omega arith)

bit_and-le_below : (n a b : ℕ) → b ≤ n → bit_and a b ≤ b
bit_and-le_below n a zero h = omega (arith, bit_and-zero a)
bit_and-le_below zero a (suc b) h = absurd (omega arith)
bit_and-le_below (suc n) a (suc b) h =
    omega (arith, bit_and_digit a (suc b), bit_and-le_below n (a / 2) (suc b / 2) (omega arith))

pub bit_and-le : (a b : ℕ) → bit_and a b ≤ b
bit_and-le a b = bit_and-le_below b a b (omega arith)

-- A mask of `k` low digits is the remainder by `2 ^ k`.
pub bit_and-low_mask : (k a : ℕ) → bit_and a (low_mask k) ≡ a % 2 ^ k
bit_and-low_mask zero a = omega (arith, bit_and-zero a)
bit_and-low_mask (suc k) a =
    let pos = one-le-pow k 2 (omega arith) in
    let halves : (2 * 2 ^ k - 1) / 2 ≡ 2 ^ k - 1 = omega arith in
    let e : low_mask (suc k) ≡ 2 * 2 ^ k - 1 = omega (arith, pow-suc 2 k) in
    rw
      (
        e,
        pow-suc 2 k,
        (double_split a (2 ^ k) pos).1,
        bit_and_digit a (2 * 2 ^ k - 1),
        halves,
        bit_and-low_mask k (a / 2),
      )
      (omega arith)

module _ (k m : ℕ) where
  -- A number above the digits and one below them.
  pub bit_and-high :
      (a r : ℕ)
      → r < 2 ^ k
      → bit_and a (m * 2 ^ k + r) ≡ bit_and (a / 2 ^ k) m * 2 ^ k + bit_and (a % 2 ^ k) r
  bit_and-high a r h =
      let (q, e) = split_unique (2 ^ k) m r (m * 2 ^ k + r) h refl in
      bit_and_split k a (m * 2 ^ k + r) ∙ rw (q, e)

  pub bit_or-high : (r : ℕ) → r < 2 ^ k → bit_or r (m * 2 ^ k) ≡ m * 2 ^ k + r
  bit_or-high r h =
      let (q, e) = split_unique (2 ^ k) m 0 (m * 2 ^ k) (power_pos k) (omega arith) in
      let (q', e') = split_unique (2 ^ k) 0 r r h (omega arith) in
      bit_or_split k r (m * 2 ^ k) ∙ rw (q, e, q', e', zero-bit_or m, bit_or-zero r)

  pub bit_or-low : (r : ℕ) → r < 2 ^ k → bit_or (m * 2 ^ k) r ≡ m * 2 ^ k + r
  bit_or-low r h =
      let (q, e) = split_unique (2 ^ k) m 0 (m * 2 ^ k) (power_pos k) (omega arith) in
      let (q', e') = split_unique (2 ^ k) 0 r r h (omega arith) in
      bit_or_split k (m * 2 ^ k) r ∙ rw (q, e, q', e', bit_or-zero m, zero-bit_or r)

pub mul-pow-suc : (q k : ℕ) → q * 2 ^ suc k ≡ q * 2 * 2 ^ k
mul-pow-suc q k = omega (arith, ap (λ (t : ℕ). q * t) (pow-suc 2 k))

hole_mask :
    (p q r : ℕ) → 0 < p → 0 < q → 0 < r → p * q * r - 1 - (q - 1) * r ≡ (p - 1) * q * r + (r - 1)
hole_mask (suc p) (suc q) (suc r) hp hq hr =
    let e : suc p - 1 ≡ p = omega arith in
    let e' : suc q - 1 ≡ q = omega arith in rw (e, e') (omega arith)
hole_mask p q r hp hq hr = absurd (omega arith)

-- A word of `l + s + t` digits with the field of `l` digits from digit `s` on cut out.
pub bit_and-hole :
    (s l t a : ℕ)
    → a < 2 ^ t * 2 ^ l * 2 ^ s
    → bit_and a (2 ^ t * 2 ^ l * 2 ^ s - 1 - low_mask l * 2 ^ s)
      ≡ a / 2 ^ s / 2 ^ l * 2 ^ l * 2 ^ s + a % 2 ^ s
bit_and-hole s l t a h =
    let e = hole_mask (2 ^ t) (2 ^ l) (2 ^ s) (power_pos t) (power_pos l) (power_pos s) in
    rw
      (
        e,
        bit_and-high s (low_mask t * 2 ^ l) a (low_mask s) (omega (arith, power_pos s)),
        bit_and-low_mask s (a % 2 ^ s),
        mod-mod a (2 ^ s),
        bit_and_shifted,
      )
      refl
  where
    rest_fits : a / 2 ^ s / 2 ^ l < 2 ^ t
    rest_fits = (div-lt_iff_lt-mul (power_pos l)).1 ((div-lt_iff_lt-mul (power_pos s)).1 h)

    bit_and_shifted : bit_and (a / 2 ^ s) (low_mask t * 2 ^ l) ≡ a / 2 ^ s / 2 ^ l * 2 ^ l
    bit_and_shifted =
        let high = bit_and-high l (low_mask t) (a / 2 ^ s) 0 (power_pos l) in
        omega (
          arith,
          high,
          bit_and-zero (a / 2 ^ s % 2 ^ l),
          ap (λ (x : ℕ). x * 2 ^ l)
              (bit_and-low_mask t (a / 2 ^ s / 2 ^ l) ∙ mod-eq_of_lt rest_fits),
          ap (bit_and (a / 2 ^ s)) (add-zero (low_mask t * 2 ^ l)),
        )

bit_and_comm_below : (n a b : ℕ) → a ≤ n → bit_and a b ≡ bit_and b a
bit_and_comm_below n zero b h = omega (arith, zero-bit_and b, bit_and-zero b)
bit_and_comm_below zero (suc a) b h = absurd (omega arith)
bit_and_comm_below (suc n) (suc a) b h = omega (
  arith,
  bit_and_digit (suc a) b,
  bit_and_digit b (suc a),
  bit_and_comm_below n (suc a / 2) (b / 2) (omega arith),
)

pub bit_and_comm : (a b : ℕ) → bit_and a b ≡ bit_and b a
bit_and_comm a b = bit_and_comm_below a a b (omega arith)

-- The remainder of an integer by `2 ^ k`, which is never negative.
abbrev pub mod_power : ℕ → ℤ → ℕ
mod_power k (pos a) = a % 2 ^ k
mod_power k (negsuc a) = low_mask k - a % 2 ^ k

pub and_ℤ-low_mask : (k : ℕ) (z : ℤ) → and_ℤ z (pos (low_mask k)) ≡ pos (mod_power k z)
unfolding and_ℤ
and_ℤ-low_mask k (pos a) = ap pos (bit_and-low_mask k a)
and_ℤ-low_mask k (negsuc a) =
    ap (λ (t : ℕ). pos (low_mask k - t)) (bit_and_comm (low_mask k) a ∙ bit_and-low_mask k a)

-- The digit `k` alone.
pub bit_and-power : (k a : ℕ) → bit_and a (1 * 2 ^ k) ≡ a / 2 ^ k % 2 * 2 ^ k
bit_and-power k a = omega (
  arith,
  bit_and-high k 1 a 0 (power_pos k),
  ap (bit_and a) (add-zero (1 * 2 ^ k)),
  bit_and-zero (a % 2 ^ k),
  ap (λ (t : ℕ). t * 2 ^ k) (bit_and-low_mask 1 (a / 2 ^ k)),
)

pub pow-le-pow : (a b : ℕ) → a ≤ b → 2 ^ a ≤ 2 ^ b
pow-le-pow a b h =
    let e : b ≡ a + (b - a) = omega arith in
    rw (e, pow-add a (b - a)) (omega (arith, mul-le-mul (le_refl (2 ^ a)) (power_pos (b - a))))

pub bit_or-above :
    (k q r v : ℕ) → r < 2 ^ k → bit_or (q * 2 ^ k + r) (v * 2 ^ k) ≡ bit_or q v * 2 ^ k + r
bit_or-above k q r v h =
    let (x, e) = split_unique (2 ^ k) q r (q * 2 ^ k + r) h refl in
    let (y, e') = split_unique (2 ^ k) v 0 (v * 2 ^ k) (power_pos k) (omega arith) in
    bit_or_split k (q * 2 ^ k + r) (v * 2 ^ k) ∙ rw (x, e, y, e', bit_or-zero r)
