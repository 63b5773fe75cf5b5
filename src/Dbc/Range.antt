-- ===== src/Dbc/Range.antt =====
-- The range of what is decoded.
use Prim.Native.Nat.{bit_and, bit_or}
use native.Mathlib.Nat.{pow-suc, zero-mul, mod-lt, mod-eq_of_lt, div-eq_of_lt, div-eq_of_lt-le}
use dingo_cli.Prelude.{
  ℕ, zero, suc, ◌+◌, ◌-◌, ◌*◌, ◌/◌, ◌%◌, ◌^◌, ◌<◌, ◌≡◌, ◌∙◌, ap, Bool, true, false, List, arith,
  ltb, ◌==◌, if◌then◌else◌, ltb→lt, Bool-cases, inl, inr,
}
use dingo_cli.Prelude.Int.{ℤ, pos, negsuc, ◌-ℤ◌, ◌≤ℤ◌}
use dingo_cli.Bits.{◌<<<◌}
use dingo_cli.Bits.Laws.Division.{power_pos}
use dingo_cli.Bits.Laws.{
  bit_and-low_mask, bit_or-low, mul-pow-suc, bit_and-power, mod_power, and_ℤ-low_mask, pow-le-pow,
}
use dingo_cli.Enums.{byteorder_be}
use dingo_cli.Dbc.{
  decode_be, frame_bit, next_byte, next_bit, to_int32, sign_extend, decode_raw, decode_int,
}

decode_be-lt :
    (frame : List ℕ) (left byte_i bit_i q : ℕ)
    → decode_be frame left byte_i bit_i (q * 2 ^ left) < (q + 1) * 2 ^ left
unfolding decode_be
decode_be-lt frame zero byte_i bit_i q = omega arith
decode_be-lt frame (suc left) byte_i bit_i q =
    let rest = decode_be-lt frame left (next_byte byte_i bit_i) (next_bit bit_i) in
    elim (Bool-cases (frame_bit frame byte_i bit_i)) [
      | inl one ↦
          rw (one, bit_or_lowest) (omega (arith, mul-pow-suc (q + 1) left, rest (q * 2 + 1)))
      | inr nought ↦
          rw (nought, mul-pow-suc q left) (omega (arith, mul-pow-suc (q + 1) left, rest (q * 2)))
    ]
  where
    bit_or_lowest : bit_or (q * 2 ^ suc left) (1 <<< left) ≡ (q * 2 + 1) * 2 ^ left
    bit_or_lowest =
        let fits : 1 * 2 ^ left < 2 ^ suc left = omega (arith, pow-suc 2 left, power_pos left) in
        bit_or-low (suc left) q (1 * 2 ^ left) fits ∙ omega (arith, mul-pow-suc q left)

pub mod_power-lt : (k : ℕ) (z : ℤ) → mod_power k z < 2 ^ k
mod_power-lt k (pos a) = mod-lt a (power_pos k)
mod_power-lt k (negsuc a) = omega (arith, power_pos k)

-- The field, read as a natural number, fits its length.
pub decode_raw-lt :
    (frame : List ℕ) (start_bit bit_len byte_order : ℕ)
    → decode_raw frame start_bit bit_len byte_order < 2 ^ bit_len
unfolding decode_raw
decode_raw-lt frame start_bit bit_len byte_order = elim (Bool-cases (byte_order == byteorder_be)) [
  | inl be ↦ rw be (
      omega (
        arith,
        decode_be-lt frame bit_len (start_bit / 8) (start_bit % 8) 0,
        ap (decode_be frame bit_len (start_bit / 8) (start_bit % 8)) (zero-mul (2 ^ bit_len)),
      ))
  | inr le ↦ rw (le, bit_and-low_mask) (mod-lt _ (power_pos bit_len))
]

-- The sign bit of a field of `k + 1` bits, as the comparison with half of its range.
sign_bit : (k value : ℕ) → value < 2 ^ suc k → (bit_and value (1 * 2 ^ k) == 0) ≡ ltb value (2 ^ k)
sign_bit k value h = elim (Bool-cases (ltb value (2 ^ k))) [
  | inl low ↦
      rw (bit_and-power k value, div-eq_of_lt (ltb→lt value (2 ^ k) low), low) (ground arith)
  | inr high ↦
      let q =
        div-eq_of_lt-le {k = 1} (2 ^ k) {m = value} (ground arith) (omega (arith, pow-suc 2 k)) in
      rw (bit_and-power k value, q, high) (ground (arith, power_pos k))
]

pub sign_extend_lem :
    (k value : ℕ)
    → value < 2 ^ suc k
    → sign_extend (suc k) value
      ≡ (if ltb value (2 ^ k) then pos value else negsuc (2 ^ suc k - value - 1))
unfolding sign_extend ◌-ℤ◌
sign_extend_lem k value h =
    let e : suc k - 1 ≡ k = omega arith in rw (e, sign_bit k value h) (ground arith)

pub to_int32_lem :
    (z : ℤ)
    → to_int32 z ≡ (
        let value = mod_power 32 z in
        if ltb value (2 ^ 31) then pos value else negsuc (2 ^ 32 - value - 1))
unfolding to_int32 ◌-ℤ◌
to_int32_lem z = ground (arith, and_ℤ-low_mask 32 z, mod_power-lt 32 z)

-- An int32_t is left as it is.
pub to_int32_fits : (z : ℤ) → negsuc (2 ^ 31 - 1) ≤ℤ z → z ≤ℤ pos (2 ^ 31 - 1) → to_int32 z ≡ z
to_int32_fits (pos a) h k = to_int32_lem (pos a) ∙ ground (arith, mod-eq_of_lt {n = a} {m = 2 ^ 32})
to_int32_fits (negsuc a) h k =
    to_int32_lem (negsuc a) ∙ ground (arith, mod-eq_of_lt {n = a} {m = 2 ^ 32})

pub sign_extend_range :
    (k value : ℕ)
    → value < 2 ^ suc k
    → (negsuc (2 ^ k - 1) ≤ℤ sign_extend (suc k) value)
      × (sign_extend (suc k) value ≤ℤ pos (2 ^ k - 1))
sign_extend_range k value h = ground (arith, sign_extend_lem k value h, pow-suc 2 k, power_pos k)

-- A field of 1 to 32 bits is decoded.
pub decode_int_short :
    (frame : List ℕ) (start_bit k byte_order : ℕ) (signed : Bool)
    → k < 32
    → decode_int frame start_bit (suc k) byte_order signed ≡ (
        let value = decode_raw frame start_bit (suc k) byte_order in
        to_int32 (if signed then sign_extend (suc k) value else pos value))
unfolding decode_int
decode_int_short frame start_bit k byte_order signed h = ground arith

pub decode_signed :
    (frame : List ℕ) (start_bit k byte_order : ℕ)
    → k < 32
    → decode_int frame start_bit (suc k) byte_order true
      ≡ sign_extend (suc k) (decode_raw frame start_bit (suc k) byte_order)
unfolding decode_int
decode_signed frame start_bit k byte_order short =
    let value = decode_raw frame start_bit (suc k) byte_order in
    ground (
      arith,
      to_int32_fits (sign_extend (suc k) value),
      sign_extend_range k value (decode_raw-lt frame start_bit (suc k) byte_order),
      pow-le-pow k 31,
    )

-- Whatever the frame, an unsigned field of at most 31 bits decodes to a natural number that fits
-- its length, a signed field of at most 32 bits to an integer in the two's complement range of its
-- length, and every field to an int32_t.
pub decode_int_range :
    (frame : List ℕ) (start_bit k byte_order : ℕ)
    → ((k < 31
          → (n : ℕ) × (n < 2 ^ suc k)
            × (decode_int frame start_bit (suc k) byte_order false ≡ pos n))
        × (k < 32
            → (negsuc (2 ^ k - 1) ≤ℤ decode_int frame start_bit (suc k) byte_order true)
              × (decode_int frame start_bit (suc k) byte_order true ≤ℤ pos (2 ^ k - 1))))
      × ((signed : Bool)
          → (negsuc (2 ^ 31 - 1) ≤ℤ decode_int frame start_bit (suc k) byte_order signed)
            × (decode_int frame start_bit (suc k) byte_order signed ≤ℤ pos (2 ^ 31 - 1)))
unfolding decode_int
decode_int_range frame start_bit k byte_order =
    let value = decode_raw frame start_bit (suc k) byte_order in
    let fits = decode_raw-lt frame start_bit (suc k) byte_order in
    (
      (
        λ short. (
          value,
          fits,
          ground (
            arith,
            to_int32_lem (pos value),
            pow-le-pow (suc k) 31,
            mod-eq_of_lt {n = value} {m = 2 ^ 32},
          ),
        ),
        λ short.
            rw (decode_signed frame start_bit k byte_order short) (sign_extend_range k value fits),
      ),
      λ signed. ground (
        arith,
        to_int32_lem (if signed then sign_extend (suc k) value else pos value),
        mod_power-lt 32 (if signed then sign_extend (suc k) value else pos value),
      ),
    )
