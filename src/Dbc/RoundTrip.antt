-- ===== src/Dbc/RoundTrip.antt =====
-- Integers that are encoded into a little-endian field and decoded from it.
use native.Mathlib.Nat.{
  mod-lt, mod-eq_of_lt, mod-mod_of_dvd, dvd-mul_left, div-lt_iff_lt-mul, div-add-mod', pow-suc,
}
use dingo_cli.Prelude.{
  ℕ, suc, ◌+◌, ◌-◌, ◌*◌, ◌/◌, ◌%◌, ◌^◌, ◌≤◌, ◌<◌, ◌≡◌, ◌⊎◌, ◌∙◌, ap, List, arith, length, Bool,
  true, false, ltb, if◌then◌else◌,
}
use dingo_cli.Prelude.Int.{ℤ, pos, negsuc, ◌≤ℤ◌}
use dingo_cli.Prelude.Results.{ok}
use dingo_cli.Enums.{byteorder_le}
use dingo_cli.Bits.{low_mask, and_ℤ}
use dingo_cli.Bits.Laws.{mod_power, and_ℤ-low_mask, pow-le-pow}
use dingo_cli.Bits.Laws.Division.{split_unique, power_pos, pow-add}
use dingo_cli.Dbc.{encode_int, magnitude, sign_extend, to_int32, decode_int}
use dingo_cli.Dbc.Bytes.{AreBytes}
use dingo_cli.Dbc.Range.{
  mod_power-lt, sign_extend_lem, to_int32_fits, to_int32_lem, decode_int_short,
}
use dingo_cli.Dbc.Little.{replaced, replaced-Written, encode_le_lem}

-- The value range of a field of `k + 1` bits.
abbrev pub Fits : Bool → (k : ℕ) → ℤ → Type 0
Fits true k z = (negsuc (2 ^ k - 1) ≤ℤ z) × (z ≤ℤ pos (2 ^ k - 1))
Fits false k z = (pos 0 ≤ℤ z) × (z ≤ℤ pos (2 ^ suc k - 1))

-- What comes back as an int32_t: from 2 ^ 31 on, the number less 2 ^ 32.
abbrev pub as_int32 : ℤ → ℤ
as_int32 (pos a) = if ltb a (2 ^ 31) then pos a else negsuc (2 ^ 32 - 1 - a)
as_int32 (negsuc a) = negsuc a

module _ (l u : ℕ) where
  modulus : 2 ^ (l + u) ≡ 2 ^ u * 2 ^ l
  modulus = rw (pow-add l u) (omega arith)

  mod-mod_power : (a : ℕ) → a % 2 ^ (l + u) % 2 ^ l ≡ a % 2 ^ l
  mod-mod_power a =
      rw modulus (mod-mod_of_dvd (2 ^ l) {b = 2 ^ u * 2 ^ l} a (dvd-mul_left (2 ^ l) (2 ^ u)))

  mask-sub_mod : (a : ℕ) → (low_mask (l + u) - a % 2 ^ (l + u)) % 2 ^ l ≡ low_mask l - a % 2 ^ l
  mask-sub_mod a =
      let m = 2 ^ l in
      let x = a % 2 ^ (l + u) in
      let q = x / m in
      let top : q < 2 ^ u =
        (div-lt_iff_lt-mul (power_pos l)).1 (rw (← modulus) (mod-lt a (power_pos (l + u)))) in
      let w = 2 ^ u - 1 - q in
      let sum : q + 1 + w ≡ 2 ^ u = omega arith in
      let low = mod-lt x (power_pos l) in
      rw (← mod-mod_power a)
        (split_unique m w (m - 1 - x % m) (low_mask (l + u) - x) (omega arith)
          (omega (arith, modulus, ap (λ (n : ℕ). n * m) sum, div-add-mod' x m))).1

-- The digits that are kept of an integer.
kept :
    (l : ℕ) (z : ℤ)
    → l ≤ 32
    → magnitude (and_ℤ (and_ℤ z (pos (low_mask 32))) (pos (low_mask l))) ≡ mod_power l z
unfolding magnitude
kept l z h = rw (and_ℤ-low_mask 32 z, and_ℤ-low_mask l (pos (mod_power 32 z))) (again z)
  where
    whole : l + (32 - l) ≡ 32
    whole = omega arith

    again : (z : ℤ) → mod_power 32 z % 2 ^ l ≡ mod_power l z
    again (pos a) = rw whole at (mod-mod_power l (32 - l) a)
    again (negsuc a) = rw whole at (mask-sub_mod l (32 - l) a)

decode_kept :
    (signed : Bool) (k : ℕ) (z : ℤ)
    → k < 32
    → Fits signed k z
    → to_int32
        (if signed then sign_extend (suc k) (mod_power (suc k) z) else pos (mod_power (suc k) z))
      ≡ as_int32 z
decode_kept true k (pos a) h fits = ground (
  arith,
  mod-eq_of_lt {n = a} {m = 2 ^ suc k},
  sign_extend_lem k a,
  to_int32_fits (pos a),
  pow-suc 2 k,
  pow-le-pow k 31,
  power_pos k,
)
decode_kept true k (negsuc a) h fits = ground (
  arith,
  mod-eq_of_lt {n = a} {m = 2 ^ suc k},
  sign_extend_lem k (low_mask (suc k) - a),
  to_int32_fits (negsuc a),
  pow-suc 2 k,
  pow-le-pow k 31,
  power_pos k,
)
decode_kept false k (pos a) h fits = ground (
  arith,
  mod-eq_of_lt {n = a} {m = 2 ^ suc k},
  mod-eq_of_lt {n = a} {m = 2 ^ 32},
  to_int32_lem (pos a),
  pow-le-pow (suc k) 32,
  power_pos (suc k),
)
decode_kept false k (negsuc a) h fits = absurd (omega arith)

-- In a little-endian field of 1 to 32 bits within the first eight bytes of a frame of bytes, an integer
-- in the range of the field, signed or unsigned, comes back as an int32_t: the encoder returns a frame
-- of bytes of the same length, which decodes at that field to the integer, less 2 ^ 32 if it is 2 ^ 31 or
-- more, and to what it did before at every field that does not overlap it.
pub encode_int-decode_int :
    (frame : List ℕ) (s k : ℕ) (signed : Bool) (z : ℤ)
    → AreBytes frame
    → 8 ≤ length frame
    → s + suc k ≤ 64
    → k < 32
    → Fits signed k z
    → (frame' : List ℕ) × (encode_int frame z s (suc k) byteorder_le ≡ ok frame')
      × (length frame' ≡ length frame)
      × AreBytes frame'
      × (decode_int frame' s (suc k) byteorder_le signed ≡ as_int32 z)
      × ((s' l' : ℕ) (signed' : Bool)
          → (s' + l' ≤ s) ⊎ (s + suc k ≤ s')
          → decode_int frame' s' l' byteorder_le signed'
            ≡ decode_int frame s' l' byteorder_le signed')
unfolding encode_int decode_int
encode_int-decode_int frame s k signed z bytes long inside short fits =
    let v = mod_power (suc k) z in
    let small = mod_power-lt (suc k) z in
    let written = replaced-Written frame bytes long s (suc k) v inside small in
    (
      replaced frame bytes long s (suc k) v inside small,
      rw (kept (suc k) z (omega arith)) (encode_le_lem frame bytes long s (suc k) v inside small),
      written.same_length,
      written.bytes,
      decode_int_short (replaced frame bytes long s (suc k) v inside small) s k byteorder_le signed
            short
          ∙ ap (λ (n : ℕ). to_int32 (if signed then sign_extend (suc k) n else pos n)) written.here
          ∙ decode_kept signed k z short fits,
      λ s' l' signed' apart. rw (written.elsewhere s' l' apart),
    )
