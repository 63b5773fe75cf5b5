-- ===== src/Dbc/Little.antt =====
-- Little-endian fields: what is encoded is decoded, and the other fields of the frame stay.
use Prim.Native.Nat.{bit_and}
use native.Mathlib.Nat.{mod-lt, mul-le-mul, le_refl, mod-eq_of_lt, div-lt_iff_lt-mul}
use dingo_cli.Prelude.{
  ℕ, suc, ◌+◌, ◌-◌, ◌*◌, ◌/◌, ◌%◌, ◌^◌, ◌≤◌, ◌<◌, ◌≡◌, ◌⊎◌, inl, inr, sym, ◌∙◌, ap, List, ◌++◌,
  arith, length, drop,
}
use dingo_cli.Prelude.Results.{ok}
use dingo_cli.Enums.{byteorder_le}
use dingo_cli.Bits.{◌<<<◌, low_mask}
use dingo_cli.Bits.Laws.{bit_and-low_mask, bit_and-hole, bit_or-low, bit_or-above}
use dingo_cli.Bits.Laws.Division.{pow-add, power_pos, split_unique, div-mod_of_mod, div_above}
use dingo_cli.Dbc.{complement64, put_field, raw_word, word_bytes, decode_raw, encode_le}
use dingo_cli.Dbc.Bytes.{
  AreBytes, word_from, raw_word_bytes, word_from-lt, word_from-word_bytes, AreBytes-replaced,
  length-replaced,
}

module _ (s l t : ℕ) (whole : s + l + t ≡ 64) where
  word_size : 2 ^ t * 2 ^ l * 2 ^ s ≡ 2 ^ 64
  word_size = let e : t + l + s ≡ 64 = omega arith in rw (← pow-add t l, ← pow-add (t + l) s, e)

  mask_fits : low_mask l * 2 ^ s < 2 ^ 64
  mask_fits =
      let full = mul-le-mul (power_pos t) (le_refl (2 ^ l * 2 ^ s)) in
      let one : suc (2 ^ l - 1) ≡ 2 ^ l = omega (arith, power_pos l) in
      omega (arith, full, word_size, ap (λ (n : ℕ). n * 2 ^ s) one, power_pos s)

  complement64_field : complement64 (low_mask l <<< s) ≡ 2 ^ 64 - 1 - low_mask l * 2 ^ s
  unfolding complement64
  complement64_field =
      omega (arith, bit_and-low_mask 64 (low_mask l * 2 ^ s), mod-eq_of_lt mask_fits)

  cleared :
      (acc : ℕ)
      → acc < 2 ^ 64
      → bit_and acc (complement64 (low_mask l <<< s))
        ≡ acc / 2 ^ s / 2 ^ l * 2 ^ l * 2 ^ s + acc % 2 ^ s
  cleared acc h =
      ap (bit_and acc)
        (complement64_field ∙ ap (λ (n : ℕ). n - 1 - low_mask l * 2 ^ s) (sym word_size))
      ∙ bit_and-hole s l t acc (rw word_size h)

  -- The digits above the field, the field, and those below it.
  pub put_field_lem :
      (acc v : ℕ)
      → acc < 2 ^ 64
      → v < 2 ^ l
      → put_field acc s l v ≡ (acc / 2 ^ s / 2 ^ l * 2 ^ l + v) * 2 ^ s + acc % 2 ^ s
  unfolding put_field
  put_field_lem acc v h k = rw (
    cleared acc h,
    bit_or-above s (acc / 2 ^ s / 2 ^ l * 2 ^ l) (acc % 2 ^ s) v (mod-lt acc (power_pos s)),
    bit_or-low l (acc / 2 ^ s / 2 ^ l) v k,
  )

  module _ (acc v : ℕ) (h : acc < 2 ^ 64) (k : v < 2 ^ l) where
    put_field_parts :
        (put_field acc s l v / 2 ^ s ≡ acc / 2 ^ s / 2 ^ l * 2 ^ l + v)
        × (put_field acc s l v % 2 ^ s ≡ acc % 2 ^ s)
    put_field_parts =
        split_unique (2 ^ s) (acc / 2 ^ s / 2 ^ l * 2 ^ l + v) (acc % 2 ^ s) (put_field acc s l v)
          (mod-lt acc (power_pos s)) (put_field_lem acc v h k)

    field_parts :
        (put_field acc s l v / 2 ^ s / 2 ^ l ≡ acc / 2 ^ s / 2 ^ l)
        × (put_field acc s l v / 2 ^ s % 2 ^ l ≡ v)
    field_parts = split_unique (2 ^ l) (acc / 2 ^ s / 2 ^ l) v _ k put_field_parts.0

    put_field-lt : put_field acc s l v < 2 ^ 64
    put_field-lt =
        let top : acc / 2 ^ s / 2 ^ l < 2 ^ t =
          (div-lt_iff_lt-mul (power_pos l)).1
            ((div-lt_iff_lt-mul (power_pos s)).1 (rw word_size h)) in
        rw (← word_size) (
          (div-lt_iff_lt-mul (power_pos s)).0
            ((div-lt_iff_lt-mul (power_pos l)).0 (rw field_parts.0 top)))

    -- The digits below the field, and those above it.
    below_field :
        (s' l' : ℕ) → s' + l' ≤ s → put_field acc s l v / 2 ^ s' % 2 ^ l' ≡ acc / 2 ^ s' % 2 ^ l'
    below_field s' l' fits =
        let e : s ≡ s' + l' + (s - s' - l') = omega arith in
        let same = ap (λ (r : ℕ). r / 2 ^ s' % 2 ^ l') put_field_parts.1 in
        low_digits (s - s' - l') e (put_field acc s l v)
        ∙ same
        ∙ sym (low_digits (s - s' - l') e acc)
      where
        low_digits :
            (r : ℕ) → s ≡ s' + l' + r → (x : ℕ) → x / 2 ^ s' % 2 ^ l' ≡ x % 2 ^ s / 2 ^ s' % 2 ^ l'
        low_digits r e x = rw e (div-mod_of_mod s' l' r x)

    above_field : (s' : ℕ) → s + l ≤ s' → put_field acc s l v / 2 ^ s' ≡ acc / 2 ^ s'
    above_field s' fits =
        let e : s' ≡ s + l + (s' - s - l) = omega arith in
        rw (
          e,
          div_above s l (s' - s - l) (put_field acc s l v),
          div_above s l (s' - s - l) acc,
          field_parts.0,
        )

module _ (frame : List ℕ) (bytes : AreBytes frame) where
  -- A little-endian field is a run of digits of the frame's word.
  pub decode_raw_little :
      (s l : ℕ) → decode_raw frame s l byteorder_le ≡ word_from frame 8 0 / 2 ^ s % 2 ^ l
  unfolding decode_raw
  decode_raw_little s l =
      bit_and-low_mask l (raw_word frame 8 0 0 / 2 ^ s)
      ∙ ap (λ (w : ℕ). w / 2 ^ s % 2 ^ l) (raw_word_bytes frame bytes)

-- What a write of a field must leave: the field itself, the other fields, and a frame of bytes.
pub record Written (frame : List ℕ) (s l v : ℕ) (frame' : List ℕ) : Type 0 where
  pub bytes : AreBytes frame'
  pub same_length : length frame' ≡ length frame
  pub here : decode_raw frame' s l byteorder_le ≡ v
  pub elsewhere :
      (s' l' : ℕ)
      → (s' + l' ≤ s) ⊎ (s + l ≤ s')
      → decode_raw frame' s' l' byteorder_le ≡ decode_raw frame s' l' byteorder_le

module _ (frame : List ℕ) (bytes : AreBytes frame) (long : 8 ≤ length frame) (s l v : ℕ)
    (inside : s + l ≤ 64) (fits : v < 2 ^ l) where
  abbrev pub word : ℕ
  word = word_from frame 8 0

  abbrev pub replaced : List ℕ
  replaced = word_bytes 8 0 (put_field (raw_word frame 8 0 0) s l v) ++ drop 8 frame

  whole : s + l + (64 - s - l) ≡ 64
  whole = omega arith

  replaced-word : word_from replaced 8 0 ≡ put_field word s l v
  replaced-word = rw (raw_word_bytes frame bytes) (
      word_from-word_bytes (put_field word s l v) (drop 8 frame)
        (put_field-lt s l (64 - s - l) whole word v (word_from-lt frame bytes) fits))

  replaced_bytes : AreBytes replaced
  replaced_bytes = AreBytes-replaced (put_field (raw_word frame 8 0 0) s l v) frame bytes

  decode_replaced :
      (s' l' : ℕ) → decode_raw replaced s' l' byteorder_le ≡ put_field word s l v / 2 ^ s' % 2 ^ l'
  decode_replaced s' l' =
      decode_raw_little replaced replaced_bytes s' l'
      ∙ ap (λ (w : ℕ). w / 2 ^ s' % 2 ^ l') replaced-word

  pub replaced-Written : Written frame s l v replaced
  replaced-Written = record {
    bytes = replaced_bytes;
    same_length = length-replaced (put_field (raw_word frame 8 0 0) s l v) frame long;
    here =
        decode_replaced s l
        ∙ (field_parts s l (64 - s - l) whole word v (word_from-lt frame bytes) fits).1;
    elsewhere = λ s' l' apart.
        decode_replaced s' l'
        ∙ elim apart [
          | inl under ↦
              below_field s l (64 - s - l) whole word v (word_from-lt frame bytes) fits s' l' under
          | inr over ↦
              ap (λ (n : ℕ). n % 2 ^ l')
                (above_field s l (64 - s - l) whole word v (word_from-lt frame bytes) fits s' over)
        ]
        ∙ sym (decode_raw_little frame bytes s' l');
  }

  pub encode_le_lem : encode_le s l v frame ≡ ok replaced
  unfolding encode_le
  encode_le_lem = ground arith
