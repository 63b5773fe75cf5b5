-- ===== src/Dbc.antt =====
-- The DBC codec of fwmodel/model/dingosim.py (utils/dbc.cpp): a field of a CAN frame, by its start
-- bit, length and byte order. A frame is a list of bytes.
pub mod Range
pub mod Bytes
pub mod Little
pub mod RoundTrip
pub mod Total
use Prim.Native.Nat.{bit_and, bit_or}
use dingo_cli.Prelude.{
  ℕ, zero, suc, ◌+◌, ◌-◌, ◌*◌, ◌/◌, ◌%◌, ◌^◌, Bool, true, false, ◌&&◌, ◌||◌, List, [], ◌∷◌, ◌++◌,
  ltb, leb, ◌==◌, length, get_or, drop, if◌then◌else◌,
}
use dingo_cli.Prelude.Int.{ℤ, pos, negsuc, ◌-ℤ◌, leb_ℤ}
use dingo_cli.Prelude.Results.{Result, ok, raise, index_error, not_finite, or_raise, ◌>>=◌}
use dingo_cli.Enums.{byteorder_be}
use dingo_cli.Double.{Double, of_ℕ}
use dingo_cli.Bits.{◌<<<◌, ◌>>>◌, low_mask, and_ℤ}
use dingo_cli.Vars.{read, write}

-- Where the next bit of a big-endian field stands: downwards in a byte, then at the top of the next.
unfoldable pub next_byte : (byte_i bit_i : ℕ) → ℕ
next_byte byte_i bit_i = if bit_i == 0 then byte_i + 1 else byte_i

unfoldable pub next_bit : (bit_i : ℕ) → ℕ
next_bit bit_i = if bit_i == 0 then 7 else bit_i - 1

-- byte_i < len(data) and (data[byte_i] >> bit_i) & 1
unfoldable pub frame_bit : List ℕ → (byte_i bit_i : ℕ) → Bool
frame_bit frame byte_i bit_i =
    ltb byte_i (length frame) && bit_and (get_or frame byte_i 0 >>> bit_i) 1 == 1

-- `left` bits of the big-endian field are still to be read, the highest first.
unfoldable pub decode_be : List ℕ → (left byte_i bit_i value : ℕ) → ℕ
decode_be frame zero byte_i bit_i value = value
decode_be frame (suc left) byte_i bit_i value =
    decode_be frame left (next_byte byte_i bit_i) (next_bit bit_i)
      (if frame_bit frame byte_i bit_i then bit_or value (1 <<< left) else value)

-- The bytes from number `i` on, `left` of them, as part of one word; a missing byte is 0.
unfoldable pub raw_word : List ℕ → (left i raw : ℕ) → ℕ
raw_word frame zero i raw = raw
raw_word frame (suc left) i raw =
    raw_word frame left (i + 1) (bit_or raw (get_or frame i 0 <<< (i * 8)))

-- int32_t
unfoldable pub to_int32 : ℤ → ℤ
to_int32 z =
    let value = and_ℤ z (pos (0xFFFFFFFF)) in
    if leb_ℤ (pos (0x80000000)) value then value -ℤ pos (0x100000000) else value

unfoldable pub sign_extend : (bit_len value : ℕ) → ℤ
sign_extend bit_len value =
    if bit_and value (1 <<< (bit_len - 1)) == 0 then pos value else pos value -ℤ pos (1 <<< bit_len)

unfoldable pub decode_raw : List ℕ → (start_bit bit_len byte_order : ℕ) → ℕ
decode_raw frame start_bit bit_len byte_order =
    if byte_order == byteorder_be
    then decode_be frame bit_len (start_bit / 8) (start_bit % 8) 0
    else bit_and (raw_word frame 8 0 0 >>> start_bit) (low_mask bit_len)

-- decode_int
unfoldable pub decode_int : List ℕ → (start_bit bit_len byte_order : ℕ) (signed : Bool) → ℤ
decode_int frame start_bit bit_len byte_order signed =
    if bit_len == 0 || ltb 32 bit_len
    then pos 0
    else (let value = decode_raw frame start_bit bit_len byte_order in
        to_int32 (if signed then sign_extend bit_len value else pos value))

-- One bit of a big-endian field: frame[byte_i] |= 1 << bit_i, or &= ~(1 << bit_i) & 0xFF.
unfoldable pub put_bit : List ℕ → (byte_i bit_i : ℕ) → Bool → Result (List ℕ)
put_bit frame byte_i bit_i on = do
  byte ← read frame byte_i
  write frame byte_i (if on then bit_or byte (1 <<< bit_i) else bit_and byte (0xFF - (1 <<< bit_i)))

unfoldable pub encode_be : (left byte_i bit_i v : ℕ) → List ℕ → Result (List ℕ)
encode_be zero byte_i bit_i v frame = ok frame
encode_be (suc left) byte_i bit_i v frame = do
  frame' ← put_bit frame byte_i bit_i (bit_and (v >>> left) 1 == 1)
  encode_be left (next_byte byte_i bit_i) (next_bit bit_i) v frame'

-- The `left` bytes of a word from byte `i` on.
unfoldable pub word_bytes : (left i acc : ℕ) → List ℕ
word_bytes zero i acc = []
word_bytes (suc left) i acc = bit_and (acc >>> (i * 8)) (0xFF) ∷ word_bytes left (i + 1) acc

-- ~x & 0xFFFFFFFFFFFFFFFF
unfoldable pub complement64 : ℕ → ℕ
complement64 x = 0xFFFFFFFFFFFFFFFF - bit_and x (0xFFFFFFFFFFFFFFFF)

-- acc &= ~(mask << start_bit) & 0xFFFFFFFFFFFFFFFF; acc |= v << start_bit
unfoldable pub put_field : (acc start_bit bit_len v : ℕ) → ℕ
put_field acc start_bit bit_len v =
    let cleared = bit_and acc (complement64 (low_mask bit_len <<< start_bit)) in
    bit_or cleared (v <<< start_bit)

-- Both loops over `range(8)` index the eight bytes, so a shorter frame is an IndexError.
unfoldable pub encode_le : (start_bit bit_len v : ℕ) → List ℕ → Result (List ℕ)
encode_le start_bit bit_len v frame =
    if ltb (length frame) 8
    then raise index_error
    else ok (word_bytes 8 0 (put_field (raw_word frame 8 0 0) start_bit bit_len v) ++ drop 8 frame)

-- The number that `&` with a mask leaves, which has no sign.
unfoldable pub magnitude : ℤ → ℕ
magnitude (pos n) = n
magnitude (negsuc n) = suc n

-- The field of an integer, from the 32 bits that the firmware keeps of it.
unfoldable pub encode_int : List ℕ → ℤ → (start_bit bit_len byte_order : ℕ) → Result (List ℕ)
encode_int frame raw start_bit bit_len byte_order =
    let v = magnitude (and_ℤ (and_ℤ raw (pos (0xFFFFFFFF))) (pos (low_mask bit_len))) in
    if byte_order == byteorder_be
    then encode_be bit_len (start_bit / 8) (start_bit % 8) v frame
    else encode_le start_bit bit_len v frame

module _ {W : Type 0} (d : Double W) where
  open d use {of_int, to_int, add, sub, mul, div, eq}

  -- decode_float
  unfoldable pub decode_float :
      List ℕ → (start_bit bit_len : ℕ) (factor offset : W) (byte_order : ℕ) (signed : Bool) → W
  decode_float frame start_bit bit_len factor offset byte_order signed =
      add (mul (of_int (decode_int frame start_bit bit_len byte_order signed)) factor) offset

  -- encode_float
  unfoldable pub encode_float :
      List ℕ
      → (value : W) (start_bit bit_len : ℕ) (factor offset : W) (byte_order : ℕ) → Result (List ℕ)
  encode_float frame value start_bit bit_len factor offset byte_order =
      if bit_len == 0 || ltb 32 bit_len then ok frame else (do
        raw ←
            (if eq factor (of_ℕ d 0)
              then ok (pos 0)
              else or_raise not_finite (to_int (div (sub value offset) factor)))
        encode_int frame raw start_bit bit_len byte_order)

-- For runs: all of the codec.
unfoldable pub codec : Unit {0}
unfolding next_byte next_bit frame_bit decode_be raw_word to_int32 sign_extend decode_raw decode_int
    put_bit encode_be word_bytes complement64 put_field encode_le magnitude encode_int decode_float
    encode_float and_ℤ ◌-ℤ◌ read write
codec = tt
