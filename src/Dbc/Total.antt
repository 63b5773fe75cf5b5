-- ===== src/Dbc/Total.antt =====
-- When `encode_float` of fwmodel/model/dingosim.py returns: a big-endian field has to end in byte 7.
use dingo_cli.Prelude.{
  ℕ, zero, suc, ◌+◌, ◌*◌, ◌/◌, ◌%◌, ◌≤◌, ◌<◌, ◌≡◌, ◌∙◌, Bool, false, ◌||◌, List, arith, length,
  length-set, ap, ltb, ◌==◌, ==_iff,
}
use dingo_cli.Prelude.Int.{ℤ}
use dingo_cli.Prelude.Results.{
  Returns, returns, Returns-bind, Returns-if, Returns-weaken, Outcome, returns_as, Outcome-Returns,
  Outcome-if, Outcome-bind, Outcome-converts,
}
use dingo_cli.Enums.{byteorder_be}
use dingo_cli.Double.{Double, of_ℕ}
use dingo_cli.Vars.{write}
use dingo_cli.Vars.Frame.{read-Returns, write-Returns}
use dingo_cli.Dbc.{put_bit, encode_be, next_byte, next_bit, encode_le, encode_int, encode_float}
use dingo_cli.Dbc.Bytes.{length-replaced}

abbrev pub IsFrame : List ℕ → Type 0
IsFrame frame = length frame ≡ 8

-- The field ends within the eight bytes; a little-endian one is cut off there.
abbrev pub EndsInFrame : (start_bit bit_len byte_order : ℕ) → Type 0
EndsInFrame start_bit bit_len byte_order =
    byte_order ≡ byteorder_be → bit_len + 8 * (start_bit / 8) ≤ start_bit % 8 + 57

write-IsFrame :
    (frame : List ℕ) (i x : ℕ) → IsFrame frame → i < 8 → Returns IsFrame (write frame i x)
write-IsFrame frame i x e h =
    Returns-weaken (λ ys k. ap length k ∙ length-set frame i x ∙ e)
      (write-Returns frame i x (omega arith))

put_bit-Returns :
    (frame : List ℕ) (byte_i bit_i : ℕ) (bit : Bool)
    → IsFrame frame
    → byte_i < 8
    → Returns IsFrame (put_bit frame byte_i bit_i bit)
unfolding put_bit
put_bit-Returns frame byte_i bit_i bit e h =
    Returns-bind (read-Returns frame byte_i (omega arith))
      λ byte f. write-IsFrame frame byte_i _ e h

encode_be-Returns :
    (left byte_i bit_i v : ℕ) (frame : List ℕ)
    → IsFrame frame
    → bit_i < 8
    → left + 8 * byte_i ≤ bit_i + 57
    → Returns IsFrame (encode_be left byte_i bit_i v frame)
unfolding encode_be next_byte next_bit
encode_be-Returns zero byte_i bit_i v frame e h k = returns frame e
encode_be-Returns (suc left) byte_i bit_i v frame e h k =
    Returns-bind (put_bit-Returns frame byte_i bit_i _ e (omega arith)) λ frame' e'.
      encode_be-Returns left (next_byte byte_i bit_i) (next_bit bit_i) v frame' e' (ground arith)
        (ground arith)

encode_int-Returns :
    (frame : List ℕ) (raw : ℤ) (start_bit bit_len byte_order : ℕ)
    → IsFrame frame
    → EndsInFrame start_bit bit_len byte_order
    → Returns IsFrame (encode_int frame raw start_bit bit_len byte_order)
unfolding encode_int encode_le
encode_int-Returns frame raw start_bit bit_len byte_order e h =
    Returns-if (byte_order == byteorder_be)
      (λ f.
        encode_be-Returns bit_len (start_bit / 8) (start_bit % 8) _ frame e (omega arith)
          (h ((==_iff byte_order byteorder_be).0 f)))
      (λ f.
        Returns-if (ltb (length frame) 8) (λ g. absurd (ground arith))
          (λ g. returns _ (length-replaced _ frame (omega arith) ∙ e)))

-- On a frame of eight bytes, with a field that ends inside it if it is big-endian, `encode_float`
-- returns a frame of eight bytes, or the conversion of the value to an integer fails, and then the
-- field has from 1 to 32 bits and the factor is not 0.
pub encode_float-Outcome :
    {W : Type 0} (d : Double W) (E : Type 0) (frame : List ℕ) (value : W) (start_bit bit_len : ℕ)
    (factor offset : W) (byte_order : ℕ)
    → IsFrame frame
    → EndsInFrame start_bit bit_len byte_order
    → (0 < bit_len → bit_len ≤ 32 → d.eq factor (of_ℕ d 0) ≡ false → E)
    → Outcome E IsFrame (encode_float d frame value start_bit bit_len factor offset byte_order)
unfolding encode_float
encode_float-Outcome d E frame value start_bit bit_len factor offset byte_order e h k =
    Outcome-if (bit_len == 0 || ltb 32 bit_len) (λ f. returns_as frame e)
      (λ f.
        Outcome-bind {P = λ z. Unit {0}}
          (Outcome-if (d.eq factor (of_ℕ d 0)) (λ g. returns_as _ tt)
            (λ g. Outcome-converts _ (k (ground arith) (ground arith) g)))
          λ raw t. Outcome-Returns (encode_int-Returns frame raw start_bit bit_len byte_order e h))
