-- ===== src/Examples/Codec.antt =====
-- The theorems on the codec, at an empty frame.
use dingo_cli.Prelude.{
  ℕ, zero, suc, ◌+◌, ◌-◌, ◌≤◌, ◌<◌, ◌^◌, ◌≡◌, ◌⊎◌, refl, Bool, true, false, List, arith, replicate,
  length,
}
use dingo_cli.Prelude.Int.{pos, negsuc, ◌≤ℤ◌}
use dingo_cli.Prelude.Results.{ok, Outcome}
use dingo_cli.Enums.{byteorder_le, byteorder_be}
use dingo_cli.Double.Exact.{exact}
use dingo_cli.Dbc.{decode_int, encode_int, encode_float}
use dingo_cli.Dbc.Bytes.{AreBytes}
use dingo_cli.Dbc.Range.{decode_int_range}
use dingo_cli.Dbc.RoundTrip.{encode_int-decode_int}
use dingo_cli.Dbc.Total.{IsFrame, encode_float-Outcome}

abbrev empty_frame : List ℕ
empty_frame = replicate 8 0

zeros-AreBytes : (n : ℕ) → AreBytes (replicate n 0)
zeros-AreBytes zero i = omega arith
zeros-AreBytes (suc n) zero = omega arith
zeros-AreBytes (suc n) (suc i) = zeros-AreBytes n i

encode_int-decode_int_example :
    (frame' : List ℕ) × (encode_int empty_frame (negsuc 4) 12 10 byteorder_le ≡ ok frame')
    × (length frame' ≡ 8)
    × AreBytes frame'
    × (decode_int frame' 12 10 byteorder_le true ≡ negsuc 4)
    × ((s' l' : ℕ) (signed' : Bool)
        → (s' + l' ≤ 12) ⊎ (12 + 10 ≤ s')
        → decode_int frame' s' l' byteorder_le signed'
          ≡ decode_int empty_frame s' l' byteorder_le signed')
encode_int-decode_int_example =
    encode_int-decode_int empty_frame 12 9 true (negsuc 4) (zeros-AreBytes 8) (omega arith)
      (omega arith) (omega arith) (omega arith, omega arith)

decode_int_range_example :
    ((7 < 31 → (n : ℕ) × (n < 2 ^ 8) × (decode_int empty_frame 3 8 byteorder_be false ≡ pos n))
      × (7 < 32
          → (negsuc (2 ^ 7 - 1) ≤ℤ decode_int empty_frame 3 8 byteorder_be true)
            × (decode_int empty_frame 3 8 byteorder_be true ≤ℤ pos (2 ^ 7 - 1))))
    × ((signed : Bool)
        → (negsuc (2 ^ 31 - 1) ≤ℤ decode_int empty_frame 3 8 byteorder_be signed)
          × (decode_int empty_frame 3 8 byteorder_be signed ≤ℤ pos (2 ^ 31 - 1)))
decode_int_range_example = decode_int_range empty_frame 3 7 byteorder_be

encode_float-Outcome_example :
    Outcome
      (Unit {0})
      IsFrame
      (encode_float exact empty_frame (pos 40) 7 12 (pos 2) (pos 0) byteorder_be)
encode_float-Outcome_example =
    encode_float-Outcome exact (Unit {0}) empty_frame (pos 40) 7 12 (pos 2) (pos 0) byteorder_be
      refl (λ big. omega arith) (λ bits short factor. tt)
