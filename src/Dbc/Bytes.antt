-- ===== src/Dbc/Bytes.antt =====
-- A frame as one word, and back.
use Prim.Native.Nat.{bit_and}
use native.Mathlib.Nat.{mul-le-mul, le_refl}
use dingo_cli.Prelude.{
  ℕ, zero, suc, ◌+◌, ◌*◌, ◌^◌, ◌≤◌, ◌<◌, ◌≡◌, ◌∙◌, ap, List, [], ◌∷◌, ◌++◌, arith, length, get_or,
  drop, length-drop,
}
use dingo_cli.Bits.{◌>>>◌}
use dingo_cli.Bits.Laws.Division.{pow-add}
use dingo_cli.Bits.Laws.{bit_and-le, bit_and-low_mask, bit_or-high}
use dingo_cli.Dbc.{raw_word, word_bytes}

abbrev pub AreBytes : List ℕ → Type 0
AreBytes frame = (i : ℕ) → get_or frame i 0 < 256

-- The bytes from number `i` on, the lowest first.
abbrev pub word_from : List ℕ → (left i : ℕ) → ℕ
word_from frame zero i = 0
word_from frame (suc left) i = get_or frame i 0 + 256 * word_from frame left (i + 1)

pub raw_word_lem :
    (frame : List ℕ)
    → AreBytes frame
    → (left i raw : ℕ) → raw < 2 ^ (i * 8)
    → raw_word frame left i raw ≡ raw + word_from frame left i * 2 ^ (i * 8)
unfolding raw_word
raw_word_lem frame bytes zero i raw h = omega arith
raw_word_lem frame bytes (suc left) i raw h =
    let byte = get_or frame i 0 in
    let next : (i + 1) * 8 ≡ i * 8 + 8 = omega arith in
    let wide = ap (λ (e : ℕ). 2 ^ e) next ∙ pow-add (i * 8) 8 in
    rw (bit_or-high (i * 8) byte raw h) (
      raw_word_lem frame bytes left (i + 1) (byte * 2 ^ (i * 8) + raw)
        (rw wide (omega (arith, mul-le-mul (bytes i) (le_refl (2 ^ (i * 8))))))
      ∙ rw wide (omega arith))

pub raw_word_bytes : (frame : List ℕ) → AreBytes frame → raw_word frame 8 0 0 ≡ word_from frame 8 0
raw_word_bytes frame bytes = raw_word_lem frame bytes 8 0 0 (omega arith) ∙ omega arith

pub word_from-lt : (frame : List ℕ) → AreBytes frame → word_from frame 8 0 < 2 ^ 64
word_from-lt frame bytes =
    omega (arith, bytes 0, bytes 1, bytes 2, bytes 3, bytes 4, bytes 5, bytes 6, bytes 7)

module _ (acc : ℕ) (rest : List ℕ) where
  pub word_from-word_bytes : acc < 2 ^ 64 → word_from (word_bytes 8 0 acc ++ rest) 8 0 ≡ acc
  unfolding word_bytes
  word_from-word_bytes h =
      let byte = λ (i : ℕ). bit_and-low_mask 8 (acc >>> (i * 8)) in
      omega (arith, byte 0, byte 1, byte 2, byte 3, byte 4, byte 5, byte 6, byte 7)

AreBytes-cons : (b : ℕ) (bs : List ℕ) → b < 256 → AreBytes bs → AreBytes (b ∷ bs)
AreBytes-cons b bs h bytes zero = h
AreBytes-cons b bs h bytes (suc i) = bytes i

AreBytes-drop : (n : ℕ) (bs : List ℕ) → AreBytes bs → AreBytes (drop n bs)
AreBytes-drop zero bs bytes = bytes
AreBytes-drop (suc n) [] bytes = bytes
AreBytes-drop (suc n) (b ∷ bs) bytes = AreBytes-drop n bs (λ i. bytes (suc i))

AreBytes-word_bytes :
    (left i acc : ℕ) (rest : List ℕ) → AreBytes rest → AreBytes (word_bytes left i acc ++ rest)
unfolding word_bytes
AreBytes-word_bytes zero i acc rest bytes = bytes
AreBytes-word_bytes (suc left) i acc rest bytes =
    AreBytes-cons (bit_and (acc >>> (i * 8)) (0xFF)) (word_bytes left (i + 1) acc ++ rest)
      (omega (arith, bit_and-le (acc >>> (i * 8)) (0xFF)))
      (AreBytes-word_bytes left (i + 1) acc rest bytes)

-- What a write of eight bytes leaves.
pub AreBytes-replaced :
    (acc : ℕ) (frame : List ℕ) → AreBytes frame → AreBytes (word_bytes 8 0 acc ++ drop 8 frame)
AreBytes-replaced acc frame bytes =
    AreBytes-word_bytes 8 0 acc (drop 8 frame) (AreBytes-drop 8 frame bytes)

pub length-replaced :
    (acc : ℕ) (frame : List ℕ)
    → 8 ≤ length frame
    → length (word_bytes 8 0 acc ++ drop 8 frame) ≡ length frame
unfolding word_bytes
length-replaced acc frame h = omega (arith, length-drop 8 frame)
