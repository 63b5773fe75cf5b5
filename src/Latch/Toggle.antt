-- ===== src/Latch/Toggle.antt =====
-- What a latch shows after a run of levels.
use dingo_cli.Prelude.{ℕ, ◌≡◌, refl, Bool, false, not, xor, ◌&&◌, List, [], ◌∷◌, arith}
use dingo_cli.Enums.{mode_momentary, mode_latching}
use dingo_cli.Latch.{InputLatch, check}

-- One check for each level, in order.
unfoldable pub check_all : (mode : ℕ) (invert : Bool) → List Bool → InputLatch → InputLatch
check_all mode invert [] latch = latch
check_all mode invert (val ∷ vals) latch = check_all mode invert vals (check mode invert val latch)

-- Whether the number of rising edges in the levels is odd, from the level `prev` on.
abbrev pub odd_rises : (prev : Bool) → List Bool → Bool
odd_rises prev [] = false
odd_rises prev (val ∷ vals) = xor (val && not prev) (odd_rises val vals)

abbrev pub last_level : Bool → List Bool → Bool
last_level prev [] = prev
last_level prev (val ∷ vals) = last_level val vals

check_latching :
    (val : Bool) (latch : InputLatch)
    → ((check mode_latching false val latch).b_out ≡ xor (val && not latch.b_last) latch.b_out)
      × ((check mode_latching false val latch).b_last ≡ val)
unfolding check
check_latching val latch = ground arith

xor_swap : (a b c : Bool) → xor a (xor b c) ≡ xor (xor b a) c
xor_swap a b c = ground arith

-- In latching mode the output is flipped once for each rising edge, and by nothing else: after any
-- levels it is the output before, flipped if the number of rising edges was odd.
pub check_all_latching :
    (vals : List Bool) (latch : InputLatch)
    → (check_all mode_latching false vals latch).b_out
      ≡ xor (odd_rises latch.b_last vals) latch.b_out
unfolding check_all
check_all_latching [] latch = refl
check_all_latching (val ∷ vals) latch = ground (
  arith,
  check_latching val latch,
  check_all_latching vals (check mode_latching false val latch),
  xor_swap (odd_rises val vals) (val && not latch.b_last) latch.b_out,
)

-- In momentary mode, with or without inversion, a latch whose output is the level that it saw last
-- shows the last of any levels that follow, inverted as the mode of the slot says.
pub check_all_momentary :
    (invert : Bool) (vals : List Bool) (latch : InputLatch)
    → latch.b_out ≡ latch.b_last
    → (check_all mode_momentary invert vals latch).b_out
      ≡ xor (last_level (xor latch.b_last invert) vals) invert
unfolding check_all check
check_all_momentary invert [] latch h = ground arith
check_all_momentary invert (val ∷ vals) latch h =
    ground (arith, check_all_momentary invert vals (check mode_momentary invert val latch))
