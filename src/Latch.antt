-- ===== src/Latch.antt =====
-- `InputLatch` of fwmodel/model/dingosim.py: the momentary and latching edge helper.
pub mod Toggle
use dingo_cli.Prelude.{ℕ, Bool, true, false, not, xor, ◌&&◌, ◌==◌, if◌then◌else◌}
use dingo_cli.Enums.{mode_momentary, mode_latching}

pub record InputLatch : Type 0 where
  pub b_out : Bool
  pub b_last : Bool

abbrev pub released : InputLatch
released = record { b_out = false; b_last = false }

-- The new b_out, for the level after inversion.
unfoldable pub next_out : ℕ → Bool → InputLatch → Bool
next_out mode val latch =
    if xor val latch.b_last
    then (if mode == mode_momentary
        then val
        else (if mode == mode_latching && val then not latch.b_out else latch.b_out))
    else latch.b_out

unfoldable pub check : (mode : ℕ) (invert val : Bool) → InputLatch → InputLatch
unfolding next_out
check mode invert val latch =
    let level = xor val invert in record { b_out = next_out mode level latch; b_last = level }
