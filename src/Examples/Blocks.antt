-- ===== src/Examples/Blocks.antt =====
-- The theorems on the blocks, at sample slots.
use dingo_cli.Prelude.{
  inl, ℕ, ◌-◌, ◌^◌, ◌≤◌, ◌<◌, ◌≡◌, refl, Bool, true, false, [], ◌∷◌, ◌++◌, map, arith, replicate,
  set,
}
use dingo_cli.Prelude.Int.{pos, negsuc}
use dingo_cli.Prelude.Results.{ok}
use dingo_cli.Enums.{mode_latching, mode_momentary, op_ge, op_bitand, op_bitnand}
use dingo_cli.Double.{of_ℕ, of_bool, truth}
use dingo_cli.Double.Exact.{exact}
use dingo_cli.Bits.{and_ℤ}
use dingo_cli.Bits.Laws.{mod_power}
use dingo_cli.Latch.{released, check}
use dingo_cli.Latch.Toggle.{check_all, check_all_latching}
use dingo_cli.Counter.{edge, counter_init, counter_update, counter_run}
use dingo_cli.Counter.Bounds.{tally, counter_update-tally, counter_run-bounded}
use dingo_cli.Counter.Reset.{
  counter_run_reset, counter_run_rewritten, on_falling, on_rising, invert_reset, invert_last,
}
use dingo_cli.Counter.Toggle.{press, counter_run_toggle}
use dingo_cli.Flasher.{flasher_update}
use dingo_cli.Flasher.Timing.{flasher_update-blink, flasher_run, lit_phase}
use dingo_cli.DigitalInput.Debounce.{input_run, input_run_change, input_run_glitch}
use dingo_cli.VirtualInput.{virtin}
use dingo_cli.VirtualInput.Logic.{virtin-eq}
use dingo_cli.Condition.{condition_value, cmp}
use dingo_cli.Condition.Operators.{compares, condition_value-compares, condition_value_bits}
use dingo_cli.Examples.Samples.{
  gear, toggle, up, down, was_high, blinker, lit_at_10, button, at_rest, both_sections, flags,
}

check_all_latching_example :
    (check_all mode_latching false (true ∷ true ∷ false ∷ true ∷ []) released).b_out ≡ false
check_all_latching_example = check_all_latching (true ∷ true ∷ false ∷ true ∷ []) released

counter_update-tally_example :
    (counter_update exact gear 8 up (was_high, of_ℕ exact 3)).1
    ≡ of_ℕ exact (tally gear 8 up was_high 3)
counter_update-tally_example =
    counter_update-tally exact gear (omega arith, omega arith) 8 up was_high 3 (omega arith)

counter_run-bounded_example :
    (m : ℕ) × (m ≤ 3)
    × ((counter_run exact gear 8 (up ∷ down ∷ up ∷ []) (counter_init, of_ℕ exact 2)).1
        ≡ of_ℕ exact m)
counter_run-bounded_example =
    counter_run-bounded exact gear (omega arith, omega arith) (up ∷ down ∷ up ∷ []) 8 counter_init 2
      (omega arith)

counter_run_reset_example :
    counter_run exact gear 8 (up ∷ down ∷ up ∷ []) (was_high, of_ℕ exact 2)
    ≡ (was_high, of_ℕ exact 0)
unfolding edge
counter_run_reset_example =
    counter_run_reset exact gear up (down ∷ up ∷ []) 8 was_high (of_ℕ exact 2) refl
      (refl, (refl, tt))

counter_run_rewritten_example :
    counter_run exact
      (on_rising gear)
      8
      (map invert_reset (up ∷ down ∷ []))
      (invert_last was_high, of_ℕ exact 2)
    ≡ (
      invert_last
          (counter_run exact (on_falling gear) 8 (up ∷ down ∷ []) (was_high, of_ℕ exact 2)).0,
      (counter_run exact (on_falling gear) 8 (up ∷ down ∷ []) (was_high, of_ℕ exact 2)).1,
    )
counter_run_rewritten_example =
    counter_run_rewritten exact gear (up ∷ down ∷ []) 8 was_high (of_ℕ exact 2)

counter_run_toggle_example :
    (counter_run exact toggle 0
      (map press (true ∷ false ∷ true ∷ []))
      (counter_init, of_ℕ exact 0)).1
    ≡ of_bool exact (check_all mode_latching false (true ∷ false ∷ true ∷ []) released).b_out
counter_run_toggle_example =
    counter_run_toggle exact toggle (refl, refl, refl, refl, refl, refl) (true ∷ false ∷ true ∷ [])
      0

flasher_update-blink_example :
    flasher_update exact blinker 16 true (lit_at_10, of_bool exact true)
    ≡ (record { on_at = 10; off_at = 16 }, of_bool exact false)
flasher_update-blink_example = flasher_update-blink exact blinker 16 true true lit_at_10

lit_phase_example :
    (flasher_run exact blinker 2 12 (lit_at_10, of_ℕ exact 1) ≡ (lit_at_10, of_ℕ exact 1))
    × (flasher_run exact blinker 3 12 (lit_at_10, of_ℕ exact 1)
        ≡ (record { on_at = 10; off_at = 16 }, of_ℕ exact 0))
lit_phase_example = lit_phase exact blinker 2 12 lit_at_10 (omega arith) (omega arith) (omega arith)

input_run_change_example :
    (input_run button 20 (replicate 4 false) at_rest).latch
    ≡ check mode_momentary true false released
input_run_change_example = input_run_change button false 3 20 at_rest refl refl

input_run_glitch_example :
    (input_run button 20 (replicate 3 false ++ replicate 6 true) at_rest).latch ≡ released
input_run_glitch_example = input_run_glitch button true 2 5 20 at_rest refl refl refl (omega arith)

virtin-eq_example :
    virtin exact 4 2 both_sections released flags
    ≡ ok (record { b_out = true; b_last = true }, set flags 6 (of_bool exact true))
unfolding exact
virtin-eq_example =
    virtin-eq exact 4 2 both_sections released flags refl refl refl refl (omega arith) (inl refl)

condition_value-compares_example :
    (condition_value exact op_ge (negsuc 4) (pos 3)
      ≡ ok (of_bool exact (compares op_ge (negsuc 4) (pos 3))))
    × ((can_input : Bool)
        → cmp exact op_ge (negsuc 4) (pos 3) can_input ≡ ok (compares op_ge (negsuc 4) (pos 3)))
unfolding exact
condition_value-compares_example =
    condition_value-compares exact op_ge (negsuc 4) (pos 3) (omega arith, omega arith)
      (omega arith, omega arith) (omega arith)

condition_value_bits_example :
    (mod_power 16 (and_ℤ (pos 12) (pos 10)) < 2 ^ 16)
    × (condition_value exact op_bitand (pos 12) (pos 10)
        ≡ ok (of_ℕ exact (mod_power 16 (and_ℤ (pos 12) (pos 10)))))
    × (condition_value exact op_bitnand (pos 12) (pos 10)
        ≡ ok (of_ℕ exact (2 ^ 32 - 1 - mod_power 16 (and_ℤ (pos 12) (pos 10)))))
    × (truth exact (of_ℕ exact (2 ^ 32 - 1 - mod_power 16 (and_ℤ (pos 12) (pos 10)))) ≡ true)
unfolding exact
condition_value_bits_example =
    condition_value_bits exact (pos 12) (pos 10) (omega arith, omega arith)
      (omega arith, omega arith)
