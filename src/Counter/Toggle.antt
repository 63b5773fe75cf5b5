-- ===== src/Counter/Toggle.antt =====
-- The toggle idiom of fwmodel/README.md: a counter that wraps around at 1 against a virtual input
-- in latching mode.
use dingo_cli.Prelude.{ℕ, ◌+◌, ◌≡◌, refl, ap, ◌∙◌, Bool, true, false, List, [], ◌∷◌, arith, map}
use dingo_cli.Enums.{cycle_ms, edge_rising, mode_latching}
use dingo_cli.Double.{Double, of_ℕ, of_bool}
use dingo_cli.Double.Truth.{lt-of_ℕ, add-of_ℕ}
use dingo_cli.Latch.{InputLatch, released, check}
use dingo_cli.Latch.Toggle.{check_all}
use dingo_cli.Counter.{
  CounterConfig, CounterState, counter_init, Pulses, resets, count_up, count_down, counter_update,
  counter_run,
}

-- Counts rising edges up to 1 and around; the inputs for decrement and reset are AlwaysFalse.
abbrev pub IsToggle : CounterConfig → Type 0
IsToggle c =
    (c.inc_edge ≡ edge_rising)
    × (c.dec_edge ≡ edge_rising)
    × (c.reset_edge ≡ edge_rising)
    × (c.max_count ≡ 1)
    × (c.wrap_around ≡ true)
    × (c.hold_to_reset ≡ false)

abbrev pub press : Bool → Pulses
press level = record { inc = level; dec = false; reset = false }

-- The counter's state that goes with a latch.
record Agrees (s : CounterState) (latch : InputLatch) : Type 0 where
  inc : s.last_inc ≡ latch.b_last
  dec : s.last_dec ≡ false

module _ {W : Type 0} (d : Double W) (c : CounterConfig) (toggle : IsToggle c) where
  update_toggle :
      (now : ℕ) (level : Bool) (s : CounterState) (latch : InputLatch)
      → Agrees s latch
      → let next = counter_update d c now (press level) (s, of_bool d latch.b_out) in
        let latch' = check mode_latching false level latch in
        (next.1 ≡ of_bool d latch'.b_out) × Agrees next.0 latch'
  unfolding counter_update resets count_up count_down check
  update_toggle now level s latch h =
      ground (arith, add-of_ℕ d 0 1, add-of_ℕ d 1 1, lt-of_ℕ d 1 1, lt-of_ℕ d 1 2)

  counter_run-Agrees :
      (levels : List Bool) (now : ℕ) (s : CounterState) (latch : InputLatch)
      → Agrees s latch
      → (counter_run d c now (map press levels) (s, of_bool d latch.b_out)).1
        ≡ of_bool d (check_all mode_latching false levels latch).b_out
  unfolding counter_run check_all
  counter_run-Agrees [] now s latch h = refl
  counter_run-Agrees (level ∷ levels) now s latch h =
      let (value, agrees) = update_toggle now level s latch h in
      let s' = (counter_update d c now (press level) (s, of_bool d latch.b_out)).0 in
      ap (λ v. (counter_run d c (now + cycle_ms) (map press levels) (s', v)).1) value
      ∙ counter_run-Agrees levels (now + cycle_ms) s' (check mode_latching false level latch) agrees

  -- A counter that wraps around at 1, on rising edges and without hold-to-reset, whose decrement and
  -- reset inputs stay low, has from power-on, over any levels of the increment input, the output of a
  -- latch on the same levels as its value.
  pub counter_run_toggle :
      (levels : List Bool) (now : ℕ)
      → (counter_run d c now (map press levels) (counter_init, of_ℕ d 0)).1
        ≡ of_bool d (check_all mode_latching false levels released).b_out
  counter_run_toggle levels now =
      counter_run-Agrees levels now counter_init released (record { inc = refl; dec = refl })
