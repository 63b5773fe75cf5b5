-- ===== src/Counter/PowerOn.antt =====
-- Where the rewrite of fwmodel/tools/mkreference.py starts from: the state at power-on, in which
-- the last reset level of both counters is low.
use dingo_cli.Prelude.{ℕ, ◌+◌, ◌≤◌, ◌^◌, ◌≡◌, true, false, List, [], ◌∷◌, arith, map}
use dingo_cli.Enums.{cycle_ms, edge_rising}
use dingo_cli.Double.{Double, of_ℕ}
use dingo_cli.Double.Truth.{lt-of_ℕ, add-of_ℕ}
use dingo_cli.Counter.{
  CounterConfig, counter_init, Pulses, resets, count_up, count_down, counter_update, counter_run,
}
use dingo_cli.Counter.Reset.{
  on_falling, on_rising, invert_reset, invert_last, counter_run_rewritten,
}

module _ {W : Type 0} (d : Double W) (c : CounterConfig) (no_hold : c.hold_to_reset ≡ false) where
  first_update :
      (now : ℕ) (p : Pulses) (value : W)
      → p.reset ≡ true
      → let (s', value') = counter_update d (on_falling c) now p (counter_init, value) in
        counter_update d (on_rising c) now (invert_reset p) (counter_init, value)
        ≡ (invert_last s', value')
  unfolding counter_update resets count_up count_down
  first_update now p value high = ground arith

  -- Without hold-to-reset, if the input is high in the first cycle, the two counters have the same
  -- value from power-on, after any cycles.
  pub rewritten_from_high :
      (p : Pulses) (ps : List Pulses) (now : ℕ) (value : W)
      → p.reset ≡ true
      → (counter_run d (on_rising c) now (map invert_reset (p ∷ ps)) (counter_init, value)).1
        ≡ (counter_run d (on_falling c) now (p ∷ ps) (counter_init, value)).1
  unfolding counter_run
  rewritten_from_high p ps now value high =
      let (s', value') = counter_update d (on_falling c) now p (counter_init, value) in
      ground
        (arith, first_update now p value, counter_run_rewritten d c ps (now + cycle_ms) s' value')

  -- Without hold-to-reset, if the input is low in the first cycle and that cycle has an increment, the
  -- two do not agree: with edges on Rising and a maximum from 1 to 2 ^ 53, the counter with the falling
  -- reset counts to 1, and the one with the rising reset stays at 0.
  pub rewritten_from_low :
      (p : Pulses) (now : ℕ)
      → p.reset ≡ false
      → p.inc ≡ true
      → p.dec ≡ false
      → c.inc_edge ≡ edge_rising
      → c.dec_edge ≡ edge_rising
      → 1 ≤ c.max_count
      → c.max_count ≤ 2 ^ 53
      → ((counter_run d (on_falling c) now (p ∷ []) (counter_init, of_ℕ d 0)).1 ≡ of_ℕ d 1)
        × ((counter_run d (on_rising c) now (invert_reset p ∷ []) (counter_init, of_ℕ d 0)).1
            ≡ of_ℕ d 0)
  unfolding counter_run counter_update resets count_up count_down
  rewritten_from_low p now low up still rises falls room fits =
      ground (arith, add-of_ℕ d 0 1, lt-of_ℕ d c.max_count 1)
