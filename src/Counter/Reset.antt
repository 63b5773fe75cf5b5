-- ===== src/Counter/Reset.antt =====
-- The reset input. The early return of a reset leaves the last levels as they are, so an edge that
-- resets goes on to reset for as long as the level stays.
use dingo_cli.Prelude.{ℕ, ◌+◌, ◌≡◌, refl, Bool, true, not, List, [], ◌∷◌, arith, map}
use dingo_cli.Enums.{cycle_ms, edge_rising, edge_falling}
use dingo_cli.Double.{Double, of_ℕ}
use dingo_cli.Counter.{
  CounterConfig, CounterState, Pulses, edge, resets, count_up, count_down, counter_update,
  counter_run,
}

-- The reset input keeps one level.
abbrev pub Holds : Bool → List Pulses → Type 0
Holds level [] = Unit {0}
Holds level (p ∷ ps) = (p.reset ≡ level) × Holds level ps

module _ {W : Type 0} (d : Double W) (c : CounterConfig) where
  counter_update_held :
      (now : ℕ) (p : Pulses) (s : CounterState) (value : W)
      → edge c.reset_edge s.last_reset p.reset ≡ true
      → counter_update d c now p (s, value) ≡ (s, of_ℕ d 0)
  unfolding counter_update resets
  counter_update_held now p s value h = ground arith

  counter_run_held :
      (level : Bool) (ps : List Pulses) (now : ℕ) (s : CounterState)
      → edge c.reset_edge s.last_reset level ≡ true
      → Holds level ps
      → counter_run d c now ps (s, of_ℕ d 0) ≡ (s, of_ℕ d 0)
  unfolding counter_run
  counter_run_held level [] now s h held = refl
  counter_run_held level (p ∷ ps) now s h held = ground (
    arith,
    counter_update_held now p s (of_ℕ d 0),
    counter_run_held level ps (now + cycle_ms) s h held.1,
  )

  -- Where the reset input makes the edge that resets, and keeps its level for any further cycles, the
  -- counter is at 0 after them, and its last levels and times are what they were before.
  pub counter_run_reset :
      (p : Pulses) (ps : List Pulses) (now : ℕ) (s : CounterState) (value : W)
      → edge c.reset_edge s.last_reset p.reset ≡ true
      → Holds p.reset ps
      → counter_run d c now (p ∷ ps) (s, value) ≡ (s, of_ℕ d 0)
  unfolding counter_run
  counter_run_reset p ps now s value h held = ground (
    arith,
    counter_update_held now p s value,
    counter_run_held p.reset ps (now + cycle_ms) s h held,
  )

-- The rewrite of fwmodel/tools/mkreference.py: a reset on the falling edge of X becomes one on the
-- rising edge of NOT X.
abbrev pub on_falling : CounterConfig → CounterConfig
on_falling c = record c { reset_edge = edge_falling }

abbrev pub on_rising : CounterConfig → CounterConfig
on_rising c = record c { reset_edge = edge_rising }

abbrev pub invert_reset : Pulses → Pulses
invert_reset p = record p { reset = not p.reset }

abbrev pub invert_last : CounterState → CounterState
invert_last s = record s { last_reset = not s.last_reset }

module _ {W : Type 0} (d : Double W) (c : CounterConfig) where
  resets_rewritten :
      (now : ℕ) (p : Pulses) (s : CounterState)
      → resets (on_rising c) now (invert_reset p) (invert_last s) ≡ resets (on_falling c) now p s
  unfolding resets
  resets_rewritten now p s = ground arith

  count_up_rewritten :
      (now : ℕ) (inc : Bool) (s : CounterState) (value : W)
      → let (s', value') = count_up d (on_falling c) now inc (s, value) in
        count_up d (on_rising c) now inc (invert_last s, value) ≡ (invert_last s', value')
  unfolding count_up
  count_up_rewritten now inc s value = ground arith

  count_down_rewritten :
      (now : ℕ) (dec : Bool) (s : CounterState) (value : W)
      → let (s', value') = count_down d (on_falling c) now dec (s, value) in
        count_down d (on_rising c) now dec (invert_last s, value) ≡ (invert_last s', value')
  unfolding count_down
  count_down_rewritten now dec s value = ground arith

  update_rewritten :
      (now : ℕ) (p : Pulses) (s : CounterState) (value : W)
      → let (s', value') = counter_update d (on_falling c) now p (s, value) in
        counter_update d (on_rising c) now (invert_reset p) (invert_last s, value)
        ≡ (invert_last s', value')
  unfolding counter_update
  update_rewritten now p s value =
      let (s', value') = count_up d (on_falling c) now p.inc (s, value) in
      ground (
        arith,
        resets_rewritten now p s,
        count_up_rewritten now p.inc s value,
        count_down_rewritten now p.dec s' value',
      )

  -- Once the reset input has been seen, the two count alike for ever: from states that differ in
  -- the last reset level alone, any cycles lead to such states and to the same value.
  pub counter_run_rewritten :
      (ps : List Pulses) (now : ℕ) (s : CounterState) (value : W)
      → let (s', value') = counter_run d (on_falling c) now ps (s, value) in
        counter_run d (on_rising c) now (map invert_reset ps) (invert_last s, value)
        ≡ (invert_last s', value')
  unfolding counter_run
  counter_run_rewritten [] now s value = refl
  counter_run_rewritten (p ∷ ps) now s value =
      let (s', value') = counter_update d (on_falling c) now p (s, value) in
      ground
        (arith, update_rewritten now p s value, counter_run_rewritten ps (now + cycle_ms) s' value')
