-- ===== src/Counter/Bounds.antt =====
-- The range of a counter's value. In doubles it counts as a natural number does, as long as the
-- maximum is one that a double holds.
use dingo_cli.Prelude.{
  ℕ, ◌+◌, ◌-◌, ◌≤◌, ◌<◌, ◌^◌, ◌≡◌, refl, ap, ◌∙◌, Bool, List, [], ◌∷◌, ◌==◌, ltb, arith,
  if◌then◌else◌,
}
use dingo_cli.Enums.{cycle_ms}
use dingo_cli.Double.{Double, of_ℕ}
use dingo_cli.Double.Truth.{eq-of_ℕ, lt-of_ℕ, add-of_ℕ, sub-of_ℕ}
use dingo_cli.Counter.{
  CounterConfig, CounterState, Pulses, edge, count_up, count_down, resets, counter_update,
  counter_run,
}

-- The counter over the natural numbers: one more, up to the maximum.
abbrev pub tally_up : CounterConfig → Bool → ℕ → ℕ
tally_up c fires n =
    if fires
    then (if ltb n c.max_count then n + 1 else if c.wrap_around then 0 else c.max_count)
    else n

-- One less, and from zero to the minimum, or around to the maximum.
abbrev pub tally_down : CounterConfig → Bool → ℕ → ℕ
tally_down c fires n =
    if fires
    then (if n == 0 then (if c.wrap_around then c.max_count else c.min_count) else n - 1)
    else n

abbrev pub tally : CounterConfig → (now : ℕ) → Pulses → CounterState → ℕ → ℕ
tally c now p s n =
    if resets c now p s
    then 0
    else tally_down c (edge c.dec_edge s.last_dec p.dec)
        (tally_up c (edge c.inc_edge s.last_inc p.inc) n)

abbrev pub IsRanged : CounterConfig → Type 0
IsRanged c = (c.min_count ≤ c.max_count) × (c.max_count < 2 ^ 53)

module _ {W : Type 0} (d : Double W) (c : CounterConfig) (ranged : IsRanged c) where
  count_up-tally :
      (now : ℕ) (inc : Bool) (s : CounterState) (n : ℕ)
      → n ≤ c.max_count
      → (count_up d c now inc (s, of_ℕ d n)).1
        ≡ of_ℕ d (tally_up c (edge c.inc_edge s.last_inc inc) n)
  unfolding count_up
  count_up-tally now inc s n h = ground (arith, add-of_ℕ d n 1, lt-of_ℕ d c.max_count (n + 1))

  last_dec-count_up :
      (now : ℕ) (inc : Bool) (s : CounterState) (value : W)
      → (count_up d c now inc (s, value)).0.last_dec ≡ s.last_dec
  unfolding count_up
  last_dec-count_up now inc s value = ground arith

  count_down-tally :
      (now : ℕ) (dec : Bool) (s : CounterState) (n : ℕ)
      → n ≤ c.max_count
      → (count_down d c now dec (s, of_ℕ d n)).1
        ≡ of_ℕ d (tally_down c (edge c.dec_edge s.last_dec dec) n)
  unfolding count_down
  count_down-tally now dec s n h = ground (arith, eq-of_ℕ d n 0, sub-of_ℕ d n 1)

  tally_up-le : (fires : Bool) (n : ℕ) → n ≤ c.max_count → tally_up c fires n ≤ c.max_count
  tally_up-le fires n h = ground arith

  pub tally-le :
      (now : ℕ) (p : Pulses) (s : CounterState) (n : ℕ)
      → n ≤ c.max_count
      → tally c now p s n ≤ c.max_count
  tally-le now p s n h = ground (arith, tally_up-le (edge c.inc_edge s.last_inc p.inc) n h)

  -- With minCount at most maxCount and maxCount below 2 ^ 53, one cycle of an enabled counter that
  -- holds a number up to maxCount is a step of `tally`: a reset gives 0, a rise past the maximum stops
  -- there or wraps to 0, and a fall from 0 gives the minimum or wraps to the maximum.
  pub counter_update-tally :
      (now : ℕ) (p : Pulses) (s : CounterState) (n : ℕ)
      → n ≤ c.max_count
      → (counter_update d c now p (s, of_ℕ d n)).1 ≡ of_ℕ d (tally c now p s n)
  unfolding counter_update
  counter_update-tally now p s n h =
      let fires = edge c.inc_edge s.last_inc p.inc in
      ground (
        arith,
        count_up-tally now p.inc s n h,
        count_down-tally now p.dec (count_up d c now p.inc (s, of_ℕ d n)).0 (tally_up c fires n)
            (tally_up-le fires n h),
        last_dec-count_up now p.inc s (of_ℕ d n),
      )

  -- With minCount at most maxCount and maxCount below 2 ^ 53, a counter that holds a number up to
  -- maxCount holds one after any cycles, whatever its inputs do.
  pub counter_run-bounded :
      (ps : List Pulses) (now : ℕ) (s : CounterState) (n : ℕ)
      → n ≤ c.max_count
      → (m : ℕ) × (m ≤ c.max_count) × ((counter_run d c now ps (s, of_ℕ d n)).1 ≡ of_ℕ d m)
  unfolding counter_run
  counter_run-bounded [] now s n h = (n, h, refl)
  counter_run-bounded (p ∷ ps) now s n h =
      let next = counter_update d c now p (s, of_ℕ d n) in
      let (m, fits, e) =
        counter_run-bounded ps (now + cycle_ms) next.0 (tally c now p s n) (tally-le now p s n h) in
      (
        m,
        fits,
        ap (λ v. (counter_run d c (now + cycle_ms) ps (next.0, v)).1)
              (counter_update-tally now p s n h)
            ∙ e,
      )
