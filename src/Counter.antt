-- ===== src/Counter.antt =====
-- `Sim._counter` of fwmodel/model/dingosim.py (counter.cpp Counter::Update).
pub mod Bounds
pub mod Reset
pub mod PowerOn
pub mod Toggle
use dingo_cli.Prelude.{
  ℕ, ◌+◌, ◌≡◌, Bool, true, false, not, xor, ◌&&◌, ◌||◌, List, [], ◌∷◌, ◌==◌, leb, if◌then◌else◌,
}
use dingo_cli.Prelude.Results.{Result, ok, ◌>>=◌}
use dingo_cli.Enums.{cycle_ms, edge_rising, edge_falling, edge_both}
use dingo_cli.Double.{Double, of_ℕ, truth}
use dingo_cli.Vars.{read, write}

pub record CounterConfig : Type 0 where
  pub enabled : Bool
  pub inc_input : ℕ
  pub dec_input : ℕ
  pub reset_input : ℕ
  pub min_count : ℕ
  pub max_count : ℕ
  pub inc_edge : ℕ
  pub dec_edge : ℕ
  pub reset_edge : ℕ
  pub wrap_around : Bool
  pub hold_to_reset : Bool
  pub reset_time : ℕ

-- `_ct_last_inc[i]` and so on. The times are those of the dictionaries, 0 where they have no entry.
pub record CounterState : Type 0 where
  pub last_inc : Bool
  pub last_dec : Bool
  pub last_reset : Bool
  pub inc_time : ℕ
  pub dec_time : ℕ

abbrev pub counter_init : CounterState
counter_init = record {
  last_inc = false;
  last_dec = false;
  last_reset = false;
  inc_time = 0;
  dec_time = 0;
}

-- Sim._edge
unfoldable pub edge : ℕ → (prev curr : Bool) → Bool
edge e prev curr =
    if e == edge_rising
    then not prev && curr
    else if e == edge_falling
    then prev && not curr
    else e == edge_both && xor prev curr

-- The three inputs of one cycle.
pub record Pulses : Type 0 where
  pub inc : Bool
  pub dec : Bool
  pub reset : Bool

-- The early returns: a reset edge, and an input held for the reset time.
unfoldable pub resets : CounterConfig → (now : ℕ) → Pulses → CounterState → Bool
unfolding edge
resets c now p s =
    edge c.reset_edge s.last_reset p.reset
    || c.hold_to_reset
      && (p.inc && leb (s.inc_time + c.reset_time) now
          || p.dec && leb (s.dec_time + c.reset_time) now)

module _ {W : Type 0} (d : Double W) where
  open d use {add, sub, eq, lt}

  -- The value and the state, as one cycle leaves them.
  abbrev pub Counted : Type 0
  Counted = CounterState × W

  -- The increment, with the time stamp that it sets.
  unfoldable pub count_up : CounterConfig → (now : ℕ) (inc : Bool) → Counted → Counted
  unfolding edge
  count_up c now inc (s, value) =
      if edge c.inc_edge s.last_inc inc
      then (let more = add value (of_ℕ d 1) in
          (
            record s { inc_time = now },
            if lt (of_ℕ d c.max_count) more
                then (if c.wrap_around then of_ℕ d 0 else of_ℕ d c.max_count)
                else more,
          ))
      else (s, value)

  unfoldable pub count_down : CounterConfig → (now : ℕ) (dec : Bool) → Counted → Counted
  unfolding edge
  count_down c now dec (s, value) =
      if edge c.dec_edge s.last_dec dec
      then (
        record s { dec_time = now },
        if eq value (of_ℕ d 0)
            then (if c.wrap_around then of_ℕ d c.max_count else of_ℕ d c.min_count)
            else sub value (of_ℕ d 1),
      )
      else (s, value)

  -- Sim._counter of an enabled slot, from the three inputs on. Both early returns skip the update
  -- of the last levels.
  unfoldable pub counter_update : CounterConfig → (now : ℕ) → Pulses → Counted → Counted
  counter_update c now p (s, value) =
      if resets c now p s
      then (s, of_ℕ d 0)
      else (let (s', value') = count_down c now p.dec (count_up c now p.inc (s, value)) in
          (record s' { last_inc = p.inc; last_dec = p.dec; last_reset = p.reset }, value'))

  -- The updates of successive cycles, from the time `now` on.
  unfoldable pub counter_run : CounterConfig → (now : ℕ) → List Pulses → Counted → Counted
  counter_run c now [] x = x
  counter_run c now (p ∷ ps) x = counter_run c (now + cycle_ms) ps (counter_update c now p x)

  -- Sim._counter
  unfoldable pub counter :
      (base now i : ℕ) → CounterConfig → CounterState → List W → Result (CounterState × List W)
  unfolding counter_update resets count_up count_down read write
  counter base now i c s vars =
      if c.enabled
      then (do
        inc ← read vars c.inc_input
        dec ← read vars c.dec_input
        rst ← read vars c.reset_input
        value ← read vars (base + i)
        let next =
            counter_update c now
              (record { inc = truth d inc; dec = truth d dec; reset = truth d rst }) (s, value)
        vars' ← write vars (base + i) next.1
        ok (next.0, vars'))
      else (do vars' ← write vars (base + i) (of_ℕ d 0); ok (s, vars'))
