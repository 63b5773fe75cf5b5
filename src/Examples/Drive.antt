-- ===== src/Examples/Drive.antt =====
-- The theorems on traces: one trace of two steps, of which the second goes silent.
use dingo_cli.Prelude.{
  not, ◌&&◌, ◌||◌, if◌then◌else◌, ℕ, ◌≡◌, refl, some, none, List, [], ◌∷◌, length, arith,
}
use dingo_cli.Prelude.Results.{ok, Returns, Outcome, ◌>>=◌}
use dingo_cli.Double.Exact.{exact}
use dingo_cli.Board.Known.{max_v1}
use dingo_cli.Sim.{init}
use dingo_cli.Sim.Shape.{Converts}
use dingo_cli.Examples.Samples.{demo}
use dingo_cli.Examples.Device.{demo-ends, full, accepted}
use dingo_cli.Trace.Silence.{apply_step-silent}
use dingo_cli.Trace.Log.{Numbered, init-run_trace}
use dingo_cli.Trace.{
  Step, Cycle, no_wires, Wires, run_trace, trace_cycles, apply_step, set_pins, set_bits, set_bit,
  set_bytes, buffer, find, store, hush, unhush, is_silent, discard, duration, sounding,
}
use dingo_cli.Trace.Length.{AreWide, total, trace_cycles-Returns}
use dingo_cli.Vars.{read, write}

abbrev quiet_step : Step
quiet_step = record {
  pins = [];
  bits = [];
  bytes = [];
  quiet = 100 ∷ [];
  loud = [];
  cycles = none;
  ms = some 3;
}

-- Bit 9 of frame 100 is set for two cycles, and the frame is silent for 3 ms, which are two cycles.
abbrev pub drive : List Step
drive =
    record {
      pins = (1, 1) ∷ [];
      bits = (100, (9, 1)) ∷ [];
      bytes = [];
      quiet = [];
      loud = [];
      cycles = some 2;
      ms = none;
    }
    ∷ quiet_step
    ∷ []

abbrev cycle : List (ℕ × List ℕ) → Cycle
cycle frames = record { pins = (1, 1) ∷ []; frames = frames }

abbrev sent : List (ℕ × List ℕ)
sent = (100, 0 ∷ 2 ∷ 0 ∷ 0 ∷ 0 ∷ 0 ∷ 0 ∷ 0 ∷ []) ∷ []

drive_runs : trace_cycles drive no_wires ≡ ok (cycle sent ∷ cycle sent ∷ cycle [] ∷ cycle [] ∷ [])
unfolding trace_cycles apply_step set_pins set_bits set_bit set_bytes buffer find store hush unhush
    is_silent discard duration sounding read write
drive_runs = refl

trace_cycles-Returns_example :
    Returns (λ ts. (length ts ≡ total drive) × AreWide ts) (trace_cycles drive no_wires)
trace_cycles-Returns_example =
    trace_cycles-Returns drive no_wires tt (((omega arith, tt), (tt, tt)))

init-run_trace_example :
    Outcome
      (Converts exact demo)
      (λ log. (length log ≡ total drive) × Numbered 0 log)
      (init exact demo >>= run_trace exact demo 1 drive)
init-run_trace_example =
    init-run_trace exact demo max_v1 full demo-ends accepted drive (((omega arith, tt), (tt, tt)))

abbrev wires : (silent : List ℕ) → Wires
wires silent = record { pins = (1, 1) ∷ []; payloads = sent; silent = silent }

apply_step-silent_example : find 100 (sounding sent (100 ∷ [])) ≡ (
    if (is_silent 100 (100 ∷ []) || is_silent 100 []) && not (is_silent 100 [])
    then none
    else find 100 sent)
unfolding apply_step set_pins set_bits set_bytes hush unhush is_silent
apply_step-silent_example = apply_step-silent quiet_step (wires []) (wires (100 ∷ [])) 100 refl
