-- ===== src/Crosscheck.antt =====
-- fwhost/crosscheck.py: the simulator against the firmware that is built for the host, whose rows are a
-- parameter. A signal's name, the order of the names and the values are parameters as in Equiv; `far`
-- tells two values that differ by more than 1e-9, and `is_can` the names that start with "can:".
pub mod Sound
pub mod Run
use dingo_cli.Prelude.{
  ℕ, zero, suc, ◌+◌, ◌-◌, Bool, true, false, not, ◌&&◌, ◌||◌, Option, none, some, List, [], ◌∷◌,
  ◌++◌, length, ◌==◌, if◌then◌else◌,
}
use dingo_cli.Prelude.Results.{Result, ok, ◌>>=◌}
use dingo_cli.Double.{Double}
use dingo_cli.Enums.{cycle_ms}
use dingo_cli.Config.{DeviceConfig}
use dingo_cli.Sim.{Sim, step, init}
use dingo_cli.Observe.{Signal, observe}
use dingo_cli.Equiv.{Row, lookup, sorted_keys}
use dingo_cli.Trace.{Cycle, Step, no_wires, trace_cycles, pin_level}

module _ {W : Type 0} (d : Double W) (c : DeviceConfig W) where
  -- The loop of py_run, from cycle `i` on. A row has the time at which its cycle began.
  unfoldable pub py_cycles : (i : ℕ) → List Cycle → Sim W → Result (List (Row Signal W))
  unfolding step observe pin_level
  py_cycles i [] s = ok []
  py_cycles i (t ∷ ts) s = do
    s' ← step d c (pin_level t.pins) t.frames 0 s
    o ← observe c s'
    rows ← py_cycles (suc i) ts s'
    ok (record { signals = o; cycle = i; ms = s'.time_ms - cycle_ms } ∷ rows)

  -- py_run, of a loaded config and a trace that is read.
  unfoldable pub py_run : List Step → Result (List (Row Signal W))
  unfolding init trace_cycles py_cycles
  py_run steps = do s ← init d c; ts ← trace_cycles steps no_wires; py_cycles 0 ts s

-- An entry of diffs.
pub data Mismatch (K : Type 0) : Type 0 where
  lengths : (python fwhost : ℕ) → Mismatch K
  at : (cycle : ℕ) → K → Mismatch K

module _ {K V : Type 0} (same before : K → K → Bool) (is_can : K → Bool) (far : V → V → Bool)
    (skip : Bool) where
  -- The firmware posts no frame in the first cycle.
  unfoldable pub is_excused : (i : ℕ) → K → (fwhost : Option V) → Bool
  is_excused i k none = is_can k && (i == 0 && skip)
  is_excused i k (some y) = false

  unfoldable pub are_apart : Option V → Option V → Bool
  are_apart (some x) (some y) = far x y
  are_apart _ _ = true

  unfoldable pub is_wrong : (i : ℕ) → (python fwhost : List (K × V)) → K → Bool
  unfolding is_excused are_apart lookup
  is_wrong i p c k =
      not (is_excused i k (lookup same k c)) && are_apart (lookup same k p) (lookup same k c)

  -- The names of one cycle.
  unfoldable pub wrong_keys : (i : ℕ) → (python fwhost : List (K × V)) → List K → List K
  unfolding is_wrong
  wrong_keys i p c [] = []
  wrong_keys i p c (k ∷ ks) =
      let rest = wrong_keys i p c ks in if is_wrong i p c k then k ∷ rest else rest

  -- sorted(set(pobs) | set(cobs))
  unfoldable pub all_keys : (python fwhost : List (K × V)) → List K
  unfolding sorted_keys
  all_keys p c = sorted_keys same before c (sorted_keys same before p [])

  abbrev pub at_all : ℕ → List K → List (Mismatch K)
  at_all i [] = []
  at_all i (k ∷ ks) = at i k ∷ at_all i ks

  -- The cycles that both have, from `i` on.
  unfoldable pub mismatches : (i : ℕ) → (python fwhost : List (List (K × V))) → List (Mismatch K)
  unfolding wrong_keys all_keys
  mismatches i (p ∷ ps) (c ∷ cs) =
      at_all i (wrong_keys i p c (all_keys p c)) ++ mismatches (suc i) ps cs
  mismatches i _ _ = []

  -- compare, of the observations of the two runs.
  unfoldable pub compare_runs : (python fwhost : List (List (K × V))) → List (Mismatch K)
  unfolding mismatches
  compare_runs ps cs =
      (if length ps == length cs then [] else lengths (length ps) (length cs) ∷ [])
      ++ mismatches 0 ps cs
