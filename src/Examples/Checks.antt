-- ===== src/Examples/Checks.antt =====
-- The theorems on the cross check and the fuzzer: a simulator with a signal that the firmware lacks in
-- the first cycle, and agrees on from then on.
use dingo_cli.Prelude.{
  ℕ, ◌≡◌, refl, ◌↔◌, Bool, true, false, not, List, [], ◌∷◌, map, ltb, ◌==◌, ==_iff, length,
}
use dingo_cli.Prelude.Results.{ok, ◌>>=◌}
use dingo_cli.Double.Exact.{exact}
use dingo_cli.Sim.{init}
use dingo_cli.Trace.{run_trace}
use dingo_cli.Crosscheck.{
  at, compare_runs, mismatches, wrong_keys, is_wrong, is_excused, are_apart, all_keys, py_run,
}
use dingo_cli.Crosscheck.Run.{at_start, py_run-eq}
use dingo_cli.Crosscheck.Sound.{AllMatch, compare_runs_iff}
use dingo_cli.Fuzz.{agree, case_verdict, verdict_from, first_wrong, tagged}
use dingo_cli.Fuzz.Agrees.{case_verdict-compare_runs}
use dingo_cli.Equiv.{sorted_keys, insert, lookup}
use dingo_cli.Equiv.Keys.{IsEquality}
use dingo_cli.Examples.Samples.{demo}
use dingo_cli.Examples.Drive.{drive}

abbrev same : ℕ → ℕ → Bool
same x y = x == y

abbrev before : ℕ → ℕ → Bool
before x y = ltb x y

abbrev far : ℕ → ℕ → Bool
far x y = not (x == y)

-- Signal 7 is a CAN signal.
abbrev is_can : ℕ → Bool
is_can k = k == 7

same-IsEquality : IsEquality same
same-IsEquality = (λ k. (==_iff k k).1 refl, λ k l. (==_iff k l).0)

abbrev python : List (List (ℕ × ℕ))
python = ((1, 0) ∷ (7, 5) ∷ []) ∷ ((1, 1) ∷ (7, 5) ∷ []) ∷ []

abbrev fwhost : List (List (ℕ × ℕ))
fwhost = ((1, 0) ∷ []) ∷ ((7, 5) ∷ (1, 1) ∷ []) ∷ []

first_excused : compare_runs same before is_can far true python fwhost ≡ []
unfolding compare_runs mismatches wrong_keys is_wrong is_excused are_apart all_keys sorted_keys
    insert lookup
first_excused = refl

first_counts : compare_runs same before is_can far false python fwhost ≡ at 0 7 ∷ []
unfolding compare_runs mismatches wrong_keys is_wrong is_excused are_apart all_keys sorted_keys
    insert lookup
first_counts = refl

-- A longer run of the simulator is still "ok" for the fuzzer.
fuzz_passes :
    case_verdict same before is_can far (((1, 0) ∷ []) ∷ ((1, 9) ∷ []) ∷ []) (((1, 0) ∷ []) ∷ [])
    ≡ agree
unfolding verdict_from first_wrong tagged is_wrong is_excused are_apart all_keys sorted_keys insert
    lookup
fuzz_passes = refl

compare_runs_iff_example : (compare_runs same before is_can far true python fwhost ≡ []) ↔ (
    (length python ≡ length fwhost)
    × AllMatch same before is_can far true same-IsEquality 0 python fwhost)
compare_runs_iff_example =
    compare_runs_iff same before is_can far true same-IsEquality python fwhost

case_verdict-compare_runs_example :
    (compare_runs same before is_can far true python fwhost ≡ []) ↔ (
      (length python ≡ length fwhost) × (case_verdict same before is_can far python fwhost ≡ agree))
case_verdict-compare_runs_example = case_verdict-compare_runs same before is_can far python fwhost

py_run-eq_example :
    py_run exact demo drive
    ≡ ((init exact demo >>= run_trace exact demo 1 drive) >>= λ log. ok (map at_start log))
py_run-eq_example = py_run-eq exact demo drive
