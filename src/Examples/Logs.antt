-- ===== src/Examples/Logs.antt =====
-- The theorems on the comparison of logs: one signal that comes a cycle later in the second log.
use dingo_cli.Prelude.{ℕ, ◌≡◌, refl, Bool, true, List, [], ◌∷◌, some, ltb, ◌==◌}
use dingo_cli.Prelude.Int.{pos}
use dingo_cli.Prelude.Results.{ok}
use dingo_cli.Equiv.{
  Row, lag, lookup, compare_signal, compare_logs, compare_signals, compare_columns, sorted_keys,
  insert, is_key, column, align, verdict, bad_cycles, best_shift, differ, shifted, negatives,
  positives, report, difference,
}
use dingo_cli.Equiv.Passes.{compare_signal-equal, compare_logs_tolerance}

abbrev same : ℕ → ℕ → Bool
same x y = x == y

abbrev before : ℕ → ℕ → Bool
before x y = ltb x y

abbrev row : (cycle value : ℕ) → Row ℕ ℕ
row cycle value = record { signals = (1, value) ∷ (2, 7) ∷ []; cycle = cycle; ms = cycle }

abbrev log : List (Row ℕ ℕ)
log = row 0 0 ∷ row 1 1 ∷ row 2 1 ∷ []

abbrev late : List (Row ℕ ℕ)
late = row 0 0 ∷ row 1 0 ∷ row 2 1 ∷ []

-- A tolerance of one cycle turns the mismatch into a lag, which is reported.
late_lags : compare_logs same before same log late 1 20 ≡ ok (lag 1 (pos 1) ∷ [])
unfolding compare_logs compare_signals compare_signal compare_columns sorted_keys insert is_key
    column align verdict bad_cycles best_shift differ shifted negatives positives lookup report
    difference
late_lags = refl

log_passes : compare_logs same before same log log 1 20 ≡ ok []
unfolding compare_logs compare_signals compare_signal compare_columns sorted_keys insert is_key
    column align verdict bad_cycles best_shift differ shifted negatives positives lookup
log_passes = refl

signal_passes :
    compare_signal same before same 1 20 (row 0 0).signals (row 0 0).signals log log 1 ≡ ok []
unfolding compare_signal compare_columns is_key column align verdict bad_cycles best_shift differ
    shifted negatives positives lookup
signal_passes = refl

compare_logs_tolerance_example : compare_logs same before same log log 0 5 ≡ ok []
compare_logs_tolerance_example = compare_logs_tolerance same before same log log 1 0 20 5 log_passes

compare_signal-equal_example :
    (x : ℕ) × (y : ℕ) × (lookup same 1 (row 1 1).signals ≡ some x)
    × (lookup same 1 (row 1 1).signals ≡ some y)
    × (same x y ≡ true)
compare_signal-equal_example =
    compare_signal-equal same before same (row 0 0).signals (row 0 0).signals log log 1 20 1
      signal_passes 1 (row 1 1) (row 1 1) refl refl
