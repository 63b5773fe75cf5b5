-- ===== src/Equiv/Main.antt =====
-- The loop of `main` of fwmodel/model/equiv.py: two documents, each under its policy of defaults, on
-- some traces. What it prints is left out.
use dingo_cli.Prelude.{ℕ, Bool, Option, none, some, List, [], ◌∷◌}
use dingo_cli.Prelude.Results.{Result, ok, raise, unsupported, ◌>>=◌}
use dingo_cli.Double.{Double}
use dingo_cli.Config.{DeviceConfig}
use dingo_cli.Sim.{Sim, init}
use dingo_cli.Observe.{Signal}
use dingo_cli.Trace.{Step, run_trace}
use dingo_cli.Load.Device.{Loaded}
use dingo_cli.Load.Typed.{config_of}
use dingo_cli.Equiv.{Diff, compare_logs}

-- PASS, REFUSED or FAIL
pub data Report (W : Type 0) : Type 0 where
  passed refused : Report W
  failed : Diff Signal W → List (Diff Signal W) → Report W

module _ {W : Type 0} (d : Double W) where
  -- Sim(cfg)
  unfoldable pub with_config : Option (DeviceConfig W) → Option (Result (DeviceConfig W × Sim W))
  with_config none = none
  with_config (some c) = some (do s ← init d c; ok (c, s))

  -- _load; `none`: the config is not modelled.
  unfoldable pub load_sim : Result (Loaded W) → Option (Result (DeviceConfig W × Sim W))
  unfolding with_config
  load_sim (ok l) = with_config (config_of d l)
  load_sim (raise e) = some (raise e)

  -- if not diffs
  unfoldable pub report_of : List (Diff Signal W) → Report W
  report_of [] = passed
  report_of (x ∷ xs) = failed x xs

  module _ (same before : Signal → Signal → Bool) (equal : W → W → Bool) (tolerance : ℕ)
      (steps : List Step) where
    -- la, lb and diffs
    unfoldable pub run_both : (a b : DeviceConfig W × Sim W) → Result (Report W)
    unfolding report_of
    run_both (ca, sa) (cb, sb) = do
      la ← run_trace d ca 1 steps sa
      lb ← run_trace d cb 1 steps sb
      diffs ← compare_logs same before equal la lb tolerance 20
      ok (report_of diffs)

    -- One trace: the config that cannot be modelled is refused.
    unfoldable pub equiv_trace : (a b : Result (DeviceConfig W × Sim W)) → Result (Report W)
    unfolding run_both
    equiv_trace (ok a) (ok b) = run_both a b
    equiv_trace (ok a) (raise unsupported) = ok refused
    equiv_trace (ok a) (raise e) = raise e
    equiv_trace (raise unsupported) b = ok refused
    equiv_trace (raise e) b = raise e
