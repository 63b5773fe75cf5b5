-- ===== src/Fuzz/Runs.antt =====
-- Every random case of fwhost/fuzz.py runs: none is skipped.
use dingo_cli.Prelude.{◌≡◌, Bool, Option, List, length}
use dingo_cli.Double.{Double}
use dingo_cli.Config.{DeviceConfig}
use dingo_cli.Sim.{Sim}
use dingo_cli.Observe.{Signal}
use dingo_cli.Equiv.{Row}
use dingo_cli.Json.{Json}
use dingo_cli.Trace.{Step}
use dingo_cli.Trace.Length.{total}
use dingo_cli.Fuzz.Random.{Source}
use dingo_cli.Fuzz.Case.{Tag, Observations, judged}

module _ {W : Type 0} (d : Double W) (c : DeviceConfig W) where
  abbrev signals_of : Row Signal W → List (Signal × W)
  signals_of r = r.signals

module _ {W R : Type 0} (d : Double W) (src : Source R) (same before : Signal → Signal → Bool)
    (is_can : Signal → Bool) (far : W → W → Bool)
    (fwhost : Json W → List Step → Option (Observations W)) where
  -- A result of run_case: the verdict on as many observations of the simulator as the trace has cycles
  -- and on those of the firmware, or the error of the firmware.
  abbrev pub IsJudged : Json W → List Step → Tag → Type 0
  IsJudged doc steps tag =
      (py : Observations W) × (length py ≡ total steps)
      × (tag ≡ judged d same before is_can far fwhost py (fwhost doc steps))
