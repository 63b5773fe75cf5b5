-- ===== src/Fuzz/Case.antt =====
-- run_case of fwhost/fuzz.py: a random config and a random trace, on the simulator and on the firmware
-- that is built for the host, which is a parameter.
use dingo_cli.Prelude.{Bool, Option, none, some, List, [], ◌∷◌}
use dingo_cli.Prelude.Results.{Result, ok, raise, unsupported, ◌>>=◌}
use dingo_cli.Double.{Double}
use dingo_cli.Board.Names.{Name}
use dingo_cli.Config.{DeviceConfig}
use dingo_cli.Sim.{Sim, init, step}
use dingo_cli.Observe.{Signal, observe}
use dingo_cli.Trace.{Cycle, Step, no_wires, trace_cycles, pin_level}
use dingo_cli.Json.{Json}
use dingo_cli.Load.{firmware}
use dingo_cli.Load.Device.{Loaded, load_device}
use dingo_cli.Load.Typed.{config_of}
use dingo_cli.Fuzz.{Verdict, case_verdict}
use dingo_cli.Fuzz.Random.{Source}
use dingo_cli.Fuzz.Steps.{gen_trace}
use dingo_cli.Fuzz.Document.{gen_config}

-- What run_case returns, less the messages and the paths.
pub data Tag : Type 0 where
  skip error : Tag
  compared : Verdict Signal → Tag

abbrev pub Observations : Type 0 → Type 0
Observations W = List (List (Signal × W))

module _ {W : Type 0} (d : Double W) where
  -- The loop over the cycles.
  unfoldable pub observations : DeviceConfig W → List Cycle → Sim W → Result (Observations W)
  observations c [] s = ok []
  observations c (t ∷ ts) s = do
    s' ← step d c (pin_level t.pins) t.frames 0 s
    o ← observe c s'
    more ← observations c ts s'
    ok (o ∷ more)

module _ {W : Type 0} (d : Double W) (same before : Signal → Signal → Bool) (is_can : Signal → Bool)
    (far : W → W → Bool) (fwhost : Json W → List Step → Option (Observations W)) where
  -- What is returned of the observations of the simulator; `none` is an error of the firmware.
  unfoldable pub judged : (py : Observations W) → Option (Observations W) → Tag
  judged py none = error
  judged py (some cpp) = compared (case_verdict same before is_can far py cpp)

  -- The run of a device that is set up.
  unfoldable pub simulated : Json W → List Step → DeviceConfig W → Sim W → Result Tag
  simulated doc steps c s = do
    ts ← trace_cycles steps no_wires
    py ← observations d c ts s
    ok (judged py (fwhost doc steps))

  -- Sim, which may raise Unsupported.
  unfoldable pub set_up : Json W → List Step → DeviceConfig W → Result (Sim W) → Result Tag
  unfolding simulated
  set_up doc steps c (ok s) = simulated doc steps c s
  set_up doc steps c (raise unsupported) = ok skip
  set_up doc steps c (raise e) = raise e

  -- load_device, which may raise Unsupported too. `none`: the config is not modelled.
  unfoldable pub configured : Json W → List Step → Option (DeviceConfig W) → Option (Result Tag)
  configured doc steps none = none
  configured doc steps (some c) = some (set_up doc steps c (init d c))

  unfoldable pub loaded : Json W → List Step → Result (Loaded W) → Option (Result Tag)
  unfolding configured
  loaded doc steps (ok l) = configured doc steps (config_of d l)
  loaded doc steps (raise unsupported) = some (ok skip)
  loaded doc steps (raise e) = some (raise e)

  unfoldable pub run_case : {R : Type 0} → Source R → Name → R → Option (Result Tag)
  unfolding loaded
  run_case src name r =
      let (doc, r1) = gen_config d src name r in
      let (steps, r2) = gen_trace src 60 r1 in
      loaded doc steps (load_device d firmware doc none none)
