-- ===== src/Trace/Same.antt =====
-- Two configs with the same cycles and observations have the same logs.
use dingo_cli.Prelude.{ℕ, suc, ◌%◌, ◌≡◌, refl, inl, inr, Bool, Bool-cases, List, [], ◌∷◌, ◌==◌}
use dingo_cli.Prelude.Results.{>>=_same}
use dingo_cli.Double.{Double}
use dingo_cli.CanInput.{RxFrame}
use dingo_cli.Config.{DeviceConfig}
use dingo_cli.Sim.{Sim, step}
use dingo_cli.Observe.{observe}
use dingo_cli.Trace.{Step, Cycle, no_wires, trace_cycles, pin_level, run_cycles, run_trace}

module _ {W : Type 0} (d : Double W) (c c' : DeviceConfig W) where
  -- The same cycles and observations, from any state.
  pub record RunSame : Type 0 where
    pub steps :
        (pins : ℕ → Bool) (rx : List RxFrame) (ext_ide : ℕ) (s : Sim W)
        → step d c pins rx ext_ide s ≡ step d c' pins rx ext_ide s
    pub observations : (s : Sim W) → observe c s ≡ observe c' s

  run_cycles_same :
      RunSame
      → (every i : ℕ) (ts : List Cycle) (s : Sim W)
      → run_cycles d c every i ts s ≡ run_cycles d c' every i ts s
  unfolding run_cycles
  run_cycles_same same every i [] s = refl
  run_cycles_same same every i (t ∷ ts) s = rw (same.steps (pin_level t.pins) t.frames 0 s) (
      >>=_same (step d c' (pin_level t.pins) t.frames 0 s) λ s'.
        elim (Bool-cases (i % every == 0)) [
          | inl f ↦
              rw (f, same.observations s')
                (>>=_same (observe c' s') λ o. rw (run_cycles_same same every (suc i) ts s') refl)
          | inr f ↦ rw f (run_cycles_same same every (suc i) ts s')
        ])

  pub run_trace_same :
      RunSame
      → (every : ℕ) (steps : List Step) (s : Sim W)
      → run_trace d c every steps s ≡ run_trace d c' every steps s
  unfolding run_trace
  run_trace_same same every steps s =
      >>=_same (trace_cycles steps no_wires) λ ts. run_cycles_same same every 0 ts s
