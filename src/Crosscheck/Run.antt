-- ===== src/Crosscheck/Run.antt =====
-- The run of the simulator in crosscheck.py against `run` of fwmodel/model/trace.py.
use dingo_cli.Prelude.{ℕ, suc, ◌-◌, ◌%◌, ◌≡◌, refl, true, List, [], ◌∷◌, map, arith, ◌==◌}
use dingo_cli.Prelude.Results.{Result, ok, raise, ◌>>=◌}
use dingo_cli.Double.{Double}
use dingo_cli.Enums.{cycle_ms}
use dingo_cli.Config.{DeviceConfig}
use dingo_cli.Sim.{Sim, step, init}
use dingo_cli.Observe.{Signal, observe}
use dingo_cli.Equiv.{Row}
use dingo_cli.Trace.{Step, Cycle, no_wires, trace_cycles, pin_level, run_cycles, run_trace}
use dingo_cli.Crosscheck.{py_cycles, py_run}

module _ {W : Type 0} where
  -- The row with the time at which its cycle began, not ended.
  abbrev pub at_start : Row Signal W → Row Signal W
  at_start r = record r { ms = r.ms - cycle_ms }

module _ {B C : Type 0} (h : B → C) where
  pub >>=-map :
      {A : Type 0} (r : Result A) {f : A → Result (List C)} (g : A → Result (List B))
      → ((a : A) → f a ≡ (g a >>= λ log. ok (map h log)))
      → (r >>= f) ≡ ((r >>= g) >>= λ log. ok (map h log))
  >>=-map (ok a) g e = e a
  >>=-map (raise e) g k = refl

  pub cons-map :
      (b : B) (m : Result (List C)) (m' : Result (List B))
      → m ≡ (m' >>= λ log. ok (map h log))
      → (m >>= λ log. ok (h b ∷ log)) ≡ ((m' >>= λ log. ok (b ∷ log)) >>= λ log. ok (map h log))
  cons-map b m (ok log) e = rw e refl
  cons-map b m (raise f) e = rw e refl

module _ {W : Type 0} (d : Double W) (c : DeviceConfig W) where
  py_cycles-eq :
      (i : ℕ) (ts : List Cycle) (s : Sim W)
      → py_cycles d c i ts s ≡ (run_cycles d c 1 i ts s >>= λ log. ok (map at_start log))
  unfolding py_cycles run_cycles
  py_cycles-eq i [] s = refl
  py_cycles-eq i (t ∷ ts) s =
      let each : (i % 1 == 0) ≡ true = ground arith in
      rw each (
        >>=-map at_start (step d c (pin_level t.pins) t.frames 0 s) _ λ s'.
          >>=-map at_start (observe c s') _ λ o.
            cons-map at_start (record { signals = o; cycle = i; ms = s'.time_ms })
              (py_cycles d c (suc i) ts s') (run_cycles d c 1 (suc i) ts s')
              (py_cycles-eq (suc i) ts s'))

  -- The cross check runs the simulator as the equivalence check does: its rows are those of `run` that
  -- observes each cycle, except that a row has the time at which its cycle began.
  pub py_run-eq :
      (steps : List Step)
      → py_run d c steps ≡ ((init d c >>= run_trace d c 1 steps) >>= λ log. ok (map at_start log))
  unfolding py_run run_trace
  py_run-eq steps = >>=-map at_start (init d c) _ λ s.
      >>=-map at_start (trace_cycles steps no_wires) (λ ts. run_cycles d c 1 0 ts s)
        λ ts. py_cycles-eq 0 ts s
