-- ===== src/Trace/Log.antt =====
-- The log of a run: what `run` returns for a device that has just been set up.
use dingo_cli.Prelude.{ℕ, suc, ◌%◌, ◌≡◌, refl, ap, ◌∙◌, true, List, [], ◌∷◌, arith, length, ◌==◌}
use dingo_cli.Prelude.Results.{
  ok, Outcome, returns_as, Outcome-bind, Outcome-weaken, Outcome-Returns, ◌>>=◌,
}
use dingo_cli.Double.{Double}
use dingo_cli.Dbc.Total.{EndsInFrame}
use dingo_cli.CanOutput.{is_sent}
use dingo_cli.Board.Known.{Registered}
use dingo_cli.Config.{DeviceConfig, validate_refs}
use dingo_cli.Config.Accepted.{Slots, validate_refs-ReadsInRange}
use dingo_cli.Sim.{Sim, init, start}
use dingo_cli.Sim.Safety.{step-IsShaped}
use dingo_cli.Sim.Shape.{IsFull, IsSound, IsShaped, Converts}
use dingo_cli.Sim.Start.{init-eq, first_vars, length-first_vars, start-IsShaped}
use dingo_cli.Observe.{Signal}
use dingo_cli.Observe.Outputs.{observe-Returns}
use dingo_cli.Equiv.{Row}
use dingo_cli.Trace.{Step, Cycle, no_wires, pin_level, run_cycles, run_trace}
use dingo_cli.Trace.Length.{AreInFrame, total, trace_cycles-Returns}

module _ {W : Type 0} where
  -- The rows have the cycle numbers from `i` on.
  abbrev pub Numbered : (i : ℕ) → List (Row Signal W) → Type 0
  Numbered i [] = Unit {0}
  Numbered i (r ∷ rs) = (r.cycle ≡ i) × Numbered (suc i) rs

module _ {W : Type 0} (d : Double W) (c : DeviceConfig W) where
  run_cycles-Outcome :
      (sound : IsSound c)
      → Registered c.board
      → (ts : List Cycle) (i : ℕ) (s : Sim W) → IsShaped c s
      → Outcome
          (Converts d c)
          (λ log. (length log ≡ length ts) × Numbered i log)
          (run_cycles d c 1 i ts s)
  unfolding run_cycles
  run_cycles-Outcome sound r [] i s h = returns_as [] (refl, tt)
  run_cycles-Outcome sound r (t ∷ ts) i s h =
      Outcome-bind (step-IsShaped d c sound (pin_level t.pins) t.frames 0 s h) λ s' h'.
        let each : (i % 1 == 0) ≡ true = ground arith in
        rw each (
          Outcome-bind (Outcome-Returns (observe-Returns c s' r sound.full h')) λ o u.
            Outcome-bind (run_cycles-Outcome sound r ts (suc i) s' h')
              λ log held. returns_as _ (ap suc held.0, (refl, held.1)))

  -- On a registered board, a full config that passes the validation, and whose sent big-endian fields
  -- end inside their frames, is set up and run on a trace whose bits are bits 0 to 63, with each cycle
  -- observed. The log has a row for each cycle of each step, numbered from 0 on, or a conversion to an
  -- integer failed, and then the config has such a conversion.
  pub init-run_trace :
      Registered c.board
      → IsFull c
      → Slots
          (λ s. is_sent s ≡ true → EndsInFrame s.start_bit s.bit_length s.byte_order)
          c.can_outputs
      → validate_refs c ≡ ok tt
      → (steps : List Step) → AreInFrame steps
      → Outcome
          (Converts d c)
          (λ log. (length log ≡ total steps) × Numbered 0 log)
          (init d c >>= run_trace d c 1 steps)
  unfolding run_trace
  init-run_trace r full ends accepted steps inside =
      let sound : IsSound c = record {
        full = full;
        reads = validate_refs-ReadsInRange c accepted;
        ends = ends;
      } in
      rw (init-eq d c r, accepted)
        (Outcome-bind (Outcome-Returns (trace_cycles-Returns steps no_wires tt inside)) λ ts held.
          Outcome-weaken (λ log done. (done.0 ∙ held.0, done.1))
            (run_cycles-Outcome sound r ts 0 (start d c (first_vars d c.board))
              (start-IsShaped d c _ full (length-first_vars d c.board))))
