-- ===== src/Sim/Safety.antt =====
-- A cycle of a sound device returns, and keeps the shape of the state.
use dingo_cli.Prelude.{ℕ, ◌∙◌, sym, Bool, List, [], ◌∷◌}
use dingo_cli.Prelude.Results.{Result, ok, Outcome, returns_as, Outcome-bind, ◌>>=◌}
use dingo_cli.Double.{Double}
use dingo_cli.CanInput.{RxFrame}
use dingo_cli.CanOutput.Sampling.{can_outputs-Outcome}
use dingo_cli.Board.{size}
use dingo_cli.Config.{DeviceConfig}
use dingo_cli.Sim.{Sim, step}
use dingo_cli.Sim.Shape.{IsSound, IsShaped, Converts, IsSound-Packs}
use dingo_cli.Sim.Categories.{
  outputs-Ran, inputs-Ran, timeouts-Ran, drain_rx-Ran, virtual_inputs-Ran, flashers-Ran,
  counters-Ran, conditions-Ran,
}

-- What a cycle is given: the pins, the received frames, and the kind of their identifiers.
pub record Stimulus : Type 0 where
  pub pins : ℕ → Bool
  pub rx : List RxFrame
  pub ext_ide : ℕ

module _ {W : Type 0} (d : Double W) (c : DeviceConfig W) where
  -- Cycle after cycle.
  unfoldable pub run : List Stimulus → Sim W → Result (Sim W)
  unfolding step
  run [] s = ok s
  run (t ∷ ts) s = do s' ← step d c t.pins t.rx t.ext_ide s; run ts s'

module _ {W : Type 0} (d : Double W) (c : DeviceConfig W) (sound : IsSound c) where
  -- A cycle of a sound config, from a state of the right shape, ends in a state of that shape, or a
  -- conversion to an integer fails, and then the config has such a conversion.
  pub step-IsShaped :
      (pins : ℕ → Bool) (rx : List RxFrame) (ext_ide : ℕ) (s : Sim W)
      → IsShaped c s
      → Outcome (Converts d c) (IsShaped c) (step d c pins rx ext_ide s)
  unfolding step
  step-IsShaped pins rx ext_ide s h =
      let now = s.time_ms in
      let full = sound.full in
      Outcome-bind (drain_rx-Ran d c sound now ext_ide rx s.can_inputs s.vars h.can_inputs h.vars)
        λ r1 f1.
          let v1 = f1.1.same_length ∙ h.vars in
          Outcome-bind (outputs-Ran d c sound s.outputs r1.1 h.outputs v1) λ r2 f2.
            let v2 = f2.1.same_length ∙ v1 in
            Outcome-bind (inputs-Ran d c sound now pins s.inputs r2.1 h.inputs v2) λ r3 f3.
              let v3 = f3.1.same_length ∙ v2 in
              Outcome-bind (timeouts-Ran d c sound now r1.0 r3.1 (f1.0 ∙ h.can_inputs) v3) λ r4 f4.
                let v4 = f4.1.same_length ∙ v3 in
                Outcome-bind
                  (can_outputs-Outcome d (Converts d c) (size c.board) now c.can_outputs s.assigned
                    r4.1 s.samples s.frames (IsSound-Packs d c sound) v4
                    (h.assigned ∙ sym full.can_outputs) h.paired h.frames
                    (h.samples ∙ sym full.can_outputs))
                  λ o g.
                    Outcome-bind (virtual_inputs-Ran d c sound s.latches r4.1 h.latches v4) λ r5 f5.
                      let v5 = f5.1.same_length ∙ v4 in
                      Outcome-bind (flashers-Ran d c sound now s.flashers r5.1 h.flashers v5)
                        λ r6 f6.
                          let v6 = f6.1.same_length ∙ v5 in
                          Outcome-bind (counters-Ran d c sound now s.counters r6.1 h.counters v6)
                            λ r7 f7.
                              let v7 = f7.1.same_length ∙ v6 in
                              Outcome-bind (conditions-Ran d c sound r7.1 v7) λ r8 f8.
                                returns_as _ (record {
                                  vars = f8.1.same_length ∙ v7;
                                  inputs = f3.0 ∙ h.inputs;
                                  can_inputs = f4.0 ∙ f1.0 ∙ h.can_inputs;
                                  latches = f5.0 ∙ h.latches;
                                  outputs = f2.0 ∙ h.outputs;
                                  flashers = f6.0 ∙ h.flashers;
                                  counters = f7.0 ∙ h.counters;
                                  samples = g.0 ∙ full.can_outputs;
                                  assigned = h.assigned;
                                  paired = h.paired;
                                  frames = g.2;
                                })

  -- The same of any number of cycles.
  pub run-IsShaped :
      (ts : List Stimulus) (s : Sim W)
      → IsShaped c s
      → Outcome (Converts d c) (IsShaped c) (run d c ts s)
  unfolding run
  run-IsShaped [] s h = returns_as s h
  run-IsShaped (t ∷ ts) s h =
      Outcome-bind (step-IsShaped t.pins t.rx t.ext_ide s h) λ s' h'. run-IsShaped ts s' h'
