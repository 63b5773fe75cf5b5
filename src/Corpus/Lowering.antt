-- ===== src/Corpus/Lowering.antt =====
-- The lowerings of NOT (A AND B) AND C in fwmodel/tools/mkadversarial.py: which of them agree.
use dingo_cli.Prelude.{ℕ, ◌≡◌, refl, ◌↔◌, Bool, true, not, ◌&&◌, List, [], ◌∷◌, arith}
use dingo_cli.Prelude.Results.{◌>>=◌, >>=_same}
use dingo_cli.Double.{Double, truth}
use dingo_cli.Latch.{InputLatch}
use dingo_cli.CanInput.{RxFrame, drain_rx, check_timeout}
use dingo_cli.Output.{profet}
use dingo_cli.DigitalInput.{digin}
use dingo_cli.CanOutput.{can_outputs}
use dingo_cli.Board.{base, virt_in, can_in, dig_in, output}
use dingo_cli.VirtualInput.{VirtualInputConfig, combine, negate, section0, section1, virtin}
use dingo_cli.VirtualInput.Logic.{level}
use dingo_cli.Vars.{run_slots, read}
use dingo_cli.Config.{DeviceConfig}
use dingo_cli.Sim.{Sim, step, init}
use dingo_cli.Observe.{observe}
use dingo_cli.Trace.{Step, run_trace}
use dingo_cli.Trace.Same.{RunSame, run_trace_same}
use dingo_cli.Corpus.Slots.{slots_config, virt_slot}
use dingo_cli.Corpus.Adversarial.{
  a1_right, a1_reference, not_ab, not_a_or_not_b, nand_of_all, then_c,
}

module _ {W : Type 0} (d : Double W) where
  -- Another first virtual input, which does the same.
  run_slots-head :
      (b : ℕ) (v v' : VirtualInputConfig) (vs : List VirtualInputConfig) (ls : List InputLatch)
      (vars : List W)
      → ((l : InputLatch) → virtin d b 0 v l vars ≡ virtin d b 0 v' l vars)
      → run_slots (virtin d b) 0 (v ∷ vs) ls vars ≡ run_slots (virtin d b) 0 (v' ∷ vs) ls vars
  unfolding run_slots
  run_slots-head b v v' vs [] vars h = refl
  run_slots-head b v v' vs (l ∷ ls) vars h = rw (h l) refl

  -- A cycle with other virtual inputs, which do the same.
  step-virtual_inputs :
      (c : DeviceConfig W) (vs : List VirtualInputConfig)
      → ((ls : List InputLatch) (vars : List W)
          → run_slots (virtin d (base c.board virt_in)) 0 c.virtual_inputs ls vars
            ≡ run_slots (virtin d (base c.board virt_in)) 0 vs ls vars)
      → (pins : ℕ → Bool) (rx : List RxFrame) (ext_ide : ℕ) (s : Sim W)
      → step d c pins rx ext_ide s ≡ step d (record c { virtual_inputs = vs }) pins rx ext_ide s
  unfolding step
  step-virtual_inputs c vs h pins rx ext_ide s =
      let b = c.board in
      let now = s.time_ms in
      >>=_same (drain_rx d (base b can_in) now ext_ide c.can_inputs rx s.can_inputs s.vars) λ r1.
        >>=_same (run_slots (profet d (base b output)) 0 c.outputs s.outputs r1.1) λ r2.
          >>=_same (run_slots (digin d (base b dig_in) now pins) 0 c.inputs s.inputs r2.1) λ r3.
            >>=_same (run_slots (check_timeout d (base b can_in) now) 0 c.can_inputs r1.0 r3.1)
              λ r4.
                >>=_same (can_outputs d now c.can_outputs s.assigned r4.1 s.samples s.frames)
                  λ r5. rw (h s.latches r4.1) refl

  -- Two virtual inputs on the same two variables, whose first sections agree.
  virtin-section0 :
      (b i : ℕ) (v v' : VirtualInputConfig) (l : InputLatch) (vars : List W)
      → v.enabled ≡ true
      → v'.enabled ≡ true
      → v.var0 ≡ v'.var0
      → v.var1 ≡ v'.var1
      → v.var2 ≡ 0
      → v'.var2 ≡ 0
      → v.mode ≡ v'.mode
      → ((x y : Bool) → section0 v x y ≡ section0 v' x y)
      → virtin d b i v l vars ≡ virtin d b i v' l vars
  unfolding virtin
  virtin-section0 b i v v' l vars on on' e0 e1 z z' m h =
      rw (on, on', e0, e1, z, z', m)
        (>>=_same (read vars v'.var0)
          λ x. >>=_same (read vars v'.var1) λ y. rw (h (truth d x) (truth d y)) refl)

  a1_section0 :
      (x y : Bool) → section0 (virt_slot d not_ab) x y ≡ section0 (virt_slot d not_a_or_not_b) x y
  unfolding section0 combine negate virt_slot
  a1_section0 x y = ground arith

  a1_same : RunSame d (slots_config d a1_right) (slots_config d a1_reference)
  a1_same = record {
    steps =
        unfold slots_config a1_right a1_reference virt_slot in
        step-virtual_inputs (slots_config d a1_right) (slots_config d a1_reference).virtual_inputs
          (λ ls vars.
            run_slots-head _ (virt_slot d not_ab) (virt_slot d not_a_or_not_b) _ ls vars (λ l.
              virtin-section0 _ 0 (virt_slot d not_ab) (virt_slot d not_a_or_not_b) l vars refl refl
                refl refl refl refl refl a1_section0));
    observations = unfold observe slots_config a1_right a1_reference in λ s. refl;
  }

  a1_init : init d (slots_config d a1_right) ≡ init d (slots_config d a1_reference)
  unfolding init slots_config a1_right a1_reference
  a1_init = refl

  -- What equiv.py tests on one trace: the encoding of NOT (A AND B) AND C with NAND and the one with
  -- inversions and OR have the same log, on every trace and however often the run is observed.
  pub a1_equivalent :
      (every : ℕ) (steps : List Step)
      → (init d (slots_config d a1_right) >>= run_trace d (slots_config d a1_right) every steps) ≡ (
          init d (slots_config d a1_reference)
          >>= run_trace d (slots_config d a1_reference) every steps)
  a1_equivalent every steps = rw a1_init (
      >>=_same (init d (slots_config d a1_reference)) λ s.
        run_trace_same d (slots_config d a1_right) (slots_config d a1_reference) a1_same every steps
          s)

  -- The encoding in one slot, with NAND on the second level, has the level of NOT (A AND B) AND C just
  -- where C is on; the encoding in two slots has it everywhere.
  a1_wrong_iff :
      (a b v : Bool)
      → ((level (virt_slot d nand_of_all) a b v ≡ (not (a && b) && v)) ↔ (v ≡ true))
        × (level (virt_slot d then_c) (level (virt_slot d not_ab) a b v) v v ≡ (not (a && b) && v))
  unfolding virt_slot section0 section1 combine negate
  a1_wrong_iff a b v = ground arith
