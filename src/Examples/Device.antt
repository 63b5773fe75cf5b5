-- ===== src/Examples/Device.antt =====
-- The theorems on the boards, the configs and the whole device.
use dingo_cli.Prelude.{
  ℕ, zero, suc, ◌+◌, ◌*◌, ◌<◌, ◌≡◌, inl, inr, refl, sym, ap, ◌∙◌, true, false, List, [], ◌∷◌, some,
  arith, replicate, length, get_elem?, ◌↔◌,
}
use dingo_cli.Prelude.Int.{ℤ, pos}
use dingo_cli.Prelude.Results.{ok, Outcome, Returns, ◌>>=◌}
use dingo_cli.Double.{of_ℕ, of_bool, truth}
use dingo_cli.Double.Exact.{exact}
use dingo_cli.Board.{base, size, label, index, output, layout}
use dingo_cli.Board.Names.{Name}
use dingo_cli.Board.Known.{dingopdmmax_v1, max_v1, index-label}
use dingo_cli.Dbc.Total.{EndsInFrame}
use dingo_cli.CanOutput.{CanOutputConfig, TxFrame, is_sent, init_can_frames, sample}
use dingo_cli.CanOutput.Frames.{Carries, init_can_frames-Carries}
use dingo_cli.CanOutput.Sampling.{Sampled, sample-Returns}
use dingo_cli.Config.{
  validate_refs, refs, pinned, all_below, any_among, is_among, slot_refs, indices, pinned_names,
}
use dingo_cli.Config.Accepted.{validate_refs-ReadsInRange}
use dingo_cli.Config.Reads.{Reads, is_measured, validate_refs_iff}
use dingo_cli.Config.Accepted.{Slots}
use dingo_cli.Sim.{Sim, init, step, start}
use dingo_cli.Sim.Shape.{IsFull, IsSound, IsShaped, Converts}
use dingo_cli.Sim.Safety.{Stimulus, run, step-IsShaped}
use dingo_cli.Sim.Start.{init-run, first_vars, start-IsShaped, length-first_vars}
use dingo_cli.Sim.Delay.{step-delay}
use dingo_cli.Observe.{out, signal_value, observe}
use dingo_cli.Observe.Outputs.{observe-out}
use dingo_cli.Examples.Samples.{demo, can_output, fast_output, no_can_output, output_slot}

pub replicate-same : {A : Type 0} (n i : ℕ) (a b : A) → get_elem? (replicate n a) i ≡ some b → a ≡ b
replicate-same zero i a b h = cc
replicate-same (suc n) zero a b h = ground arith
replicate-same (suc n) (suc i) a b h = replicate-same n i a b h

-- The CAN outputs of the sample are little-endian.
little-ends :
    (s t : CanOutputConfig ℤ)
    → s ≡ t
    → s.byte_order ≡ 0
    → EndsInFrame t.start_bit t.bit_length t.byte_order
little-ends s t e h big =
    absurd
      (let z : 0 ≡ 1 = sym h ∙ ap (λ (c : CanOutputConfig ℤ). c.byte_order) e ∙ big in omega arith)

pub demo-ends :
    Slots
      (λ s. is_sent s ≡ true → EndsInFrame s.start_bit s.bit_length s.byte_order)
      demo.can_outputs
demo-ends zero s k sent = little-ends can_output s (ground arith) refl
demo-ends (suc zero) s k sent = little-ends fast_output s (ground arith) refl
demo-ends (suc (suc i)) s k sent =
    little-ends no_can_output s (replicate-same 30 i no_can_output s k) refl

pub full : IsFull demo
full = record {
  outputs = refl;
  inputs = refl;
  can_inputs = refl;
  can_outputs = refl;
  virtual_inputs = refl;
  conditions = refl;
  counters = refl;
  flashers = refl;
}

pub accepted : validate_refs demo ≡ ok tt
unfolding validate_refs refs pinned all_below any_among is_among slot_refs indices pinned_names
    layout
accepted = refl

sound : IsSound demo
sound = record { full = full; reads = validate_refs-ReadsInRange demo accepted; ends = demo-ends }

-- Both digital inputs high, and no frame; then a frame.
abbrev cycles : List Stimulus
cycles =
    record { pins = λ i. true; rx = []; ext_ide = 0 }
    ∷ record { pins = λ i. false; rx = (0x100, replicate 8 0) ∷ []; ext_ide = 0 }
    ∷ []

abbrev switched_on : Sim ℤ
switched_on = start exact demo (first_vars exact dingopdmmax_v1)

shaped : IsShaped demo switched_on
shaped =
    start-IsShaped exact demo (first_vars exact dingopdmmax_v1) full
      (length-first_vars exact dingopdmmax_v1)

init-run_example :
    Outcome (Converts exact demo) (IsShaped demo) (init exact demo >>= run exact demo cycles)
init-run_example = init-run exact demo max_v1 full demo-ends accepted cycles

step-IsShaped_example :
    Outcome (Converts exact demo) (IsShaped demo) (step exact demo (λ i. true) [] 0 switched_on)
step-IsShaped_example = step-IsShaped exact demo sound (λ i. true) [] 0 switched_on shaped

step-delay_example :
    Outcome
      (Converts exact demo)
      (λ s'.
        get_elem? s'.vars (base dingopdmmax_v1 output + 4 * 0)
        ≡ some (of_bool exact (truth exact (of_ℕ exact 0))))
      (step exact demo (λ i. true) [] 0 switched_on)
unfolding start layout
step-delay_example =
    step-delay exact demo sound (λ i. true) [] 0 switched_on shaped 0 output_slot (of_ℕ exact 0)
      refl refl (inr (omega arith)) (inl (omega arith)) refl

validate_refs_iff_example :
    (validate_refs demo ≡ ok tt)
    ↔ ((r : ℕ) → Reads demo r → (r < size dingopdmmax_v1) × (is_measured dingopdmmax_v1 r ≡ false))
validate_refs_iff_example = validate_refs_iff demo max_v1

index-label_example :
    (name : Name) × (label dingopdmmax_v1 71 ≡ some name) × (index dingopdmmax_v1 name ≡ some 71)
unfolding layout
index-label_example = index-label dingopdmmax_v1 71 max_v1 (omega arith)

init_can_frames-Carries_example :
    (j : ℕ) × (get_elem? (init_can_frames demo.can_outputs []).0 1 ≡ some (some j))
    × (fr : TxFrame) × (get_elem? (init_can_frames demo.can_outputs []).1 j ≡ some fr)
    × Carries fast_output fr
unfolding is_sent
init_can_frames-Carries_example =
    init_can_frames-Carries demo.can_outputs [] 1 fast_output refl refl

sample-Returns_example :
    Returns
      (λ ys. (length ys ≡ 1) × Sampled (can_output ∷ []) (replicate 80 (pos 1)) (pos 0 ∷ []) ys)
      (sample exact (can_output ∷ []) (replicate 80 (pos 1)) (pos 0 ∷ []))
sample-Returns_example =
    sample-Returns exact (can_output ∷ []) (replicate 80 (pos 1)) (pos 0 ∷ []) reads refl
  where
    reads :
        (i : ℕ) (c : CanOutputConfig ℤ)
        → get_elem? (can_output ∷ []) i ≡ some c
        → c.enabled ≡ true
        → c.input < 80
    reads zero c k on = (let same : can_output ≡ c = ground arith in rw (sym same) (omega arith))
    reads (suc i) c k on = cc

observe-out_example :
    Returns
      (λ o.
        signal_value (out 1) o ≡ get_elem? switched_on.vars (base dingopdmmax_v1 output + 4 * 0))
      (observe demo switched_on)
observe-out_example = observe-out demo switched_on 0 max_v1 full shaped (omega arith)
