-- ===== src/Examples/Documents.antt =====
-- The theorems on documents: a counter of which a document gives one field, and the documents of the
-- corpus.
use dingo_cli.Prelude.{◌≡◌, refl, true, none, some, [], ◌∷◌, arith, length, get_elem?}
use dingo_cli.Prelude.Int.{ℤ}
use dingo_cli.Prelude.Results.{Returns, Outcome, ok, ◌>>=◌}
use dingo_cli.Double.Exact.{exact}
use dingo_cli.Board.Names.{Name, codes, same_name}
use dingo_cli.Config.{
  validate_refs, refs, pinned, all_below, any_among, is_among, slot_refs, indices, pinned_names,
}
use dingo_cli.Sim.{init}
use dingo_cli.Sim.Shape.{Converts}
use dingo_cli.Trace.{run_trace}
use dingo_cli.Trace.Length.{total}
use dingo_cli.Trace.Log.{Numbered}
use dingo_cli.Json.{null, bool, text, object, dict, field_value}
use dingo_cli.Load.{Policy, firmware, adversarial, counters}
use dingo_cli.Load.Slots.{Slot, expand_slots, item_fields}
use dingo_cli.Load.Defaults.{defaults_of}
use dingo_cli.Load.Fields.{gives, expand_slots-default}
use dingo_cli.Load.Device.{Loaded, load_device}
use dingo_cli.Load.Typed.{config_of}
use dingo_cli.Board.{layout}
use dingo_cli.Corpus.{padded}
use dingo_cli.Corpus.Document.{device}
use dingo_cli.Corpus.Slots.{slots_config}
use dingo_cli.Corpus.Loads.{Fits, device-loads}
use dingo_cli.Corpus.Runs.{device-run_trace}
use dingo_cli.Corpus.Reference.{reference}
use dingo_cli.Corpus.Adversarial.{a1_right, a1_reference}
use dingo_cli.Corpus.Lowering.{a1_equivalent}
use dingo_cli.Examples.Drive.{drive}

abbrev item : Slot ℤ
item =
    (codes "name", text (codes "gear"))
    ∷ (codes "enabled", bool true)
    ∷ (codes "minCount", null)
    ∷ []

expand_slots-default_example :
    Returns
      (λ slots.
        (length slots ≡ 4)
        × ((slot : Slot ℤ) × (get_elem? slots 0 ≡ some slot)
            × (field_value (codes "minCount") slot
                ≡ field_value (codes "minCount") (defaults_of exact firmware counters))))
      (expand_slots exact firmware 4
        (defaults_of exact firmware counters)
        (object (dict item) ∷ []))
unfolding item_fields gives dict same_name
expand_slots-default_example =
    expand_slots-default exact 4 (defaults_of exact firmware counters) (object (dict item) ∷ []) 0
      (object (dict item)) item (codes "minCount") ((item, refl), tt) (omega arith) refl refl refl

abbrev name : Name
name = codes "engine-repin-reference"

reference-Fits : Fits reference
unfolding reference
reference-Fits = record {
  dig_ins = omega arith;
  outputs = omega arith;
  can_ins = omega arith;
  can_outs = omega arith;
  virts = omega arith;
  conds = omega arith;
  counters = omega arith;
  flashers = omega arith;
}

reference_accepted : validate_refs (slots_config exact reference) ≡ ok tt
unfolding reference slots_config padded validate_refs refs pinned all_below any_among is_among
    slot_refs indices pinned_names layout
reference_accepted = refl

-- The reference, loaded with the defaults of a policy.
loaded :
    (p : Policy)
    → (l : Loaded ℤ) × (load_device exact p (device name reference) none none ≡ ok l)
      × (config_of exact l ≡ some (slots_config exact reference))
loaded p = device-loads exact p name reference reference-Fits

device-run_trace_example :
    (l : Loaded ℤ) × (load_device exact adversarial (device name reference) none none ≡ ok l)
    × (config_of exact l ≡ some (slots_config exact reference))
    × Outcome
        (Converts exact (slots_config exact reference))
        (λ log. (length log ≡ total drive) × Numbered 0 log)
        (init exact (slots_config exact reference)
          >>= run_trace exact (slots_config exact reference) 1 drive)
device-run_trace_example =
    device-run_trace exact adversarial name reference drive reference-Fits reference_accepted
      ((omega arith, tt), (tt, tt))

device-loads_example :
    (l : Loaded ℤ) × (load_device exact adversarial (device name reference) none none ≡ ok l)
    × (config_of exact l ≡ some (slots_config exact reference))
device-loads_example = device-loads exact adversarial name reference reference-Fits

a1_equivalent_example :
    (init exact (slots_config exact a1_right)
      >>= run_trace exact (slots_config exact a1_right) 1 drive)
    ≡ (init exact (slots_config exact a1_reference)
        >>= run_trace exact (slots_config exact a1_reference) 1 drive)
a1_equivalent_example = a1_equivalent exact 1 drive
