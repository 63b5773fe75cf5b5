-- ===== src/Corpus/Runs.antt =====
-- Documents of the corpus are self-contained, and run any trace once their references are accepted.
use dingo_cli.Prelude.{
  ℕ, zero, suc, ◌≤◌, ◌≡◌, refl, sym, ap, ◌∙◌, true, Option, none, some, List, [], ◌∷◌, arith,
  length, map, get_elem?,
}
use dingo_cli.Prelude.Results.{ok, Outcome, ◌>>=◌}
use dingo_cli.Double.{Double}
use dingo_cli.Board.Names.{Name}
use dingo_cli.Board.Known.{dingopdm_v7}
use dingo_cli.Dbc.Total.{EndsInFrame}
use dingo_cli.CanOutput.{CanOutputConfig, is_sent}
use dingo_cli.Config.{validate_refs}
use dingo_cli.Config.Accepted.{Slots}
use dingo_cli.Sim.{init}
use dingo_cli.Sim.Shape.{Converts}
use dingo_cli.Trace.{Step, run_trace}
use dingo_cli.Trace.Length.{AreInFrame, total}
use dingo_cli.Trace.Log.{Numbered}
use dingo_cli.Json.{Json, get}
use dingo_cli.Load.{
  outputs, inputs, can_inputs, can_outputs, virtual_inputs, conditions, counters, flashers, Policy,
  group_key, limit,
}
use dingo_cli.Load.Slots.{Slot, group_array}
use dingo_cli.Load.Device.{Loaded, load_device}
use dingo_cli.Load.Groups.{per_group}
use dingo_cli.Load.Explicit.{AreExplicit, IsExplicit}
use dingo_cli.Load.Ready.{load_device-run_trace}
use dingo_cli.Load.SelfContained.{read_fields, IsSelfContained}
use dingo_cli.Load.Typed.{config_of}
use dingo_cli.Corpus.{
  Given, CanOut, padded, no_dig_in, no_output, no_can_in, no_can_out, no_virt, no_cond, no_counter,
  no_flasher,
}
use dingo_cli.Corpus.Document.{
  dig_in, output, can_in, can_out, virt, cond, counter, flasher, built, group, pdm, device,
}
use dingo_cli.Corpus.Slots.{can_out_slot, slots_config}
use dingo_cli.Corpus.Reads.{
  Reads, dig_in-Reads, output-Reads, can_in-Reads, can_out-Reads, virt-Reads, cond-Reads,
  counter-Reads, flasher-Reads,
}
use dingo_cli.Corpus.Loads.{Fits, listed-elements, length-built, length-padded, device-loads}

module _ {W : Type 0} (d : Double W) where
  built-AreExplicit :
      {A C : Type 0} (ks : List Name) (convert : Slot W → Option C) (build : ℕ → A → Json W)
      (slot : A → C) (n : ℕ) (slots : List A)
      → Reads d ks convert build slot
      → AreExplicit d ks (built build n slots)
  unfolding built
  built-AreExplicit ks convert build slot n [] r = tt
  built-AreExplicit ks convert build slot n (a ∷ slots) r = (
    (r.item n a, r.item_eq n a, r.gives_all n a),
    built-AreExplicit ks convert build slot (suc n) slots r,
  )

  group-IsExplicit :
      {A C : Type 0} (ks : List Name) (convert : Slot W → Option C) (build : ℕ → A → Json W)
      (slot : A → C) (unused : A) (slots : List A) (count : ℕ) (dev : Json W) (key : Name)
      → Reads d ks convert build slot
      → length slots ≤ count
      → get key dev ≡ ok (some (group build count unused slots))
      → IsExplicit d ks dev key count
  unfolding group group_array
  group-IsExplicit ks convert build slot unused slots count dev key r fits e =
      let full = padded count unused slots in
      let bs = built build 1 full in
      let big : length bs ≡ count =
        length-built build 1 full ∙ length-padded count unused slots fits in
      record {
        value = some (group build count unused slots);
        arr = bs;
        value_eq = e;
        arr_eq = ap ok (listed-elements bs);
        full = big;
        explicit = built-AreExplicit ks convert build slot 1 full r;
      }

  -- A device of the corpus is self-contained.
  pub pdm-IsSelfContained :
      (name : Name) (g : Given) → Fits g → IsSelfContained d (pdm name g) dingopdm_v7
  unfolding pdm get group_key limit
  pdm-IsSelfContained name g fits =
      let dev = pdm name g in
      per_group (λ k. IsExplicit d (read_fields k) dev (group_key k) (limit k dingopdm_v7))
        (group-IsExplicit (read_fields outputs) _ output _ no_output g.outputs 8 dev
          (group_key outputs) (output-Reads d) fits.outputs refl)
        (group-IsExplicit (read_fields inputs) _ dig_in _ no_dig_in g.dig_ins 2 dev
          (group_key inputs) (dig_in-Reads d) fits.dig_ins refl)
        (group-IsExplicit (read_fields can_inputs) _ can_in _ no_can_in g.can_ins 32 dev
          (group_key can_inputs) (can_in-Reads d) fits.can_ins refl)
        (group-IsExplicit (read_fields can_outputs) _ can_out _ no_can_out g.can_outs 32 dev
          (group_key can_outputs) (can_out-Reads d) fits.can_outs refl)
        (group-IsExplicit (read_fields virtual_inputs) _ virt _ no_virt g.virts 16 dev
          (group_key virtual_inputs) (virt-Reads d) fits.virts refl)
        (group-IsExplicit (read_fields conditions) _ cond _ no_cond g.conds 32 dev
          (group_key conditions) (cond-Reads d) fits.conds refl)
        (group-IsExplicit (read_fields counters) _ counter _ no_counter g.counters 4 dev
          (group_key counters) (counter-Reads d) fits.counters refl)
        (group-IsExplicit (read_fields flashers) _ flasher _ no_flasher g.flashers 4 dev
          (group_key flashers) (flasher-Reads d) fits.flashers refl)

  -- The CAN outputs of the corpus are little-endian.
  little_endian :
      (slots : List CanOut) (i : ℕ) (s : CanOutputConfig W)
      → get_elem? (map (can_out_slot d) slots) i ≡ some s
      → s.byte_order ≡ 0
  unfolding can_out_slot
  little_endian [] i s e = cc
  little_endian (a ∷ slots) zero s e =
      let z : can_out_slot d a ≡ s = ground arith in
      ap (λ (t : CanOutputConfig W). t.byte_order) (sym z)
  little_endian (a ∷ slots) (suc i) s e = little_endian slots i s e

  pub can_outs-ends :
      (g : Given)
      → Slots
          (λ s. is_sent s ≡ true → EndsInFrame s.start_bit s.bit_length s.byte_order)
          (slots_config d g).can_outputs
  unfolding slots_config
  can_outs-ends g i s k sent big =
      absurd (let z = little_endian (padded 32 no_can_out g.can_outs) i s k in omega arith)

  -- A document that mkadversarial.device builds runs, under every policy of defaults, any trace whose
  -- bits are bits 0 to 63, if the references of its slots are accepted: it is loaded, and the log has a
  -- row for each cycle, numbered from 0 on, or a conversion to an integer failed.
  pub device-run_trace :
      (p : Policy) (name : Name) (g : Given) (steps : List Step)
      → Fits g
      → validate_refs (slots_config d g) ≡ ok tt
      → AreInFrame steps
      → (l : Loaded W) × (load_device d p (device name g) none none ≡ ok l)
        × (config_of d l ≡ some (slots_config d g))
        × Outcome
            (Converts d (slots_config d g))
            (λ log. (length log ≡ total steps) × Numbered 0 log)
            (init d (slots_config d g) >>= run_trace d (slots_config d g) 1 steps)
  device-run_trace p name g steps fits accepted inside =
      let (l, e, f) = device-loads d p name g fits in
      (
        l,
        e,
        f,
        load_device-run_trace d p (device name g) none none l (slots_config d g) e f
            (can_outs-ends g) accepted steps inside,
      )
