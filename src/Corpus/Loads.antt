-- ===== src/Corpus/Loads.antt =====
-- What a document of the corpus loads to: the slots that it gives, whatever the defaults are.
use dingo_cli.Prelude.{
  ℕ, zero, suc, ◌≤◌, ◌≡◌, refl, ap, false, Option, none, some, List, [], ◌∷◌, arith, length, map,
  ltb,
}
use dingo_cli.Prelude.Int.{pos}
use dingo_cli.Prelude.Results.{ok}
use dingo_cli.Prelude.Options.{each}
use dingo_cli.Double.{Double}
use dingo_cli.Board.Known.{dingopdm_v7}
use dingo_cli.Board.Names.{Name, codes}
use dingo_cli.Json.{Json, array, int, elements, listed, get}
use dingo_cli.Load.{
  outputs, inputs, can_inputs, can_outputs, virtual_inputs, conditions, counters, flashers, Policy,
  group_key, limit,
}
use dingo_cli.Load.Slots.{Slot, group_array, expand_slots, group_slots}
use dingo_cli.Load.Defaults.{defaults_of}
use dingo_cli.Load.Choice.{devices, choose_device, choose_board, check_supported, unsupported_keys}
use dingo_cli.Load.Device.{Loaded, load_group, load_groups, load_device}
use dingo_cli.Load.SelfContained.{read_fields}
use dingo_cli.Load.Typed.{
  output_config, input_config, can_input_config, can_output_config, virtual_input_config,
  condition_config, counter_config, flasher_config, config_of,
}
use dingo_cli.Corpus.{
  Given, padded, no_dig_in, no_output, no_can_in, no_can_out, no_virt, no_cond, no_counter,
  no_flasher,
}
use dingo_cli.Corpus.Document.{
  dig_in, output, can_in, can_out, virt, cond, counter, flasher, built, group, pdm, device,
}
use dingo_cli.Corpus.Slots.{
  dig_in_slot, output_slot, can_in_slot, can_out_slot, virt_slot, cond_slot, counter_slot,
  flasher_slot, slots_config,
}
use dingo_cli.Corpus.Reads.{
  Reads, slots_of-built, dig_in-Reads, output-Reads, can_in-Reads, can_out-Reads, virt-Reads,
  cond-Reads, counter-Reads, flasher-Reads,
}

-- No group has more slots than the board.
pub record Fits (g : Given) : Type 0 where
  pub dig_ins : length g.dig_ins ≤ 2
  pub outputs : length g.outputs ≤ 8
  pub can_ins : length g.can_ins ≤ 32
  pub can_outs : length g.can_outs ≤ 32
  pub virts : length g.virts ≤ 16
  pub conds : length g.conds ≤ 32
  pub counters : length g.counters ≤ 4
  pub flashers : length g.flashers ≤ 4

pub length-padded :
    {A : Type 0} (count : ℕ) (unused : A) (slots : List A)
    → length slots ≤ count
    → length (padded count unused slots) ≡ count
unfolding padded
length-padded zero unused [] h = refl
length-padded zero unused (a ∷ slots) h = absurd (omega arith)
length-padded (suc count) unused [] h = ap suc (length-padded count unused [] (omega arith))
length-padded (suc count) unused (a ∷ slots) h =
    ap suc (length-padded count unused slots (omega arith))

pub listed-elements : {W : Type 0} (xs : List (Json W)) → listed (elements xs) ≡ xs
unfolding listed elements
listed-elements [] = refl
listed-elements (x ∷ xs) = ap (λ ys. x ∷ ys) (listed-elements xs)

pub length-built :
    {W A : Type 0} (build : ℕ → A → Json W) (n : ℕ) (slots : List A)
    → length (built build n slots) ≡ length slots
unfolding built
length-built build n [] = refl
length-built build n (a ∷ slots) = ap suc (length-built build (suc n) slots)

module _ {W : Type 0} (d : Double W) (p : Policy) where
  -- A group of a document, by its key.
  pub group_slots-built :
      {A C : Type 0} (ks : List Name) (convert : Slot W → Option C) (build : ℕ → A → Json W)
      (slot : A → C) (n : ℕ) (slots : List A) (count : ℕ) (defaults : Slot W) (dev : Json W)
      (key : Name)
      → Reads d ks convert build slot
      → length slots ≡ count
      → get key dev ≡ ok (some (array (elements (built build n slots))))
      → (ss : List (Slot W)) × (group_slots d p dev key count defaults ≡ ok ss)
        × (each convert ss ≡ some (map slot slots))
  unfolding group_slots group_array expand_slots
  group_slots-built ks convert build slot n slots count defaults dev key r size e =
      let (ss, f, g) = slots_of-built d ks convert build slot r p defaults n slots in
      let f' = rw size at f in
      let in_range : ltb count (length (built build n slots)) ≡ false =
        ground (arith, length-built build n slots, size) in
      (ss, rw (e, listed-elements (built build n slots), in_range) f', g)

  group_slots-group :
      {A C : Type 0} (ks : List Name) (convert : Slot W → Option C) (build : ℕ → A → Json W)
      (slot : A → C) (unused : A) (slots : List A) (count : ℕ) (defaults : Slot W) (dev : Json W)
      (key : Name)
      → Reads d ks convert build slot
      → length slots ≤ count
      → get key dev ≡ ok (some (group build count unused slots))
      → (ss : List (Slot W)) × (group_slots d p dev key count defaults ≡ ok ss)
        × (each convert ss ≡ some (map slot (padded count unused slots)))
  unfolding group
  group_slots-group ks convert build slot unused slots count defaults dev key r fits e =
      group_slots-built ks convert build slot 1 (padded count unused slots) count defaults dev key r
        (length-padded count unused slots fits) e

  outputs-loads :
      (name : Name) (g : Given)
      → Fits g
      → (ss : List (Slot W)) × (load_group d p (pdm name g) dingopdm_v7 outputs ≡ ok ss)
        × (each (output_config d) ss ≡ some (map (output_slot d) (padded 8 no_output g.outputs)))
  unfolding load_group pdm get group_key limit
  outputs-loads name g fits =
      group_slots-group (read_fields outputs) (output_config d) output (output_slot d) no_output
        g.outputs 8 (defaults_of d p outputs) (pdm name g) (group_key outputs) (output-Reads d)
        fits.outputs refl

  inputs-loads :
      (name : Name) (g : Given)
      → Fits g
      → (ss : List (Slot W)) × (load_group d p (pdm name g) dingopdm_v7 inputs ≡ ok ss)
        × (each (input_config d) ss ≡ some (map (dig_in_slot d) (padded 2 no_dig_in g.dig_ins)))
  unfolding load_group pdm get group_key limit
  inputs-loads name g fits =
      group_slots-group (read_fields inputs) (input_config d) dig_in (dig_in_slot d) no_dig_in
        g.dig_ins 2 (defaults_of d p inputs) (pdm name g) (group_key inputs) (dig_in-Reads d)
        fits.dig_ins refl

  can_inputs-loads :
      (name : Name) (g : Given)
      → Fits g
      → (ss : List (Slot W)) × (load_group d p (pdm name g) dingopdm_v7 can_inputs ≡ ok ss)
        × (each (can_input_config d) ss
            ≡ some (map (can_in_slot d) (padded 32 no_can_in g.can_ins)))
  unfolding load_group pdm get group_key limit
  can_inputs-loads name g fits =
      group_slots-group (read_fields can_inputs) (can_input_config d) can_in (can_in_slot d)
        no_can_in g.can_ins 32 (defaults_of d p can_inputs) (pdm name g) (group_key can_inputs)
        (can_in-Reads d) fits.can_ins refl

  can_outputs-loads :
      (name : Name) (g : Given)
      → Fits g
      → (ss : List (Slot W)) × (load_group d p (pdm name g) dingopdm_v7 can_outputs ≡ ok ss)
        × (each (can_output_config d) ss
            ≡ some (map (can_out_slot d) (padded 32 no_can_out g.can_outs)))
  unfolding load_group pdm get group_key limit
  can_outputs-loads name g fits =
      group_slots-group (read_fields can_outputs) (can_output_config d) can_out (can_out_slot d)
        no_can_out g.can_outs 32 (defaults_of d p can_outputs) (pdm name g) (group_key can_outputs)
        (can_out-Reads d) fits.can_outs refl

  virtual_inputs-loads :
      (name : Name) (g : Given)
      → Fits g
      → (ss : List (Slot W)) × (load_group d p (pdm name g) dingopdm_v7 virtual_inputs ≡ ok ss)
        × (each (virtual_input_config d) ss ≡ some (map (virt_slot d) (padded 16 no_virt g.virts)))
  unfolding load_group pdm get group_key limit
  virtual_inputs-loads name g fits =
      group_slots-group (read_fields virtual_inputs) (virtual_input_config d) virt (virt_slot d)
        no_virt g.virts 16 (defaults_of d p virtual_inputs) (pdm name g) (group_key virtual_inputs)
        (virt-Reads d) fits.virts refl

  conditions-loads :
      (name : Name) (g : Given)
      → Fits g
      → (ss : List (Slot W)) × (load_group d p (pdm name g) dingopdm_v7 conditions ≡ ok ss)
        × (each (condition_config d) ss ≡ some (map (cond_slot d) (padded 32 no_cond g.conds)))
  unfolding load_group pdm get group_key limit
  conditions-loads name g fits =
      group_slots-group (read_fields conditions) (condition_config d) cond (cond_slot d) no_cond
        g.conds 32 (defaults_of d p conditions) (pdm name g) (group_key conditions) (cond-Reads d)
        fits.conds refl

  counters-loads :
      (name : Name) (g : Given)
      → Fits g
      → (ss : List (Slot W)) × (load_group d p (pdm name g) dingopdm_v7 counters ≡ ok ss)
        × (each (counter_config d) ss
            ≡ some (map (counter_slot d) (padded 4 no_counter g.counters)))
  unfolding load_group pdm get group_key limit
  counters-loads name g fits =
      group_slots-group (read_fields counters) (counter_config d) counter (counter_slot d)
        no_counter g.counters 4 (defaults_of d p counters) (pdm name g) (group_key counters)
        (counter-Reads d) fits.counters refl

  flashers-loads :
      (name : Name) (g : Given)
      → Fits g
      → (ss : List (Slot W)) × (load_group d p (pdm name g) dingopdm_v7 flashers ≡ ok ss)
        × (each (flasher_config d) ss
            ≡ some (map (flasher_slot d) (padded 4 no_flasher g.flashers)))
  unfolding load_group pdm get group_key limit
  flashers-loads name g fits =
      group_slots-group (read_fields flashers) (flasher_config d) flasher (flasher_slot d)
        no_flasher g.flashers 4 (defaults_of d p flashers) (pdm name g) (group_key flashers)
        (flasher-Reads d) fits.flashers refl

  pub device-devices :
      (name : Name) (g : Given) → devices d (device {W = W} name g) ≡ ok (pdm name g ∷ [])
  unfolding device devices
  device-devices name g = refl

  pub pdm-board :
      (name : Name) (g : Given) → choose_board d none (pdm {W = W} name g) ≡ ok dingopdm_v7
  unfolding pdm choose_board
  pdm-board name g = refl

  pdm-supported :
      (name : Name) (g : Given) → check_supported d unsupported_keys (pdm {W = W} name g) ≡ ok tt
  unfolding pdm check_supported
  pdm-supported name g = refl

  pdm-base :
      (name : Name) (g : Given)
      → get (codes "baseId") (pdm {W = W} name g) ≡ ok (some (int (pos 512)))
  unfolding pdm get
  pdm-base name g = refl

  pub pdm-chosen :
      (name : Name) (g : Given) → choose_device d none (pdm {W = W} name g ∷ []) ≡ ok (pdm name g)
  unfolding choose_device
  pdm-chosen name g = refl

  -- mkadversarial.device: a document that it builds of no more slots of each group than a dingopdm_v7
  -- has loads under every policy, and to the config with the slots that it was given, and unused ones.
  pub device-loads :
      (name : Name) (g : Given)
      → Fits g
      → (l : Loaded W) × (load_device d p (device name g) none none ≡ ok l)
        × (config_of d l ≡ some (slots_config d g))
  unfolding load_device load_groups config_of slots_config
  device-loads name g fits =
      let (s1, e1, f1) = outputs-loads name g fits in
      let (s2, e2, f2) = inputs-loads name g fits in
      let (s3, e3, f3) = can_inputs-loads name g fits in
      let (s4, e4, f4) = can_outputs-loads name g fits in
      let (s5, e5, f5) = virtual_inputs-loads name g fits in
      let (s6, e6, f6) = conditions-loads name g fits in
      let (s7, e7, f7) = counters-loads name g fits in
      let (s8, e8, f8) = flashers-loads name g fits in
      (
        record {
          board = dingopdm_v7;
          base_id = some (int (pos 512));
          groups = record {
            outputs = s1;
            inputs = s2;
            can_inputs = s3;
            can_outputs = s4;
            virtual_inputs = s5;
            conditions = s6;
            counters = s7;
            flashers = s8;
          };
        },
        rw (device-devices name g) (
            (rw (pdm-board name g) (
              rw (pdm-supported name g) (
                rw e1 (
                  rw e2 (
                    rw e3 (rw e4 (rw e5 (rw e6 (rw e7 (rw e8 (rw (pdm-base name g) refl)))))))))))),
        (rw f1 (rw f2 (rw f3 (rw f4 (rw f5 (rw f6 (rw f7 (rw f8 refl)))))))),
      )
