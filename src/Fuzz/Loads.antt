-- ===== src/Fuzz/Loads.antt =====
-- The document of a full config loads, under every policy of defaults, to that config.
use dingo_cli.Prelude.{
  ℕ, suc, ◌≡◌, refl, sym, ◌∙◌, ap, Option, none, some, List, [], ◌∷◌, length, map,
}
use dingo_cli.Prelude.Int.{pos}
use dingo_cli.Prelude.Results.{ok}
use dingo_cli.Prelude.Options.{each}
use dingo_cli.Double.{Double}
use dingo_cli.Board.Known.{dingopdm_v7}
use dingo_cli.Board.Names.{Name}
use dingo_cli.Json.{Json, array, int, elements, get}
use dingo_cli.Config.{DeviceConfig}
use dingo_cli.Sim.Shape.{IsFull}
use dingo_cli.Load.{
  outputs, inputs, can_inputs, can_outputs, virtual_inputs, conditions, counters, flashers, Policy,
  group_key, limit,
}
use dingo_cli.Load.Slots.{Slot, group_slots}
use dingo_cli.Load.Defaults.{defaults_of}
use dingo_cli.Load.Choice.{devices, choose_device, choose_board, check_supported}
use dingo_cli.Load.Device.{Loaded, load_group, load_groups, load_device}
use dingo_cli.Load.SelfContained.{read_fields}
use dingo_cli.Load.Typed.{
  output_config, input_config, can_input_config, can_output_config, virtual_input_config,
  condition_config, counter_config, flasher_config, config_of,
}
use dingo_cli.Corpus.Document.{built}
use dingo_cli.Corpus.Reads.{Reads}
use dingo_cli.Corpus.Loads.{group_slots-built}
use dingo_cli.Fuzz.Document.{
  can_in_dict, virt_dict, cond_dict, counter_dict, flasher_dict, can_out_dict, dig_in_dict,
  output_dict, slots_device, slots_document,
}
use dingo_cli.Fuzz.Reads.{
  output-Reads, dig_in-Reads, can_in-Reads, can_out-Reads, virt-Reads, cond-Reads, counter-Reads,
  flasher-Reads,
}

map-built : {W A : Type 0} (f : A → Json W) (n : ℕ) (xs : List A) → built (λ i. f) n xs ≡ map f xs
unfolding built
map-built f n [] = refl
map-built f n (x ∷ xs) = ap (λ ys. f x ∷ ys) (map-built f (suc n) xs)

map_same : {A : Type 0} (xs : List A) → map (λ x. x) xs ≡ xs
map_same [] = refl
map_same (x ∷ xs) = ap (λ ys. x ∷ ys) (map_same xs)

module _ {W : Type 0} (d : Double W) (p : Policy) where
  -- A group of a device, by its key.
  group_slots-map :
      {C : Type 0} (ks : List Name) (convert : Slot W → Option C) (build : C → Json W)
      (slots : List C) (count : ℕ) (defaults : Slot W) (dev : Json W) (key : Name)
      → Reads d ks convert (λ n. build) (λ c. c)
      → length slots ≡ count
      → get key dev ≡ ok (some (array (elements (map build slots))))
      → (ss : List (Slot W)) × (group_slots d p dev key count defaults ≡ ok ss)
        × (each convert ss ≡ some slots)
  group_slots-map ks convert build slots count defaults dev key r size e =
      let e' : get key dev ≡ ok (some (array (elements (built (λ n. build) 0 slots)))) =
        rw (map-built build 0 slots) e in
      let (ss, f, g) =
        group_slots-built d p ks convert (λ n. build) (λ c. c) 0 slots count defaults dev key r size
          e' in
      (ss, f, g ∙ ap some (map_same slots))

  -- The document of a full config of a dingopdm_v7 loads to that config.
  pub slots_document-loads :
      (name : Name) (c : DeviceConfig W)
      → IsFull c
      → c.board ≡ dingopdm_v7
      → (l : Loaded W) × (load_device d p (slots_document d name c) none none ≡ ok l)
        × (config_of d l ≡ some c)
  unfolding load_device load_groups load_group slots_device slots_document get group_key limit
      devices choose_device choose_board check_supported config_of
  slots_document-loads name c full v7 =
      let dev = slots_device d name c in
      let (s1, e1, f1) =
        group_slots-map (read_fields outputs) (output_config d) (output_dict d) c.outputs 8
          (defaults_of d p outputs) dev (group_key outputs) (output-Reads d) (rw v7 at full.outputs)
          refl in
      let (s2, e2, f2) =
        group_slots-map (read_fields inputs) (input_config d) (dig_in_dict) c.inputs 2
          (defaults_of d p inputs) dev (group_key inputs) (dig_in-Reads d) (rw v7 at full.inputs)
          refl in
      let (s3, e3, f3) =
        group_slots-map (read_fields can_inputs) (can_input_config d) (can_in_dict) c.can_inputs 32
          (defaults_of d p can_inputs) dev (group_key can_inputs) (can_in-Reads d)
          (rw v7 at full.can_inputs) refl in
      let (s4, e4, f4) =
        group_slots-map (read_fields can_outputs) (can_output_config d) (can_out_dict) c.can_outputs
          32 (defaults_of d p can_outputs) dev (group_key can_outputs) (can_out-Reads d)
          (rw v7 at full.can_outputs) refl in
      let (s5, e5, f5) =
        group_slots-map (read_fields virtual_inputs) (virtual_input_config d) (virt_dict)
          c.virtual_inputs 16 (defaults_of d p virtual_inputs) dev (group_key virtual_inputs)
          (virt-Reads d) (rw v7 at full.virtual_inputs) refl in
      let (s6, e6, f6) =
        group_slots-map (read_fields conditions) (condition_config d) (cond_dict) c.conditions 32
          (defaults_of d p conditions) dev (group_key conditions) (cond-Reads d)
          (rw v7 at full.conditions) refl in
      let (s7, e7, f7) =
        group_slots-map (read_fields counters) (counter_config d) (counter_dict) c.counters 4
          (defaults_of d p counters) dev (group_key counters) (counter-Reads d)
          (rw v7 at full.counters) refl in
      let (s8, e8, f8) =
        group_slots-map (read_fields flashers) (flasher_config d) (flasher_dict) c.flashers 4
          (defaults_of d p flashers) dev (group_key flashers) (flasher-Reads d)
          (rw v7 at full.flashers) refl in
      (
        record {
          board = dingopdm_v7;
          base_id = some (int (pos 512));
          groups = record {
            outputs = s1;
            inputs = s2;
            can_inputs = s3;
            can_outputs = s4;
            virtual_inputs = s5;
            conditions = s6;
            counters = s7;
            flashers = s8;
          };
        },
        rw (e1, e2, e3, e4, e5, e6, e7, e8) refl,
        rw (f1, f2, f3, f4, f5, f6, f7, f8, sym v7) refl,
      )
