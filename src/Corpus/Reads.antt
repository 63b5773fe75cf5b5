-- ===== src/Corpus/Reads.antt =====
-- How `load_device` reads the slots of a document: each builder against the conversion of its group.
use dingo_cli.Prelude.{ℕ, suc, ◌≡◌, refl, ◌∙◌, Option, some, List, [], ◌∷◌, length, map}
use dingo_cli.Prelude.Results.{ok}
use dingo_cli.Prelude.Options.{each}
use dingo_cli.Double.{Double}
use dingo_cli.Board.Names.{Name}
use dingo_cli.Json.{Json, object, entries}
use dingo_cli.Load.{
  outputs, inputs, can_inputs, can_outputs, virtual_inputs, conditions, counters, flashers, Policy,
  firmware,
}
use dingo_cli.Load.Slots.{Slot, filled_slot, item_fields, slots_of}
use dingo_cli.Load.Fields.{gives}
use dingo_cli.Load.Explicit.{AreFields, GivesAll, Agree, filled_slot-Agree}
use dingo_cli.Load.SelfContained.{
  read_fields, read_fields-AreFields, output_config-Agree, input_config-Agree,
  can_input_config-Agree, can_output_config-Agree, virtual_input_config-Agree,
  condition_config-Agree, counter_config-Agree, flasher_config-Agree,
}
use dingo_cli.Load.Typed.{
  flag, number, decimal_value, output_config, input_config, can_input_config, can_output_config,
  virtual_input_config, condition_config, counter_config, flasher_config,
}
use dingo_cli.Corpus.Document.{dig_in, output, can_in, can_out, virt, cond, counter, flasher, built}
use dingo_cli.Corpus.Slots.{
  dig_in_slot, output_slot, can_in_slot, can_out_slot, virt_slot, cond_slot, counter_slot,
  flasher_slot,
}

unfoldable pub fields_of : {W : Type 0} → Json W → Slot W
unfolding entries
fields_of (object fs) = entries fs
fields_of _ = []

module _ {W : Type 0} (d : Double W) where
  -- A builder gives every field that the conversion reads, and the conversion gives the slot.
  pub record Reads {A C : Type 0} (ks : List Name) (convert : Slot W → Option C)
      (build : ℕ → A → Json W) (slot : A → C) : Type 0 where
    pub item : ℕ → A → Slot W
    pub item_eq : (n : ℕ) (a : A) → item_fields d (build n a) ≡ ok (item n a)
    pub gives_all : (n : ℕ) (a : A) → GivesAll ks (item n a)
    pub fields : AreFields ks
    pub agree : (s t : Slot W) → Agree ks s t → convert s ≡ convert t
    pub alone : (n : ℕ) (a : A) → convert (filled_slot firmware [] (item n a)) ≡ some (slot a)

  -- The slots of a group that is built.
  pub slots_of-built :
      {A C : Type 0} (ks : List Name) (convert : Slot W → Option C) (build : ℕ → A → Json W)
      (slot : A → C)
      → Reads ks convert build slot
      → (p : Policy) (defaults : Slot W) (n : ℕ) (slots : List A)
      → (ss : List (Slot W)) × (slots_of d p (length slots) defaults (built build n slots) ≡ ok ss)
        × (each convert ss ≡ some (map slot slots))
  unfolding slots_of built each
  slots_of-built ks convert build slot r p defaults n [] = ([], refl, refl)
  slots_of-built ks convert build slot r p defaults n (a ∷ slots) =
      let (ss, e, f) = slots_of-built ks convert build slot r p defaults (suc n) slots in
      let s = filled_slot p defaults (r.item n a) in
      let g : convert s ≡ some (slot a) =
        r.agree s (filled_slot firmware [] (r.item n a))
          (filled_slot-Agree p firmware ks (r.item n a) defaults [] r.fields (r.gives_all n a))
        ∙ r.alone n a in
      (s ∷ ss, rw (r.item_eq n a, e) refl, rw (g, f) refl)

  pub dig_in-Reads : Reads (read_fields inputs) (input_config d) dig_in (dig_in_slot d)
  unfolding dig_in item_fields read_fields gives fields_of filled_slot input_config dig_in_slot flag
      number
  dig_in-Reads = record {
    item = λ n a. fields_of (dig_in n a);
    item_eq = λ n a. refl;
    gives_all = λ n a. (refl, (refl, (refl, (refl, tt))));
    fields = read_fields-AreFields inputs;
    agree = input_config-Agree d;
    alone = λ n a. refl;
  }

  pub output-Reads : Reads (read_fields outputs) (output_config d) output (output_slot d)
  unfolding output item_fields read_fields gives fields_of filled_slot output_config output_slot
      flag number
  output-Reads = record {
    item = λ n a. fields_of (output n a);
    item_eq = λ n a. refl;
    gives_all = λ n a. (refl, (refl, tt));
    fields = read_fields-AreFields outputs;
    agree = output_config-Agree d;
    alone = λ n a. refl;
  }

  pub can_in-Reads : Reads (read_fields can_inputs) (can_input_config d) can_in (can_in_slot d)
  unfolding can_in item_fields read_fields gives fields_of filled_slot can_input_config can_in_slot
      flag number decimal_value
  can_in-Reads = record {
    item = λ n a. fields_of (can_in n a);
    item_eq = λ n a. refl;
    gives_all = λ n a. (
      refl,
      (
        refl,
        (
          refl,
          (
            refl,
            (refl, (refl, (refl, (refl, (refl, (refl, (refl, (refl, (refl, (refl, tt)))))))))),
          ),
        ),
      ),
    );
    fields = read_fields-AreFields can_inputs;
    agree = can_input_config-Agree d;
    alone = λ n a. refl;
  }

  pub can_out-Reads : Reads (read_fields can_outputs) (can_output_config d) can_out (can_out_slot d)
  unfolding can_out item_fields read_fields gives fields_of filled_slot can_output_config
      can_out_slot flag number decimal_value
  can_out-Reads = record {
    item = λ n a. fields_of (can_out n a);
    item_eq = λ n a. refl;
    gives_all =
        λ n a. (refl, (refl, (refl, (refl, (refl, (refl, (refl, (refl, (refl, (refl, tt))))))))));
    fields = read_fields-AreFields can_outputs;
    agree = can_output_config-Agree d;
    alone = λ n a. refl;
  }

  pub virt-Reads : Reads (read_fields virtual_inputs) (virtual_input_config d) virt (virt_slot d)
  unfolding virt item_fields read_fields gives fields_of filled_slot virtual_input_config virt_slot
      flag number
  virt-Reads = record {
    item = λ n a. fields_of (virt n a);
    item_eq = λ n a. refl;
    gives_all =
        λ n a. (refl, (refl, (refl, (refl, (refl, (refl, (refl, (refl, (refl, (refl, tt))))))))));
    fields = read_fields-AreFields virtual_inputs;
    agree = virtual_input_config-Agree d;
    alone = λ n a. refl;
  }

  pub cond-Reads : Reads (read_fields conditions) (condition_config d) cond (cond_slot d)
  unfolding cond item_fields read_fields gives fields_of filled_slot condition_config cond_slot flag
      number decimal_value
  cond-Reads = record {
    item = λ n a. fields_of (cond n a);
    item_eq = λ n a. refl;
    gives_all = λ n a. (refl, (refl, (refl, (refl, tt))));
    fields = read_fields-AreFields conditions;
    agree = condition_config-Agree d;
    alone = λ n a. refl;
  }

  pub counter-Reads : Reads (read_fields counters) (counter_config d) counter (counter_slot d)
  unfolding counter item_fields read_fields gives fields_of filled_slot counter_config counter_slot
      flag number
  counter-Reads = record {
    item = λ n a. fields_of (counter n a);
    item_eq = λ n a. refl;
    gives_all = λ n a. (
      refl,
      (refl, (refl, (refl, (refl, (refl, (refl, (refl, (refl, (refl, (refl, (refl, tt))))))))))),
    );
    fields = read_fields-AreFields counters;
    agree = counter_config-Agree d;
    alone = λ n a. refl;
  }

  pub flasher-Reads : Reads (read_fields flashers) (flasher_config d) flasher (flasher_slot d)
  unfolding flasher item_fields read_fields gives fields_of filled_slot flasher_config flasher_slot
      flag number
  flasher-Reads = record {
    item = λ n a. fields_of (flasher n a);
    item_eq = λ n a. refl;
    gives_all = λ n a. (refl, (refl, (refl, (refl, (refl, tt)))));
    fields = read_fields-AreFields flashers;
    agree = flasher_config-Agree d;
    alone = λ n a. refl;
  }
