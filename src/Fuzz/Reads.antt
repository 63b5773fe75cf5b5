-- ===== src/Fuzz/Reads.antt =====
-- How `load_device` reads the slots of a document of gen_config: each dict against the conversion of its
-- group.
use dingo_cli.Prelude.{refl}
use dingo_cli.Double.{Double}
use dingo_cli.Load.{
  outputs, inputs, can_inputs, can_outputs, virtual_inputs, conditions, counters, flashers,
}
use dingo_cli.Load.Slots.{filled_slot, item_fields}
use dingo_cli.Load.Fields.{gives}
use dingo_cli.Load.SelfContained.{
  read_fields, read_fields-AreFields, output_config-Agree, input_config-Agree,
  can_input_config-Agree, can_output_config-Agree, virtual_input_config-Agree,
  condition_config-Agree, counter_config-Agree, flasher_config-Agree,
}
use dingo_cli.Load.Typed.{
  flag, number, decimal_value, output_config, input_config, can_input_config, can_output_config,
  virtual_input_config, condition_config, counter_config, flasher_config,
}
use dingo_cli.Corpus.Reads.{Reads, fields_of}
use dingo_cli.Fuzz.Document.{
  can_in_dict, virt_dict, cond_dict, counter_dict, flasher_dict, can_out_dict, dig_in_dict,
  output_dict,
}

module _ {W : Type 0} (d : Double W) where
  pub output-Reads : Reads d (read_fields outputs) (output_config d) (λ n. output_dict d) (λ c. c)
  unfolding output_dict item_fields read_fields gives fields_of filled_slot output_config flag
      number
  output-Reads = record {
    item = λ n c. fields_of (output_dict d c);
    item_eq = λ n c. refl;
    gives_all = λ n c. (refl, (refl, tt));
    fields = read_fields-AreFields outputs;
    agree = output_config-Agree d;
    alone = λ n c. refl;
  }

  pub dig_in-Reads : Reads d (read_fields inputs) (input_config d) (λ n. dig_in_dict) (λ c. c)
  unfolding dig_in_dict item_fields read_fields gives fields_of filled_slot input_config flag number
  dig_in-Reads = record {
    item = λ n c. fields_of (dig_in_dict c);
    item_eq = λ n c. refl;
    gives_all = λ n c. (refl, (refl, (refl, (refl, tt))));
    fields = read_fields-AreFields inputs;
    agree = input_config-Agree d;
    alone = λ n c. refl;
  }

  pub can_in-Reads :
      Reads d (read_fields can_inputs) (can_input_config d) (λ n. can_in_dict) (λ c. c)
  unfolding can_in_dict item_fields read_fields gives fields_of filled_slot can_input_config flag
      number decimal_value
  can_in-Reads = record {
    item = λ n c. fields_of (can_in_dict c);
    item_eq = λ n c. refl;
    gives_all = λ n c. (
      refl,
      (
        refl,
        (
          refl,
          (
            refl,
            (refl, (refl, (refl, (refl, (refl, (refl, (refl, (refl, (refl, (refl, tt)))))))))),
          ),
        ),
      ),
    );
    fields = read_fields-AreFields can_inputs;
    agree = can_input_config-Agree d;
    alone = λ n c. refl;
  }

  pub can_out-Reads :
      Reads d (read_fields can_outputs) (can_output_config d) (λ n. can_out_dict) (λ c. c)
  unfolding can_out_dict item_fields read_fields gives fields_of filled_slot can_output_config flag
      number decimal_value
  can_out-Reads = record {
    item = λ n c. fields_of (can_out_dict c);
    item_eq = λ n c. refl;
    gives_all =
        λ n c. (refl, (refl, (refl, (refl, (refl, (refl, (refl, (refl, (refl, (refl, tt))))))))));
    fields = read_fields-AreFields can_outputs;
    agree = can_output_config-Agree d;
    alone = λ n c. refl;
  }

  pub virt-Reads :
      Reads d (read_fields virtual_inputs) (virtual_input_config d) (λ n. virt_dict) (λ c. c)
  unfolding virt_dict item_fields read_fields gives fields_of filled_slot virtual_input_config flag
      number
  virt-Reads = record {
    item = λ n c. fields_of (virt_dict c);
    item_eq = λ n c. refl;
    gives_all =
        λ n c. (refl, (refl, (refl, (refl, (refl, (refl, (refl, (refl, (refl, (refl, tt))))))))));
    fields = read_fields-AreFields virtual_inputs;
    agree = virtual_input_config-Agree d;
    alone = λ n c. refl;
  }

  pub cond-Reads : Reads d (read_fields conditions) (condition_config d) (λ n. cond_dict) (λ c. c)
  unfolding cond_dict item_fields read_fields gives fields_of filled_slot condition_config flag
      number decimal_value
  cond-Reads = record {
    item = λ n c. fields_of (cond_dict c);
    item_eq = λ n c. refl;
    gives_all = λ n c. (refl, (refl, (refl, (refl, tt))));
    fields = read_fields-AreFields conditions;
    agree = condition_config-Agree d;
    alone = λ n c. refl;
  }

  pub counter-Reads : Reads d (read_fields counters) (counter_config d) (λ n. counter_dict) (λ c. c)
  unfolding counter_dict item_fields read_fields gives fields_of filled_slot counter_config flag
      number
  counter-Reads = record {
    item = λ n c. fields_of (counter_dict c);
    item_eq = λ n c. refl;
    gives_all = λ n c. (
      refl,
      (refl, (refl, (refl, (refl, (refl, (refl, (refl, (refl, (refl, (refl, (refl, tt))))))))))),
    );
    fields = read_fields-AreFields counters;
    agree = counter_config-Agree d;
    alone = λ n c. refl;
  }

  pub flasher-Reads : Reads d (read_fields flashers) (flasher_config d) (λ n. flasher_dict) (λ c. c)
  unfolding flasher_dict item_fields read_fields gives fields_of filled_slot flasher_config flag
      number
  flasher-Reads = record {
    item = λ n c. fields_of (flasher_dict c);
    item_eq = λ n c. refl;
    gives_all = λ n c. (refl, (refl, (refl, (refl, (refl, tt)))));
    fields = read_fields-AreFields flashers;
    agree = flasher_config-Agree d;
    alone = λ n c. refl;
  }
