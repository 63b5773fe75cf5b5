-- ===== src/Load/Typed.antt =====
-- A loaded config as the `DeviceConfig` that `Sim` runs on: each field through the conversion that
-- `Sim` applies where it reads it. `none` stands for a document that is not modelled, with a field
-- that is no number, or negative, where a number is read.
use dingo_cli.Prelude.{ℕ, Bool, Option, some}
use dingo_cli.Prelude.Options.{◌>>=◌, each}
use dingo_cli.Double.{Double}
use dingo_cli.Board.Names.{Name, codes}
use dingo_cli.Json.{field_value, truthy, as_nat, as_float}
use dingo_cli.Output.{OutputConfig}
use dingo_cli.DigitalInput.{InputConfig}
use dingo_cli.CanInput.{CanInputConfig}
use dingo_cli.CanOutput.{CanOutputConfig}
use dingo_cli.VirtualInput.{VirtualInputConfig}
use dingo_cli.Condition.{ConditionConfig}
use dingo_cli.Counter.{CounterConfig}
use dingo_cli.Flasher.{FlasherConfig}
use dingo_cli.Config.{DeviceConfig}
use dingo_cli.Load.Slots.{Slot}
use dingo_cli.Load.Device.{Loaded}

module _ {W : Type 0} (d : Double W) where
  -- bool(s[key]), int(s[key]) and float(s[key])
  unfoldable pub flag : Name → Slot W → Option Bool
  unfolding field_value truthy
  flag key s = do v ← field_value key s; some (truthy d v)

  unfoldable pub number : Name → Slot W → Option ℕ
  unfolding field_value as_nat
  number key s = do v ← field_value key s; as_nat d v

  unfoldable pub decimal_value : Name → Slot W → Option W
  unfolding field_value as_float
  decimal_value key s = do v ← field_value key s; as_float d v

  unfoldable pub output_config : Slot W → Option OutputConfig
  unfolding flag number
  output_config s = do
    x0 ← flag (codes "enabled") s
    x1 ← number (codes "input") s
    some (record { enabled = x0; input = x1 })

  unfoldable pub input_config : Slot W → Option InputConfig
  unfolding flag number
  input_config s = do
    x0 ← flag (codes "enabled") s
    x1 ← number (codes "mode") s
    x2 ← flag (codes "invert") s
    x3 ← number (codes "debounceTime") s
    some (record { enabled = x0; mode = x1; invert = x2; debounce_time = x3 })

  unfoldable pub can_input_config : Slot W → Option (CanInputConfig W)
  unfolding flag number decimal_value
  can_input_config s = do
    x0 ← flag (codes "enabled") s
    x1 ← flag (codes "timeoutEnabled") s
    x2 ← number (codes "timeout") s
    x3 ← number (codes "ide") s
    x4 ← number (codes "id") s
    x5 ← number (codes "startBit") s
    x6 ← number (codes "bitLength") s
    x7 ← decimal_value (codes "factor") s
    x8 ← decimal_value (codes "offset") s
    x9 ← number (codes "byteOrder") s
    x10 ← flag (codes "signed") s
    x11 ← number (codes "operator") s
    x12 ← decimal_value (codes "operand") s
    x13 ← number (codes "mode") s
    some (record {
      enabled = x0;
      timeout_enabled = x1;
      timeout = x2;
      ide = x3;
      id = x4;
      start_bit = x5;
      bit_length = x6;
      factor = x7;
      offset = x8;
      byte_order = x9;
      signed = x10;
      operator = x11;
      operand = x12;
      mode = x13;
    })

  unfoldable pub can_output_config : Slot W → Option (CanOutputConfig W)
  unfolding flag number decimal_value
  can_output_config s = do
    x0 ← flag (codes "enabled") s
    x1 ← number (codes "input") s
    x2 ← number (codes "ide") s
    x3 ← number (codes "id") s
    x4 ← number (codes "startBit") s
    x5 ← number (codes "bitLength") s
    x6 ← decimal_value (codes "factor") s
    x7 ← decimal_value (codes "offset") s
    x8 ← number (codes "byteOrder") s
    x9 ← number (codes "interval") s
    some (record {
      enabled = x0;
      input = x1;
      ide = x2;
      id = x3;
      start_bit = x4;
      bit_length = x5;
      factor = x6;
      offset = x7;
      byte_order = x8;
      interval = x9;
    })

  unfoldable pub virtual_input_config : Slot W → Option VirtualInputConfig
  unfolding flag number
  virtual_input_config s = do
    x0 ← flag (codes "enabled") s
    x1 ← flag (codes "not0") s
    x2 ← number (codes "var0") s
    x3 ← number (codes "cond0") s
    x4 ← flag (codes "not1") s
    x5 ← number (codes "var1") s
    x6 ← number (codes "cond1") s
    x7 ← flag (codes "not2") s
    x8 ← number (codes "var2") s
    x9 ← number (codes "mode") s
    some (record {
      enabled = x0;
      not0 = x1;
      var0 = x2;
      cond0 = x3;
      not1 = x4;
      var1 = x5;
      cond1 = x6;
      not2 = x7;
      var2 = x8;
      mode = x9;
    })

  unfoldable pub condition_config : Slot W → Option (ConditionConfig W)
  unfolding flag number decimal_value
  condition_config s = do
    x0 ← flag (codes "enabled") s
    x1 ← number (codes "input") s
    x2 ← number (codes "operator") s
    x3 ← decimal_value (codes "arg") s
    some (record { enabled = x0; input = x1; operator = x2; arg = x3 })

  unfoldable pub counter_config : Slot W → Option CounterConfig
  unfolding flag number
  counter_config s = do
    x0 ← flag (codes "enabled") s
    x1 ← number (codes "incInput") s
    x2 ← number (codes "decInput") s
    x3 ← number (codes "resetInput") s
    x4 ← number (codes "minCount") s
    x5 ← number (codes "maxCount") s
    x6 ← number (codes "incEdge") s
    x7 ← number (codes "decEdge") s
    x8 ← number (codes "resetEdge") s
    x9 ← flag (codes "wrapAround") s
    x10 ← flag (codes "holdToReset") s
    x11 ← number (codes "resetTime") s
    some (record {
      enabled = x0;
      inc_input = x1;
      dec_input = x2;
      reset_input = x3;
      min_count = x4;
      max_count = x5;
      inc_edge = x6;
      dec_edge = x7;
      reset_edge = x8;
      wrap_around = x9;
      hold_to_reset = x10;
      reset_time = x11;
    })

  unfoldable pub flasher_config : Slot W → Option FlasherConfig
  unfolding flag number
  flasher_config s = do
    x0 ← flag (codes "enabled") s
    x1 ← number (codes "input") s
    x2 ← number (codes "onTime") s
    x3 ← number (codes "offTime") s
    x4 ← flag (codes "single") s
    some (record { enabled = x0; input = x1; on_time = x2; off_time = x3; single = x4 })

  -- The groups, and the board.
  unfoldable pub config_of : Loaded W → Option (DeviceConfig W)
  unfolding each output_config input_config can_input_config can_output_config virtual_input_config
      condition_config counter_config flasher_config
  config_of l = do
    outputs ← each output_config l.groups.outputs
    inputs ← each input_config l.groups.inputs
    can_inputs ← each can_input_config l.groups.can_inputs
    can_outputs ← each can_output_config l.groups.can_outputs
    virtual_inputs ← each virtual_input_config l.groups.virtual_inputs
    conditions ← each condition_config l.groups.conditions
    counters ← each counter_config l.groups.counters
    flashers ← each flasher_config l.groups.flashers
    some (record {
      board = l.board;
      outputs = outputs;
      inputs = inputs;
      can_inputs = can_inputs;
      can_outputs = can_outputs;
      virtual_inputs = virtual_inputs;
      conditions = conditions;
      counters = counters;
      flashers = flashers;
    })
