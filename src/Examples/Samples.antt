-- ===== src/Examples/Samples.antt =====
-- Sample slots and levels, over whole numbers as doubles.
use dingo_cli.Prelude.{true, false, List, [], ◌∷◌, replicate}
use dingo_cli.Prelude.Int.{ℤ, pos}
use dingo_cli.Enums.{edge_rising, edge_falling, bool_and, bool_nor, mode_momentary, mode_latching}
use dingo_cli.Counter.{CounterConfig, CounterState, Pulses}
use dingo_cli.Flasher.{FlasherConfig, FlasherState}
use dingo_cli.DigitalInput.{InputConfig, InputState}
use dingo_cli.VirtualInput.{VirtualInputConfig}
use dingo_cli.Output.{OutputConfig}
use dingo_cli.CanInput.{CanInputConfig}
use dingo_cli.CanOutput.{CanOutputConfig}
use dingo_cli.Condition.{ConditionConfig}
use dingo_cli.Config.{DeviceConfig}
use dingo_cli.Board.Known.{dingopdmmax_v1}

-- Counts presses up to 3 and stops there; a falling edge resets it.
abbrev pub gear : CounterConfig
gear = record {
  enabled = true;
  inc_input = 71;
  dec_input = 72;
  reset_input = 5;
  min_count = 1;
  max_count = 3;
  inc_edge = edge_rising;
  dec_edge = edge_rising;
  reset_edge = edge_falling;
  wrap_around = false;
  hold_to_reset = false;
  reset_time = 2000;
}

-- A counter that wraps around at 1.
abbrev pub toggle : CounterConfig
toggle = record gear { min_count = 0; max_count = 1; reset_edge = edge_rising; wrap_around = true }

abbrev pub up : Pulses
up = record { inc = true; dec = false; reset = false }

abbrev pub down : Pulses
down = record { inc = false; dec = true; reset = false }

abbrev pub up_while_high : Pulses
up_while_high = record { inc = true; dec = false; reset = true }

-- The reset input was high in the last cycle.
abbrev pub was_high : CounterState
was_high = record {
  last_inc = false;
  last_dec = false;
  last_reset = true;
  inc_time = 4;
  dec_time = 0;
}

abbrev pub blinker : FlasherConfig
blinker = record { enabled = true; input = 71; on_time = 5; off_time = 3; single = false }

abbrev pub lit_at_10 : FlasherState
lit_at_10 = record { on_at = 10; off_at = 4 }

abbrev pub button : InputConfig
button = record { enabled = true; mode = mode_momentary; invert = true; debounce_time = 4 }

-- The pin was last seen high, which is off after the inversion.
abbrev pub at_rest : InputState
at_rest = record {
  latch = record { b_out = false; b_last = false };
  last = true;
  checking = false;
  trig = 0;
  started = true;
}

-- NOT (var 3 AND var 4) AND var 5
abbrev pub both_sections : VirtualInputConfig
both_sections = record {
  enabled = true;
  not0 = false;
  var0 = 3;
  cond0 = bool_nor;
  not1 = false;
  var1 = 4;
  cond1 = bool_and;
  not2 = false;
  var2 = 5;
  mode = mode_latching;
}

abbrev pub flags : List ℤ
flags = pos 0 ∷ pos 1 ∷ pos 0 ∷ pos 1 ∷ pos 0 ∷ pos 1 ∷ pos 0 ∷ []

-- A device with four outputs, the first of which follows virtual input 1; the others are off.
abbrev pub output_slot : OutputConfig
output_slot = record { enabled = true; input = 71 }

abbrev pub no_output : OutputConfig
no_output = record { enabled = false; input = 0 }

abbrev pub no_can_input : CanInputConfig ℤ
no_can_input = record {
  enabled = false;
  timeout_enabled = false;
  timeout = 1000;
  ide = 0;
  id = 0;
  start_bit = 0;
  bit_length = 8;
  factor = pos 1;
  offset = pos 0;
  byte_order = 0;
  signed = false;
  operator = 0;
  operand = pos 0;
  mode = 0;
}

abbrev pub no_can_output : CanOutputConfig ℤ
no_can_output = record {
  enabled = false;
  input = 0;
  ide = 0;
  id = 0;
  start_bit = 0;
  bit_length = 8;
  factor = pos 1;
  offset = pos 0;
  byte_order = 0;
  interval = 1000;
}

-- Virtual input 1 on the bus, in the second byte of frame 0x642.
abbrev pub can_output : CanOutputConfig ℤ
can_output = record no_can_output {
  enabled = true;
  input = 71;
  id = 0x642;
  start_bit = 8;
  interval = 20;
}

-- The same frame, its last byte, more often.
abbrev pub fast_output : CanOutputConfig ℤ
fast_output = record can_output { start_bit = 56; interval = 10 }

abbrev pub no_virtual_input : VirtualInputConfig
no_virtual_input = record both_sections { enabled = false }

abbrev pub no_condition : ConditionConfig ℤ
no_condition = record { enabled = false; input = 0; operator = 0; arg = pos 0 }

abbrev pub demo : DeviceConfig ℤ
demo = record {
  board = dingopdmmax_v1;
  outputs = output_slot ∷ replicate 3 no_output;
  inputs = replicate 2 button;
  can_inputs = replicate 32 no_can_input;
  can_outputs = can_output ∷ fast_output ∷ replicate 30 no_can_output;
  virtual_inputs =
      record both_sections { var0 = 5; var1 = 6; var2 = 1 } ∷ replicate 15 no_virtual_input;
  conditions = replicate 32 no_condition;
  counters = gear ∷ replicate 3 (record gear { enabled = false });
  flashers = blinker ∷ replicate 3 (record blinker { enabled = false });
}
