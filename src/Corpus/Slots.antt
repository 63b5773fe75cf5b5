-- ===== src/Corpus/Slots.antt =====
-- The slots of a document as `Sim` reads them, once it is loaded.
use dingo_cli.Prelude.{false, ltb, ◌==◌, if◌then◌else◌, map}
use dingo_cli.Double.{Double, of_ℕ}
use dingo_cli.Enums.{bool_and, edge_rising, mode_momentary}
use dingo_cli.Board.Known.{dingopdm_v7}
use dingo_cli.Output.{OutputConfig}
use dingo_cli.DigitalInput.{InputConfig}
use dingo_cli.CanInput.{CanInputConfig}
use dingo_cli.CanOutput.{CanOutputConfig}
use dingo_cli.VirtualInput.{VirtualInputConfig}
use dingo_cli.Condition.{ConditionConfig}
use dingo_cli.Counter.{CounterConfig}
use dingo_cli.Flasher.{FlasherConfig}
use dingo_cli.Config.{DeviceConfig}
use dingo_cli.Corpus.{
  DigIn, Output, CanIn, CanOut, Virt, Cond, Count, Flash, Given, padded, no_dig_in, no_output,
  no_can_in, no_can_out, no_virt, no_cond, no_counter, no_flasher,
}

module _ {W : Type 0} (d : Double W) where
  unfoldable pub dig_in_slot : DigIn → InputConfig
  dig_in_slot a = record {
    enabled = a.enabled;
    mode = a.mode;
    invert = a.invert;
    debounce_time = a.debounce;
  }

  unfoldable pub output_slot : Output → OutputConfig
  output_slot a = record { enabled = a.enabled; input = a.inp }

  unfoldable pub can_in_slot : CanIn → CanInputConfig W
  can_in_slot a = record {
    enabled = a.enabled;
    timeout_enabled = a.timeout_en;
    timeout = a.timeout;
    ide = if ltb 2047 a.cid then 1 else 0;
    id = a.cid;
    start_bit = a.start;
    bit_length = a.length;
    factor = of_ℕ d 1;
    offset = of_ℕ d 0;
    byte_order = 0;
    signed = false;
    operator = a.op;
    operand = of_ℕ d a.operand;
    mode = mode_momentary;
  }

  unfoldable pub can_out_slot : CanOut → CanOutputConfig W
  can_out_slot a = record {
    enabled = a.enabled;
    input = a.inp;
    ide = if ltb 2047 a.cid then 1 else 0;
    id = a.cid;
    start_bit = a.start;
    bit_length = a.length;
    factor = of_ℕ d 1;
    offset = of_ℕ d 0;
    byte_order = 0;
    interval = a.interval;
  }

  unfoldable pub virt_slot : Virt → VirtualInputConfig
  virt_slot a = record {
    enabled = a.enabled;
    not0 = a.not0;
    var0 = a.var0;
    cond0 = a.cond0;
    not1 = a.not1;
    var1 = a.var1;
    cond1 = if a.var2 == 0 then bool_and else a.cond1;
    not2 = (if a.var2 == 0 then false else a.not2);
    var2 = a.var2;
    mode = a.mode;
  }

  unfoldable pub cond_slot : Cond → ConditionConfig W
  cond_slot a = record { enabled = a.enabled; input = a.inp; operator = a.op; arg = of_ℕ d a.arg }

  unfoldable pub counter_slot : Count → CounterConfig
  counter_slot a = record {
    enabled = a.enabled;
    inc_input = a.inc;
    dec_input = a.dec;
    reset_input = a.reset;
    min_count = a.lo;
    max_count = a.hi;
    inc_edge = a.inc_edge;
    dec_edge = a.dec_edge;
    reset_edge = edge_rising;
    wrap_around = a.wrap;
    hold_to_reset = a.hold;
    reset_time = a.hold_ms;
  }

  unfoldable pub flasher_slot : Flash → FlasherConfig
  flasher_slot a = record {
    enabled = a.enabled;
    input = a.inp;
    on_time = a.on;
    off_time = a.off;
    single = false;
  }

  -- The config of a document.
  unfoldable pub slots_config : Given → DeviceConfig W
  unfolding padded dig_in_slot output_slot can_in_slot can_out_slot virt_slot cond_slot counter_slot
      flasher_slot
  slots_config g = record {
    board = dingopdm_v7;
    inputs = map dig_in_slot (padded 2 no_dig_in g.dig_ins);
    outputs = map output_slot (padded 8 no_output g.outputs);
    can_inputs = map can_in_slot (padded 32 no_can_in g.can_ins);
    can_outputs = map can_out_slot (padded 32 no_can_out g.can_outs);
    virtual_inputs = map virt_slot (padded 16 no_virt g.virts);
    conditions = map cond_slot (padded 32 no_cond g.conds);
    counters = map counter_slot (padded 4 no_counter g.counters);
    flashers = map flasher_slot (padded 4 no_flasher g.flashers);
  }
