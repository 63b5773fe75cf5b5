-- ===== src/Fuzz/Generate.antt =====
-- gen_config and gen_trace of fwhost/fuzz.py: the slots of a random config and the steps of a random
-- trace, drawn in the order of the code.
use dingo_cli.Prelude.{
  ℕ, ◌+◌, ◌*◌, Bool, true, false, not, ◌&&◌, ◌||◌, List, [], ◌∷◌, ◌++◌, ltb, ◌==◌, if◌then◌else◌,
}
use dingo_cli.Double.{Double, of_ℕ}
use dingo_cli.Board.Known.{dingopdm_v7}
use dingo_cli.Output.{OutputConfig}
use dingo_cli.DigitalInput.{InputConfig}
use dingo_cli.CanInput.{CanInputConfig}
use dingo_cli.CanOutput.{CanOutputConfig}
use dingo_cli.VirtualInput.{VirtualInputConfig}
use dingo_cli.Condition.{ConditionConfig}
use dingo_cli.Counter.{CounterConfig}
use dingo_cli.Flasher.{FlasherConfig}
use dingo_cli.Config.{DeviceConfig}
use dingo_cli.Fuzz.Pools.{boolish, numeric, without, any_boolish, any_id, maybe_boolish}
use dingo_cli.Fuzz.Random.{Source, Gen, done, ◌>>=◌, when, times, randrange, choice}

module _ {R : Type 0} (src : Source R) where
  unfoldable pub gen_virt : (on : Bool) → Gen R VirtualInputConfig
  unfolding randrange choice when maybe_boolish
  gen_virt on = do
    not0 ← src.chance 30
    var0 ← when on 0 (any_boolish src)
    cond0 ← randrange src 0 3
    not1 ← src.chance 30
    var1 ← when on 0 (any_boolish src)
    cond1 ← randrange src 0 3
    not2 ← src.chance 30
    var2 ← when on 0 (maybe_boolish src)
    mode ← choice src 0 (0 ∷ 0 ∷ 1 ∷ [])
    done (record {
      enabled = on;
      not0 = not0;
      var0 = var0;
      cond0 = cond0;
      not1 = not1;
      var1 = var1;
      cond1 = cond1;
      not2 = not2;
      var2 = var2;
      mode = mode;
    })

  -- A counter reads no output of its own. (0 is none.)
  unfoldable pub gen_counter : (own : ℕ) → Gen R CounterConfig
  unfolding randrange choice without
  gen_counter own = do
    inc ← choice src 0 (without own boolish)
    dec ← choice src 0 (without own boolish ++ (0 ∷ 0 ∷ []))
    reset ← choice src 0 (without own boolish ++ (0 ∷ 0 ∷ []))
    lo ← choice src 0 (0 ∷ 1 ∷ [])
    hi ← choice src 1 (2 ∷ 3 ∷ 5 ∷ 10 ∷ [])
    inc_edge ← randrange src 0 3
    dec_edge ← randrange src 0 3
    reset_edge ← randrange src 0 3
    wrap ← src.chance 50
    hold ← src.chance 30
    hold_ms ← choice src 50 (200 ∷ 2000 ∷ [])
    done (record {
      enabled = true;
      inc_input = inc;
      dec_input = dec;
      reset_input = reset;
      min_count = lo;
      max_count = hi;
      inc_edge = inc_edge;
      dec_edge = dec_edge;
      reset_edge = reset_edge;
      wrap_around = wrap;
      hold_to_reset = hold;
      reset_time = hold_ms;
    })

  unfoldable pub gen_flasher : Gen R FlasherConfig
  unfolding choice
  gen_flasher = do
    input ← any_boolish src
    on ← choice src 10 (50 ∷ 350 ∷ [])
    off ← choice src 10 (50 ∷ 350 ∷ [])
    single ← src.chance 50
    done (record { enabled = true; input = input; on_time = on; off_time = off; single = single })

  unfoldable pub gen_output : Gen R OutputConfig
  unfolding choice
  gen_output = do input ← any_boolish src; done (record { enabled = true; input = input })

  unfoldable pub gen_dig_in : Gen R InputConfig
  unfolding choice
  gen_dig_in = do
    mode ← choice src 0 (0 ∷ 1 ∷ [])
    invert ← src.chance 50
    debounce ← choice src 0 (4 ∷ 20 ∷ [])
    done (record { enabled = true; mode = mode; invert = invert; debounce_time = debounce })

  -- The groups, as lists.
  unfoldable pub gen_virts : Gen R (List VirtualInputConfig)
  unfolding times gen_virt
  gen_virts = times 16 0 (λ i. gen_virt (ltb i 8))

  unfoldable pub gen_counters : Gen R (List CounterConfig)
  unfolding times gen_counter
  gen_counters = times 4 0 (λ i. gen_counter (155 + i))

  unfoldable pub gen_flashers : Gen R (List FlasherConfig)
  unfolding times gen_flasher
  gen_flashers = times 4 0 (λ i. gen_flasher)

  unfoldable pub gen_outputs : Gen R (List OutputConfig)
  unfolding times gen_output
  gen_outputs = times 8 0 (λ i. gen_output)

  unfoldable pub gen_dig_ins : Gen R (List InputConfig)
  unfolding times gen_dig_in
  gen_dig_ins = times 2 0 (λ i. gen_dig_in)

module _ {W R : Type 0} (d : Double W) (src : Source R) where
  -- 0.5
  abbrev pub half : W
  half = d.div (of_ℕ d 1) (of_ℕ d 2)

  -- One of the first eight CAN inputs. The operators 6 and 7 are on unsigned values.
  unfoldable pub gen_can_in : Gen R (CanInputConfig W)
  unfolding randrange choice
  gen_can_in = do
    op ← randrange src 0 8
    sgn ← src.chance 20
    timeout_enabled ← src.chance 30
    timeout ← choice src 100 (500 ∷ 1000 ∷ [])
    id ← any_id src
    start ← randrange src 0 56
    length ← choice src 1 (1 ∷ 1 ∷ 4 ∷ 8 ∷ 16 ∷ [])
    factor ← choice src (of_ℕ d 1) (of_ℕ d 1 ∷ half ∷ of_ℕ d 2 ∷ [])
    order ← choice src 0 (0 ∷ 0 ∷ 1 ∷ [])
    operand ← choice src 0 (1 ∷ 2 ∷ 15 ∷ [])
    mode ← choice src 0 (0 ∷ 0 ∷ 1 ∷ [])
    done (record {
      enabled = true;
      timeout_enabled = timeout_enabled;
      timeout = timeout;
      ide = 0;
      id = id;
      start_bit = start;
      bit_length = length;
      factor = factor;
      offset = of_ℕ d 0;
      byte_order = order;
      signed = not (op == 6 || op == 7) && sgn;
      operator = op;
      operand = of_ℕ d operand;
      mode = mode;
    })

  -- The CAN inputs after them.
  abbrev pub off_can_in : CanInputConfig W
  off_can_in = record {
    enabled = false;
    timeout_enabled = false;
    timeout = 1000;
    ide = 0;
    id = 0;
    start_bit = 0;
    bit_length = 8;
    factor = of_ℕ d 1;
    offset = of_ℕ d 0;
    byte_order = 0;
    signed = false;
    operator = 0;
    operand = of_ℕ d 0;
    mode = 0;
  }

  unfoldable pub gen_cond : (on : Bool) → Gen R (ConditionConfig W)
  unfolding choice when
  gen_cond on = do
    input ← when on 0 (choice src 8 (numeric ++ (0 ∷ boolish)))
    operator ← when on 0 (choice src 0 (1 ∷ 2 ∷ 3 ∷ 4 ∷ 5 ∷ 6 ∷ []))
    arg ← choice src 0 (1 ∷ 2 ∷ 3 ∷ 15 ∷ [])
    done (record { enabled = on; input = input; operator = operator; arg = of_ℕ d arg })

  unfoldable pub gen_can_out : (on : Bool) (i : ℕ) → Gen R (CanOutputConfig W)
  unfolding randrange choice when
  gen_can_out on i = do
    input ← when on 0 (any_boolish src)
    id ← randrange src 0 2
    done (record {
      enabled = on;
      input = input;
      ide = 0;
      id = 0x300 + id;
      start_bit = if on then i * 8 else 0;
      bit_length = 8;
      factor = of_ℕ d 1;
      offset = of_ℕ d 0;
      byte_order = 0;
      interval = 100;
    })

  unfoldable pub gen_can_ins : Gen R (List (CanInputConfig W))
  unfolding times when gen_can_in
  gen_can_ins = times 32 0 (λ i. when (ltb i 8) off_can_in gen_can_in)

  unfoldable pub gen_conds : Gen R (List (ConditionConfig W))
  unfolding times gen_cond
  gen_conds = times 32 0 (λ i. gen_cond (ltb i 8))

  unfoldable pub gen_can_outs : Gen R (List (CanOutputConfig W))
  unfolding times gen_can_out
  gen_can_outs = times 32 0 (λ i. gen_can_out (ltb i 6) i)

  -- The slots of gen_config.
  unfoldable pub gen_slots : Gen R (DeviceConfig W)
  gen_slots = do
    can_ins ← gen_can_ins
    virts ← gen_virts src
    conds ← gen_conds
    counters ← gen_counters src
    flashers ← gen_flashers src
    outputs ← gen_outputs src
    can_outs ← gen_can_outs
    dig_ins ← gen_dig_ins src
    done (record {
      board = dingopdm_v7;
      outputs = outputs;
      inputs = dig_ins;
      can_inputs = can_ins;
      can_outputs = can_outs;
      virtual_inputs = virts;
      conditions = conds;
      counters = counters;
      flashers = flashers;
    })
