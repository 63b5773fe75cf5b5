-- ===== src/Sim.antt =====
-- `Sim` of fwmodel/model/dingosim.py: the device, and its cycle. Digital outputs, analogue inputs, the
-- wiper and the starter (steps 4, 5, 9 and 10) do nothing there.
pub mod Shape
pub mod Slots
pub mod Categories
pub mod Safety
pub mod Start
pub mod Delay
use dingo_cli.Prelude.{ℕ, zero, suc, ◌+◌, Bool, Option, List, [], ◌∷◌, ◌++◌, replicate, set}
use dingo_cli.Prelude.Results.{Result, ok, raise, key_error, or_raise, ◌>>=◌}
use dingo_cli.Double.{Double, of_ℕ}
use dingo_cli.Enums.{cycle_ms}
use dingo_cli.Vars.{read, write, run_slots}
use dingo_cli.Board.{
  Board, can_in, dig_in, virt_in, output, flasher, condition, counter, base, size, index,
}
use dingo_cli.Board.Names.{Name, codes, decimal}
use dingo_cli.Latch.{InputLatch, released}
use dingo_cli.Output as Output
use dingo_cli.Output.{OutputState, off, profet}
use dingo_cli.DigitalInput.{InputState, input_init, digin}
use dingo_cli.CanInput.{CanInputState, can_input_init, RxFrame, drain_rx, check_timeout}
use dingo_cli.CanOutput.{CanOutputConfig, TxFrame, Sent, init_can_frames, can_outputs}
use dingo_cli.VirtualInput.{virtin}
use dingo_cli.Condition as Condition
use dingo_cli.Counter as Counter
use dingo_cli.Counter.{CounterState, counter_init}
use dingo_cli.Flasher as Flasher
use dingo_cli.Flasher.{FlasherState, flasher_init}
use dingo_cli.Config.{DeviceConfig, validate_refs}

-- The device, without its config; the logic latches are those of the virtual inputs.
pub record Sim (W : Type 0) : Type 0 where
  pub vars : List W
  pub time_ms : ℕ
  pub inputs : List InputState
  pub can_inputs : List CanInputState
  pub latches : List InputLatch
  pub outputs : List OutputState
  pub flashers : List FlasherState
  pub counters : List CounterState
  pub samples : List W
  pub assigned : List (Option ℕ)
  pub frames : List TxFrame
  pub tx : List Sent

module _ {W : Type 0} (d : Double W) where
  -- var[b.index(name)] = x
  unfoldable pub put_named : Board → Name → W → List W → Result (List W)
  unfolding write index
  put_named b name x vars = do i ← or_raise key_error (index b name); write vars i x

  -- The var map of a device that has been switched on.
  unfoldable pub init_vars : Board → Result (List W)
  unfolding put_named
  init_vars b = do
    vars1 ← put_named b (codes "AlwaysFalse") (of_ℕ d 0) (replicate (size b) (of_ℕ d 0))
    vars2 ← put_named b (codes "AlwaysTrue") (of_ℕ d 1) vars1
    put_named b (codes "State") (of_ℕ d 0) vars2

  -- The other fields of a device that has been switched on.
  unfoldable pub start : DeviceConfig W → List W → Sim W
  unfolding init_can_frames
  start c vars = record {
    vars = vars;
    time_ms = 0;
    inputs = replicate c.board.num_dig_inputs input_init;
    can_inputs = replicate c.board.num_can_inputs can_input_init;
    latches = replicate c.board.num_virt_inputs released;
    outputs = replicate c.board.num_outputs off;
    flashers = replicate c.board.num_flashers flasher_init;
    counters = replicate c.board.num_counters counter_init;
    samples = replicate c.board.num_can_outputs (of_ℕ d 0);
    assigned = (init_can_frames c.can_outputs []).0;
    frames = (init_can_frames c.can_outputs []).1;
    tx = [];
  }

  -- Sim.__init__
  unfoldable pub init : DeviceConfig W → Result (Sim W)
  unfolding init_vars validate_refs start
  init c = do vars ← init_vars c.board; accepted ← validate_refs c; ok (start c vars)

  -- Sim.step. `pins i` is the level of the digital input in slot `i`, which `pins.get(i + 1, 0)` is.
  unfoldable pub step :
      DeviceConfig W → (pins : ℕ → Bool) → List RxFrame → (ext_ide : ℕ) → Sim W → Result (Sim W)
  unfolding base drain_rx run_slots check_timeout can_outputs
  step c pins rx ext_ide s = do
    let b = c.board
    let now = s.time_ms
    (rx_states, vars1) ← drain_rx d (base b can_in) now ext_ide c.can_inputs rx s.can_inputs s.vars
    (outputs, vars2) ← run_slots (profet d (base b output)) 0 c.outputs s.outputs vars1
    (inputs, vars3) ← run_slots (digin d (base b dig_in) now pins) 0 c.inputs s.inputs vars2
    (can_states, vars4) ←
        run_slots (check_timeout d (base b can_in) now) 0 c.can_inputs rx_states vars3
    (samples, (frames, tx)) ← can_outputs d now c.can_outputs s.assigned vars4 s.samples s.frames
    (latches, vars5) ← run_slots (virtin d (base b virt_in)) 0 c.virtual_inputs s.latches vars4
    (flashers, vars6) ←
        run_slots (Flasher.flasher d (base b flasher) now) 0 c.flashers s.flashers vars5
    (counters, vars7) ←
        run_slots (Counter.counter d (base b counter) now) 0 c.counters s.counters vars6
    (nothing, vars8) ←
        run_slots (Condition.condition d (base b condition)) 0 c.conditions
          (replicate c.board.num_conditions tt) vars7
    ok (record {
      vars = vars8;
      time_ms = now + cycle_ms;
      inputs = inputs;
      can_inputs = can_states;
      latches = latches;
      outputs = outputs;
      flashers = flashers;
      counters = counters;
      samples = samples;
      assigned = s.assigned;
      frames = frames;
      tx = tx;
    })
