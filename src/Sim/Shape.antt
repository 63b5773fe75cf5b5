-- ===== src/Sim/Shape.antt =====
-- The invariant of `Sim`: the sizes that `__init__` sets up, and what a config has to promise.
use dingo_cli.Prelude.{ℕ, ◌≡◌, true, false, ◌≤◌, length, get_elem?, some}
use dingo_cli.Double.{Double, of_ℕ}
use dingo_cli.Board.{size}
use dingo_cli.CanInput.{CanInputConfig}
use dingo_cli.CanOutput.{CanOutputConfig, is_sent}
use dingo_cli.CanOutput.Sampling.{Packs, Paired, AreFrames}
use dingo_cli.Condition.{ConditionConfig}
use dingo_cli.Dbc.Total.{EndsInFrame}
use dingo_cli.Config.{DeviceConfig}
use dingo_cli.Config.Accepted.{ReadsInRange, Slots}
use dingo_cli.Sim.{Sim}
use dingo_cli.Sim.Slots.Can.{is_bitwise}

module _ {W : Type 0} (c : DeviceConfig W) where
  -- `load_device` fills each group up to the board's count.
  pub record IsFull : Type 0 where
    pub outputs : length c.outputs ≡ c.board.num_outputs
    pub inputs : length c.inputs ≡ c.board.num_dig_inputs
    pub can_inputs : length c.can_inputs ≡ c.board.num_can_inputs
    pub can_outputs : length c.can_outputs ≡ c.board.num_can_outputs
    pub virtual_inputs : length c.virtual_inputs ≡ c.board.num_virt_inputs
    pub conditions : length c.conditions ≡ c.board.num_conditions
    pub counters : length c.counters ≡ c.board.num_counters
    pub flashers : length c.flashers ≡ c.board.num_flashers

  -- The config of a device that runs: full, reading variables of the map, and with the fields of the
  -- CAN outputs inside their frames.
  pub record IsSound : Type 0 where
    pub full : IsFull
    pub reads : ReadsInRange c
    pub ends :
        Slots
          (λ s. is_sent s ≡ true → EndsInFrame s.start_bit s.bit_length s.byte_order)
          c.can_outputs

  -- The state has an entry per slot, and frames of eight bytes.
  pub record IsShaped (s : Sim W) : Type 0 where
    pub vars : length s.vars ≡ size c.board
    pub inputs : length s.inputs ≡ c.board.num_dig_inputs
    pub can_inputs : length s.can_inputs ≡ c.board.num_can_inputs
    pub latches : length s.latches ≡ c.board.num_virt_inputs
    pub outputs : length s.outputs ≡ c.board.num_outputs
    pub flashers : length s.flashers ≡ c.board.num_flashers
    pub counters : length s.counters ≡ c.board.num_counters
    pub samples : length s.samples ≡ c.board.num_can_outputs
    pub assigned : length s.assigned ≡ c.board.num_can_outputs
    pub paired : Paired c.can_outputs s.assigned
    pub frames : AreFrames s.frames

-- The config has a slot that converts a float to an integer: a bitwise operator on a CAN input or a
-- condition, or a field of a CAN output.
pub data Converts {W : Type 0} (d : Double W) (c : DeviceConfig W) : Type 0 where
  by_can_input :
      (i : ℕ) (s : CanInputConfig W)
      → get_elem? c.can_inputs i ≡ some s
      → s.enabled ≡ true
      → is_bitwise s.operator ≡ true
      → Converts d c
  by_condition :
      (i : ℕ) (s : ConditionConfig W)
      → get_elem? c.conditions i ≡ some s
      → s.enabled ≡ true
      → is_bitwise s.operator ≡ true
      → Converts d c
  by_can_output :
      (i : ℕ) (s : CanOutputConfig W)
      → get_elem? c.can_outputs i ≡ some s
      → is_sent s ≡ true
      → s.bit_length ≤ 32
      → d.eq s.factor (of_ℕ d 0) ≡ false
      → Converts d c

pub IsSound-Packs :
    {W : Type 0} (d : Double W) (c : DeviceConfig W)
    → IsSound c
    → Slots (Packs d (Converts d c) (size c.board)) c.can_outputs
IsSound-Packs d c h i s k = record {
  reads = h.reads.can_outputs i s k;
  ends = h.ends i s k;
  converts = by_can_output i s k;
}
