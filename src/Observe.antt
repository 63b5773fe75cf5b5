-- ===== src/Observe.antt =====
-- `Sim.observe` of fwmodel/model/dingosim.py: what a pin or the bus shows after a cycle.
pub mod Outputs
pub mod Names
use dingo_cli.Prelude.{
  ℕ, zero, suc, ◌+◌, Bool, true, false, ◌&&◌, Option, none, some, List, [], ◌∷◌, ◌++◌, ◌==◌,
  if◌then◌else◌,
}
use dingo_cli.Prelude.Results.{Result, ok, raise, index_error, key_error, or_raise, ◌>>=◌}
use dingo_cli.Vars.{read}
use dingo_cli.Board.{Board, index}
use dingo_cli.Board.Names.{Name, codes, decimal}
use dingo_cli.CanOutput.{CanOutputConfig}
use dingo_cli.Config.{DeviceConfig}
use dingo_cli.Sim.{Sim}

-- The keys: f"out{i}", and f"can:{ide}:{id}:{startBit}:{bitLength}".
pub data Signal : Type 0 where
  out : (number : ℕ) → Signal
  can : (ide id start_bit bit_length : ℕ) → Signal

abbrev pub same_signal : Signal → Signal → Bool
same_signal (out i) (out j) = i == j
same_signal (can ide id start len) (can ide' id' start' len') =
    ide == ide' && (id == id' && (start == start' && len == len'))
same_signal _ _ = false

abbrev pub Observation : Type 0 → Type 0
Observation W = List (Signal × W)

unfoldable pub active_name : ℕ → Name
active_name i = codes "Out" ++ decimal i ++ codes "Active"

module _ {W : Type 0} where
  unfoldable pub signal_value : Signal → Observation W → Option W
  signal_value key [] = none
  signal_value key ((k, x) ∷ rest) = if same_signal k key then some x else signal_value key rest

  -- o[key] = x
  unfoldable pub put : Signal → W → Observation W → Observation W
  put key x [] = (key, x) ∷ []
  put key x ((k, y) ∷ rest) = if same_signal k key then (k, x) ∷ rest else (k, y) ∷ put key x rest

  -- The outputs from number `i` on, `left` of them.
  unfoldable pub observe_outputs :
      Board → (vars : List W) (i left : ℕ) → Observation W → Result (Observation W)
  unfolding index read put active_name
  observe_outputs b vars i zero o = ok o
  observe_outputs b vars i (suc left) o = do
    idx ← or_raise key_error (index b (active_name i))
    x ← read vars idx
    observe_outputs b vars (suc i) left (put (out i) x o)

  -- The samples of the enabled CAN outputs.
  unfoldable pub observe_can :
      List (CanOutputConfig W) → (samples : List W) → Observation W → Result (Observation W)
  unfolding put
  observe_can [] samples o = ok o
  observe_can (c ∷ cs) [] o = if c.enabled then raise index_error else observe_can cs [] o
  observe_can (c ∷ cs) (x ∷ xs) o =
      if c.enabled
      then observe_can cs xs (put (can c.ide c.id c.start_bit c.bit_length) x o)
      else observe_can cs xs o

  -- Sim.observe
  unfoldable pub observe : DeviceConfig W → Sim W → Result (Observation W)
  unfolding observe_outputs observe_can
  observe c s = do
    o ← observe_outputs c.board s.vars 1 c.board.num_outputs []
    observe_can c.can_outputs s.samples o
