-- ===== src/Output.antt =====
-- `Sim._profet` of fwmodel/model/dingosim.py (profet.cpp Profet::Update with no current).
use dingo_cli.Prelude.{ℕ, ◌+◌, ◌*◌, Bool, true, false, List, if◌then◌else◌}
use dingo_cli.Prelude.Results.{Result, ok, ◌>>=◌}
use dingo_cli.Double.{Double, of_ℕ, truth}
use dingo_cli.Vars.{read, write}

-- The fields of the current limits are read by nothing here.
pub record OutputConfig : Type 0 where
  pub enabled : Bool
  pub input : ℕ

-- ProfetState, of which only 0 and 1 are reached.
pub data OutputState : Type 0 where
  off on : OutputState

unfoldable pub next_state : OutputState → (req_on : Bool) → OutputState
next_state off true = on
next_state off false = off
next_state on true = on
next_state on false = off

module _ {W : Type 0} (d : Double W) where
  abbrev pub active : OutputState → W
  active off = of_ℕ d 0
  active on = of_ℕ d 1

  -- Active, and the current, overcurrent and fault, which stay 0.
  unfoldable pub put_output : (idx : ℕ) → OutputState → List W → Result (OutputState × List W)
  unfolding write
  put_output idx state vars = do
    vars1 ← write vars idx (active state)
    vars2 ← write vars1 (idx + 1) (of_ℕ d 0)
    vars3 ← write vars2 (idx + 2) (of_ℕ d 0)
    vars4 ← write vars3 (idx + 3) (of_ℕ d 0)
    ok (state, vars4)

  -- Sim._profet
  unfoldable pub profet :
      (base i : ℕ) → OutputConfig → OutputState → List W → Result (OutputState × List W)
  unfolding put_output read next_state
  profet base i c state vars =
      if c.enabled
      then (do
        input ← read vars c.input
        put_output (base + 4 * i) (next_state state (truth d input)) vars)
      else put_output (base + 4 * i) off vars
