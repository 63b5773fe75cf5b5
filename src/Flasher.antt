-- ===== src/Flasher.antt =====
-- `Sim._flasher` of fwmodel/model/dingosim.py (flasher.cpp Flasher::Update).
pub mod Timing
use dingo_cli.Prelude.{ℕ, ◌+◌, ◌≡◌, Bool, true, false, ◌&&◌, List, [], ◌∷◌, ltb, if◌then◌else◌}
use dingo_cli.Prelude.Results.{Result, ok, ◌>>=◌}
use dingo_cli.Enums.{cycle_ms}
use dingo_cli.Double.{Double, of_ℕ, truth}
use dingo_cli.Vars.{read, write}

-- The field `single` is read by nothing.
pub record FlasherConfig : Type 0 where
  pub enabled : Bool
  pub input : ℕ
  pub on_time : ℕ
  pub off_time : ℕ
  pub single : Bool

-- _fl_on[i] and _fl_off[i]
pub record FlasherState : Type 0 where
  pub on_at : ℕ
  pub off_at : ℕ

abbrev pub flasher_init : FlasherState
flasher_init = record { on_at = 0; off_at = 0 }

module _ {W : Type 0} (d : Double W) where
  open d use {eq}

  unfoldable pub turn_on : FlasherConfig → (now : ℕ) → FlasherState × W → FlasherState × W
  turn_on c now (s, value) =
      if eq value (of_ℕ d 0) && ltb (s.off_at + c.off_time) now
      then (record s { on_at = now }, of_ℕ d 1)
      else (s, value)

  unfoldable pub turn_off : FlasherConfig → (now : ℕ) → FlasherState × W → FlasherState × W
  turn_off c now (s, value) =
      if eq value (of_ℕ d 1) && ltb (s.on_at + c.on_time) now
      then (record s { off_at = now }, of_ℕ d 0)
      else (s, value)

  -- Sim._flasher of an enabled slot, from its input on.
  unfoldable pub flasher_update :
      FlasherConfig → (now : ℕ) (input : Bool) → FlasherState × W → FlasherState × W
  unfolding turn_on turn_off
  flasher_update c now input (s, value) =
      if input then turn_off c now (turn_on c now (s, value)) else (s, of_ℕ d 0)

  -- Sim._flasher
  unfoldable pub flasher :
      (base now i : ℕ) → FlasherConfig → FlasherState → List W → Result (FlasherState × List W)
  unfolding flasher_update read write
  flasher base now i c s vars =
      if c.enabled
      then (do
        input ← read vars c.input
        value ← read vars (base + i)
        let next = flasher_update c now (truth d input) (s, value)
        vars' ← write vars (base + i) next.1
        ok (next.0, vars'))
      else (do vars' ← write vars (base + i) (of_ℕ d 0); ok (s, vars'))
