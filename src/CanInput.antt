-- ===== src/CanInput.antt =====
-- The CAN inputs of fwmodel/model/dingosim.py (can_input.cpp CanInput::CheckMsg, CheckTimeout): steps
-- 1 and 6 of `Sim.step`. A slot has two entries of the var map, the output and the value.
use dingo_cli.Prelude.{
  ℕ, ◌+◌, ◌*◌, Bool, true, false, not, ◌&&◌, List, [], ◌∷◌, ltb, ◌==◌, if◌then◌else◌,
}
use dingo_cli.Prelude.Results.{Result, ok, ◌>>=◌}
use dingo_cli.Double.{Double, of_ℕ, of_bool}
use dingo_cli.Latch.{InputLatch, released, check}
use dingo_cli.Condition.{cmp}
use dingo_cli.Dbc.{decode_float}
use dingo_cli.Vars.{write, run_slots}

pub record CanInputConfig (W : Type 0) : Type 0 where
  pub enabled : Bool
  pub timeout_enabled : Bool
  pub timeout : ℕ
  pub ide : ℕ
  pub id : ℕ
  pub start_bit : ℕ
  pub bit_length : ℕ
  pub factor : W
  pub offset : W
  pub byte_order : ℕ
  pub signed : Bool
  pub operator : ℕ
  pub operand : W
  pub mode : ℕ

-- _cin_latch[i] and _cin_last_rx[i]
pub record CanInputState : Type 0 where
  pub latch : InputLatch
  pub last_rx : ℕ

abbrev pub can_input_init : CanInputState
can_input_init = record { latch = released; last_rx = 0 }

-- A received frame: its identifier and its bytes.
abbrev pub RxFrame : Type 0
RxFrame = ℕ × List ℕ

module _ {W : Type 0} (d : Double W) where
  unfoldable pub accepts : (ext_ide : ℕ) → RxFrame → CanInputConfig W → Bool
  accepts ext_ide (fid, payload) c =
      c.enabled && (c.ide == ext_ide && (c.id == fid && not (c.bit_length == 0)))

  -- One slot against one received frame.
  unfoldable pub receive :
      (base now ext_ide : ℕ)
      → RxFrame
      → (i : ℕ) → CanInputConfig W
      → CanInputState
      → List W
      → Result (CanInputState × List W)
  receive base now ext_ide (fid, payload) i c s vars =
      if accepts ext_ide (fid, payload) c
      then (do
        let val =
            decode_float d payload c.start_bit c.bit_length c.factor c.offset c.byte_order c.signed
        vars1 ← write vars (base + 2 * i + 1) val
        res ← cmp d c.operator val c.operand true
        let latch = check c.mode false res s.latch
        vars2 ← write vars1 (base + 2 * i) (of_bool d latch.b_out)
        ok (record { latch = latch; last_rx = now }, vars2))
      else ok (s, vars)

  -- Every frame of the cycle, in order, against every slot.
  unfoldable pub drain_rx :
      (base now ext_ide : ℕ)
      → List (CanInputConfig W)
      → List RxFrame
      → List CanInputState
      → List W
      → Result (List CanInputState × List W)
  drain_rx base now ext_ide cs [] ss vars = ok (ss, vars)
  drain_rx base now ext_ide cs (frame ∷ frames) ss vars = do
    (ss', vars') ← run_slots (receive base now ext_ide frame) 0 cs ss vars
    drain_rx base now ext_ide cs frames ss' vars'

  -- A slot that has heard nothing for longer than its timeout reads 0.
  unfoldable pub check_timeout :
      (base now i : ℕ) → CanInputConfig W → CanInputState → List W → Result (CanInputState × List W)
  check_timeout base now i c s vars =
      if c.enabled && c.timeout_enabled && ltb (s.last_rx + c.timeout) now
      then (do
        vars1 ← write vars (base + 2 * i) (of_ℕ d 0)
        vars2 ← write vars1 (base + 2 * i + 1) (of_ℕ d 0)
        ok (s, vars2))
      else ok (s, vars)
