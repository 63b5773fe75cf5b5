-- ===== src/DigitalInput.antt =====
-- `Sim._digin` of fwmodel/model/dingosim.py (digital_input.cpp Digital_Input::Update).
pub mod Debounce
use dingo_cli.Prelude.{
  ℕ, ◌+◌, ◌≡◌, Bool, true, false, not, xor, ◌&&◌, ◌||◌, List, [], ◌∷◌, ltb, if◌then◌else◌,
}
use dingo_cli.Prelude.Results.{Result, ok, ◌>>=◌}
use dingo_cli.Enums.{cycle_ms}
use dingo_cli.Double.{Double, of_ℕ, of_bool}
use dingo_cli.Latch.{InputLatch, released, check}
use dingo_cli.Vars.{write}

-- The field `pull` is read by nothing.
pub record InputConfig : Type 0 where
  pub enabled : Bool
  pub mode : ℕ
  pub invert : Bool
  pub debounce_time : ℕ

-- _din_latch[i], _din_last[i], _din_check[i], _din_trig[i], _din_init[i]
pub record InputState : Type 0 where
  pub latch : InputLatch
  pub last : Bool
  pub checking : Bool
  pub trig : ℕ
  pub started : Bool

abbrev pub input_init : InputState
input_init = record { latch = released; last = false; checking = false; trig = 0; started = false }

-- The change of the pin, noted with its time.
unfoldable pub notice : (now : ℕ) (pin : Bool) → InputState → InputState
notice now pin s =
    if xor pin s.last
    then record s { last = pin; trig = now; checking = true }
    else record s { last = pin }

-- The pin has been stable for longer than the debounce time, or the input has just been started.
unfoldable pub settled : InputConfig → (now : ℕ) → InputState → Bool
settled c now s = s.checking && ltb (s.trig + c.debounce_time) now || not s.started

-- Sim._digin of an enabled slot: the new state, and the level to write, if there is one.
unfoldable pub input_update : InputConfig → (now : ℕ) (pin : Bool) → InputState → InputState × Bool
unfolding notice settled
input_update c now pin s =
    let s' = notice now pin s in
    let writes = settled c now s' in
    (
      record s' {
        latch = if writes then check c.mode c.invert pin s'.latch else s'.latch;
        checking = if writes then false else s'.checking;
        started = true;
      },
      writes,
    )

module _ {W : Type 0} (d : Double W) where
  -- Sim._digin
  unfoldable pub digin :
      (base now : ℕ) (pin : ℕ → Bool) (i : ℕ)
      → InputConfig
      → InputState
      → List W
      → Result (InputState × List W)
  unfolding input_update write check
  digin base now pin i c s vars =
      if c.enabled
      then (let (s', writes) = input_update c now (pin i) s in
          if writes
          then (do vars' ← write vars (base + i) (of_bool d s'.latch.b_out); ok (s', vars'))
          else ok (s', vars))
      else (do vars' ← write vars (base + i) (of_ℕ d 0); ok (s, vars'))
