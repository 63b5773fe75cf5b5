-- ===== src/DigitalInput/Debounce.antt =====
-- What reaches the var map of a pin that bounces.
use dingo_cli.Prelude.{
  ℕ, zero, suc, ◌+◌, ◌*◌, ◌≤◌, ◌≡◌, refl, ap, ◌∙◌, Bool, true, false, not, xor, List, [], ◌∷◌, ◌++◌,
  length, replicate, arith, ltb, if◌then◌else◌,
}
use dingo_cli.Enums.{cycle_ms}
use dingo_cli.Latch.{InputLatch, check}
use dingo_cli.DigitalInput.{InputConfig, InputState, input_update}

-- Successive cycles of an enabled input, from the time `now` on.
unfoldable pub input_run : InputConfig → (now : ℕ) → List Bool → InputState → InputState
input_run c now [] s = s
input_run c now (pin ∷ pins) s = input_run c (now + cycle_ms) pins (input_update c now pin s).0

pub input_run-append :
    (c : InputConfig) (now : ℕ) (xs ys : List Bool) (s : InputState)
    → input_run c now (xs ++ ys) s
      ≡ input_run c (now + cycle_ms * length xs) ys (input_run c now xs s)
unfolding input_run
input_run-append c now [] ys s = ap (λ t. input_run c t ys s) (omega arith)
input_run-append c now (x ∷ xs) ys s =
    input_run-append c (now + cycle_ms) xs ys (input_update c now x s).0
    ∙ ap (λ t. input_run c t ys (input_run c (now + cycle_ms) xs (input_update c now x s).0))
        (omega arith)

module _ (c : InputConfig) (pin : Bool) where
  -- The input has been started, and saw the pin at this level last.
  record Saw (s : InputState) : Type 0 where
    started : s.started ≡ true
    last : s.last ≡ pin

  input_run_settled :
      (n now : ℕ) (s : InputState)
      → Saw s
      → s.checking ≡ false
      → (input_run c now (replicate n pin) s).latch ≡ s.latch
  unfolding input_run input_update
  input_run_settled zero now s h q = refl
  input_run_settled (suc n) now s h q =
      ground (arith, input_run_settled n (now + cycle_ms) (input_update c now pin s).0)

  input_run_pending :
      (n e now : ℕ) (s : InputState)
      → Saw s
      → s.checking ≡ true
      → now ≡ s.trig + e
      → (input_run c now (replicate (suc n) pin) s).latch
        ≡ (if ltb c.debounce_time (e + 2 * n) then check c.mode c.invert pin s.latch else s.latch)
  unfolding input_run input_update
  input_run_pending zero e now s h q t = ground arith
  input_run_pending (suc n) e now s h q t = ground (
    arith,
    input_run_settled (suc n) (now + cycle_ms) (input_update c now pin s).0,
    input_run_pending n (e + 2) (now + cycle_ms) (input_update c now pin s).0,
  )

  -- A started input whose pin changes level and stays there for `n` further cycles of 2 ms checks its
  -- latch once if those are longer than the debounce time, and not at all otherwise.
  pub input_run_change :
      (n now : ℕ) (s : InputState)
      → s.started ≡ true
      → xor pin s.last ≡ true
      → (input_run c now (replicate (suc n) pin) s).latch
        ≡ (if ltb c.debounce_time (2 * n) then check c.mode c.invert pin s.latch else s.latch)
  unfolding input_run input_update
  input_run_change zero now s h x = ground arith
  input_run_change (suc n) now s h x =
      ground (arith, input_run_pending n 2 (now + cycle_ms) (input_update c now pin s).0)

  input_run-Saw : (n now : ℕ) (s : InputState) → Saw (input_run c now (replicate (suc n) pin) s)
  unfolding input_run input_update
  input_run-Saw zero now s = ground arith
  input_run-Saw (suc n) now s = input_run-Saw n (now + cycle_ms) (input_update c now pin s).0

check_again :
    (mode : ℕ) (invert pin : Bool) (latch : InputLatch)
    → latch.b_last ≡ xor pin invert
    → check mode invert pin latch ≡ latch
unfolding check
check_again mode invert pin latch h = ground arith

-- A glitch never reaches the latch of a started input whose latch agrees with its pin: the pin leaves
-- its level for `n + 1` cycles, where `n` cycles are not longer than the debounce time, comes back, and
-- stays for any number of cycles.
pub input_run_glitch :
    (c : InputConfig) (pin : Bool) (n m now : ℕ) (s : InputState)
    → s.started ≡ true
    → s.last ≡ pin
    → s.latch.b_last ≡ xor pin c.invert
    → cycle_ms * n ≤ c.debounce_time
    → (input_run c now (replicate (suc n) (not pin) ++ replicate (suc m) pin) s).latch ≡ s.latch
input_run_glitch c pin n m now s started last seen short =
    let away = input_run c now (replicate (suc n) (not pin)) s in
    let saw = input_run-Saw c (not pin) n now s in
    let later = now + cycle_ms * length (replicate (suc n) (not pin)) in
    ground (
      arith,
      input_run-append c now (replicate (suc n) (not pin)) (replicate (suc m) pin) s,
      input_run_change c (not pin) n now s,
      input_run_change c pin m later away,
      check_again c.mode c.invert pin s.latch,
    )
