-- ===== src/Flasher/Timing.antt =====
-- How long a flasher stays on and off.
use dingo_cli.Prelude.{
  ℕ, zero, suc, ◌+◌, ◌*◌, ◌≤◌, ◌<◌, ◌≡◌, refl, ap, ◌∙◌, Bool, true, false, not, ◌&&◌, arith, ltb,
  if◌then◌else◌,
}
use dingo_cli.Enums.{cycle_ms}
use dingo_cli.Double.{Double, of_ℕ, of_bool}
use dingo_cli.Double.Truth.{eq-of_ℕ}
use dingo_cli.Flasher.{FlasherConfig, FlasherState, flasher_update}

-- The flasher over a flag: it lights when it was off for longer than `off_time`, and goes out when
-- it was lit for longer than `on_time`.
abbrev pub blink : FlasherConfig → (now : ℕ) (input lit : Bool) → FlasherState → Bool
blink c now input lit s =
    if input
    then (if lit then not (ltb (s.on_at + c.on_time) now) else ltb (s.off_at + c.off_time) now)
    else false

module _ {W : Type 0} (d : Double W) (c : FlasherConfig) where
  -- An enabled flasher holds 0 or 1, and changes exactly as `blink` says. It notes the time of each
  -- change that its clock makes, and neither is noted when the input goes off.
  pub flasher_update-blink :
      (now : ℕ) (input lit : Bool) (s : FlasherState)
      → let lit' = blink c now input lit s in
        flasher_update d c now input (s, of_bool d lit) ≡ (
          record {
            on_at = if not lit && lit' then now else s.on_at;
            off_at = if lit && (input && not lit') then now else s.off_at;
          },
          of_bool d lit',
        )
  unfolding flasher_update
  flasher_update-blink now input lit s =
      ground (arith, eq-of_ℕ d 0 0, eq-of_ℕ d 0 1, eq-of_ℕ d 1 0, eq-of_ℕ d 1 1)

  -- Cycles in which the input stays on, from the time `now` on.
  unfoldable pub flasher_run : (n now : ℕ) → FlasherState × W → FlasherState × W
  flasher_run zero now x = x
  flasher_run (suc n) now x = flasher_run n (now + cycle_ms) (flasher_update d c now true x)

  -- A flasher that lit in the cycle before `now` is still lit after `n` more cycles of 2 ms if they
  -- are no longer than the on time.
  stays_lit :
      (n e now : ℕ) (s : FlasherState)
      → now ≡ s.on_at + e
      → e + 2 * n ≤ c.on_time + 2
      → flasher_run n now (s, of_ℕ d 1) ≡ (s, of_ℕ d 1)
  unfolding flasher_run
  stays_lit zero e now s h k = refl
  stays_lit (suc n) e now s h k =
      ground (arith, flasher_update-blink now true true s, stays_lit n (e + 2) (now + cycle_ms) s)

  stays_dark :
      (n e now : ℕ) (s : FlasherState)
      → now ≡ s.off_at + e
      → e + 2 * n ≤ c.off_time + 2
      → flasher_run n now (s, of_ℕ d 0) ≡ (s, of_ℕ d 0)
  unfolding flasher_run
  stays_dark zero e now s h k = refl
  stays_dark (suc n) e now s h k =
      ground (arith, flasher_update-blink now true false s, stays_dark n (e + 2) (now + cycle_ms) s)

  flasher_run_snoc :
      (n now : ℕ) (x : FlasherState × W)
      → flasher_run (suc n) now x ≡ flasher_update d c (now + 2 * n) true (flasher_run n now x)
  unfolding flasher_run
  flasher_run_snoc zero now x = ap (λ t. flasher_update d c t true x) (omega arith)
  flasher_run_snoc (suc n) now x =
      flasher_run_snoc n (now + cycle_ms) (flasher_update d c now true x)
      ∙ ap
          (λ t.
            flasher_update d c t true
              (flasher_run n (now + cycle_ms) (flasher_update d c now true x)))
          (omega arith)

  -- While its input stays on, a flasher that lit in the cycle before `now` is lit for exactly the
  -- `n` further cycles that fit into the on time, and goes out in the one after them.
  pub lit_phase :
      (n now : ℕ) (s : FlasherState)
      → now ≡ s.on_at + cycle_ms
      → cycle_ms * n ≤ c.on_time
      → c.on_time < cycle_ms * suc n
      → (flasher_run n now (s, of_ℕ d 1) ≡ (s, of_ℕ d 1))
        × (flasher_run (suc n) now (s, of_ℕ d 1)
            ≡ (record s { off_at = now + cycle_ms * n }, of_ℕ d 0))
  lit_phase n now s h fits past = (
    stays_lit n cycle_ms now s h (omega arith),
    ground (
      arith,
      flasher_run_snoc n now (s, of_ℕ d 1),
      stays_lit n cycle_ms now s h,
      flasher_update-blink (now + 2 * n) true true s,
    ),
  )

  -- While its input stays on, a flasher that went out in the cycle before `now` is dark for exactly the
  -- `n` further cycles that fit into the off time, and lights in the one after them.
  pub dark_phase :
      (n now : ℕ) (s : FlasherState)
      → now ≡ s.off_at + cycle_ms
      → cycle_ms * n ≤ c.off_time
      → c.off_time < cycle_ms * suc n
      → (flasher_run n now (s, of_ℕ d 0) ≡ (s, of_ℕ d 0))
        × (flasher_run (suc n) now (s, of_ℕ d 0)
            ≡ (record s { on_at = now + cycle_ms * n }, of_ℕ d 1))
  dark_phase n now s h fits past = (
    stays_dark n cycle_ms now s h (omega arith),
    ground (
      arith,
      flasher_run_snoc n now (s, of_ℕ d 0),
      stays_dark n cycle_ms now s h,
      flasher_update-blink (now + 2 * n) true false s,
    ),
  )
