-- ===== src/Sim/Categories.antt =====
-- The categories of the cycle: each runs over its slots, and writes its own block of the var map only.
use dingo_cli.Prelude.{
  ℕ, suc, ◌+◌, ◌*◌, ◌≤◌, ◌≡◌, refl, ◌∙◌, sym, ap, Bool, true, List, [], ◌∷◌, arith, length,
  replicate, length-replicate,
}
use dingo_cli.Prelude.Results.{
  Result, Outcome, returns_as, Outcome-Returns, Outcome-bind, Outcome-weaken,
}
use dingo_cli.Double.{Double}
use dingo_cli.Vars.{run_slots}
use dingo_cli.Vars.Frame.{Frame, Frame-refl, Frame-trans, Frame-widen, run_slots-Frame}
use dingo_cli.Board.{
  Board, Block, dig_in, can_in, virt_in, output, flasher, condition, counter, items, base, size,
}
use dingo_cli.Board.Layout.{base-fits, length-numbered, length-can_in, length-output}
use dingo_cli.Output.{OutputState, profet}
use dingo_cli.DigitalInput.{InputState, digin}
use dingo_cli.CanInput.{CanInputState, RxFrame, receive, drain_rx, check_timeout}
use dingo_cli.VirtualInput.{virtin}
use dingo_cli.Latch.{InputLatch}
use dingo_cli.Condition as Condition
use dingo_cli.Counter as Counter
use dingo_cli.Counter.{CounterState}
use dingo_cli.Flasher as Flasher
use dingo_cli.Flasher.{FlasherState}
use dingo_cli.Config.{DeviceConfig}
use dingo_cli.Config.Accepted.{
  Slots, OutputReads, VirtualInputReads, CounterReads, FlasherReads, ConditionReads,
}
use dingo_cli.Sim.Shape.{IsSound, Converts, by_can_input, by_condition}
use dingo_cli.Sim.Slots.{profet-Frame, digin-Frame, virtin-Frame, flasher-Frame, counter-Frame}
use dingo_cli.Sim.Slots.Can.{is_bitwise, receive-Frame, check_timeout-Frame, condition-Frame}

module _ {W : Type 0} (b : Board) where
  -- Only the block `k` has changed.
  abbrev pub Within : Block → List W → List W → Type 0
  Within k xs ys = Frame (base b k) (base b k + length (items b k)) xs ys

  -- The result of a category: a state per slot, and its block.
  abbrev pub Ran : {T : Type 0} → Block → List T → List W → List T × List W → Type 0
  Ran k ts xs r = (length r.0 ≡ length ts) × Within k xs r.1

  category :
      {S T : Type 0} (update : ℕ → S → T → List W → Result (T × List W)) (k : Block) (width : ℕ)
      (E : Type 0) (Good : S → Type 0)
      → ((i : ℕ) (s : S) (t : T) (xs : List W)
          → Good s
          → length xs ≡ size b
          → base b k + width * suc i ≤ size b
          → Outcome E
              (λ r. Frame (base b k + width * i) (base b k + width * suc i) xs r.1)
              (update i s t xs))
      → (ss : List S) (ts : List T) (xs : List W) → Slots Good ss
      → length ss ≡ length ts
      → length xs ≡ size b
      → length (items b k) ≡ width * length ss
      → Outcome E (Ran k ts xs) (run_slots update 0 ss ts xs)
  category update k width E Good one ss ts xs good e f l =
      let z : width * (0 + length ss) ≡ width * length ss = omega arith in
      Outcome-weaken (λ r h. (h.0, Frame-widen (omega arith) (omega (arith, l)) h.1))
        (run_slots-Frame update (base b k) width Good (size b) one 0 ss ts xs good e f
          (omega (arith, base-fits b k, l)))

module _ {W : Type 0} (d : Double W) (c : DeviceConfig W) (sound : IsSound c) where
  abbrev b : Board
  b = c.board

  abbrev E : Type 0
  E = Converts d c

  pub outputs-Ran :
      (ts : List OutputState) (xs : List W)
      → length ts ≡ b.num_outputs
      → length xs ≡ size b
      → Outcome E (Ran b output ts xs) (run_slots (profet d (base b output)) 0 c.outputs ts xs)
  outputs-Ran ts xs e f =
      category b (profet d (base b output)) output 4 E (OutputReads (size b))
        (λ i s t ys good len fits.
          Outcome-Returns (profet-Frame d (size b) (base b output) i s t ys good len fits))
        c.outputs ts xs sound.reads.outputs (sound.full.outputs ∙ sym e) f
        (length-output b ∙ ap (λ n. 4 * n) (sym sound.full.outputs))

  pub inputs-Ran :
      (now : ℕ) (pins : ℕ → Bool) (ts : List InputState) (xs : List W)
      → length ts ≡ b.num_dig_inputs
      → length xs ≡ size b
      → Outcome E
          (Ran b dig_in ts xs)
          (run_slots (digin d (base b dig_in) now pins) 0 c.inputs ts xs)
  unfolding items
  inputs-Ran now pins ts xs e f =
      category b (digin d (base b dig_in) now pins) dig_in 1 E (λ s. Unit {0})
        (λ i s t ys good len fits.
          Outcome-Returns (digin-Frame d (size b) (base b dig_in) now pins i s t ys len fits))
        c.inputs ts xs (λ i s k. tt) (sound.full.inputs ∙ sym e) f
        (length-numbered _ _ ∙ ap (λ n. 1 * n) (sym sound.full.inputs))

  pub timeouts-Ran :
      (now : ℕ) (ts : List CanInputState) (xs : List W)
      → length ts ≡ b.num_can_inputs
      → length xs ≡ size b
      → Outcome E
          (Ran b can_in ts xs)
          (run_slots (check_timeout d (base b can_in) now) 0 c.can_inputs ts xs)
  timeouts-Ran now ts xs e f =
      category b (check_timeout d (base b can_in) now) can_in 2 E (λ s. Unit {0})
        (λ i s t ys good len fits.
          check_timeout-Frame d E (size b) (base b can_in) now i s t ys len fits)
        c.can_inputs ts xs (λ i s k. tt) (sound.full.can_inputs ∙ sym e) f
        (length-can_in b ∙ ap (λ n. 2 * n) (sym sound.full.can_inputs))

  receive-Ran :
      (now ext_ide : ℕ) (frame : RxFrame) (ts : List CanInputState) (xs : List W)
      → length ts ≡ b.num_can_inputs
      → length xs ≡ size b
      → Outcome E
          (Ran b can_in ts xs)
          (run_slots (receive d (base b can_in) now ext_ide frame) 0 c.can_inputs ts xs)
  receive-Ran now ext_ide frame ts xs e f =
      category b (receive d (base b can_in) now ext_ide frame) can_in 2 E
        (λ s. s.enabled ≡ true → is_bitwise s.operator ≡ true → E)
        (λ i s t ys good len fits.
          receive-Frame d E (size b) (base b can_in) now ext_ide frame i s t ys good len fits)
        c.can_inputs ts xs (by_can_input) (sound.full.can_inputs ∙ sym e) f
        (length-can_in b ∙ ap (λ n. 2 * n) (sym sound.full.can_inputs))

  pub drain_rx-Ran :
      (now ext_ide : ℕ) (rx : List RxFrame) (ts : List CanInputState) (xs : List W)
      → length ts ≡ b.num_can_inputs
      → length xs ≡ size b
      → Outcome E
          (Ran b can_in ts xs)
          (drain_rx d (base b can_in) now ext_ide c.can_inputs rx ts xs)
  unfolding drain_rx
  drain_rx-Ran now ext_ide [] ts xs e f = returns_as (ts, xs) (refl, Frame-refl _ _ xs)
  drain_rx-Ran now ext_ide (frame ∷ rx) ts xs e f =
      Outcome-bind (receive-Ran now ext_ide frame ts xs e f) λ r g.
        Outcome-weaken (λ q h. (h.0 ∙ g.0, Frame-trans g.1 h.1))
          (drain_rx-Ran now ext_ide rx r.0 r.1 (g.0 ∙ e) (g.1.same_length ∙ f))

  pub virtual_inputs-Ran :
      (ts : List InputLatch) (xs : List W)
      → length ts ≡ b.num_virt_inputs
      → length xs ≡ size b
      → Outcome E
          (Ran b virt_in ts xs)
          (run_slots (virtin d (base b virt_in)) 0 c.virtual_inputs ts xs)
  unfolding items
  virtual_inputs-Ran ts xs e f =
      category b (virtin d (base b virt_in)) virt_in 1 E (VirtualInputReads (size b))
        (λ i s t ys good len fits.
          Outcome-Returns (virtin-Frame d (size b) (base b virt_in) i s t ys good len fits))
        c.virtual_inputs ts xs sound.reads.virtual_inputs (sound.full.virtual_inputs ∙ sym e) f
        (length-numbered _ _ ∙ ap (λ n. 1 * n) (sym sound.full.virtual_inputs))

  pub flashers-Ran :
      (now : ℕ) (ts : List FlasherState) (xs : List W)
      → length ts ≡ b.num_flashers
      → length xs ≡ size b
      → Outcome E
          (Ran b flasher ts xs)
          (run_slots (Flasher.flasher d (base b flasher) now) 0 c.flashers ts xs)
  unfolding items
  flashers-Ran now ts xs e f =
      category b (Flasher.flasher d (base b flasher) now) flasher 1 E (FlasherReads (size b))
        (λ i s t ys good len fits.
          Outcome-Returns (flasher-Frame d (size b) (base b flasher) now i s t ys good len fits))
        c.flashers ts xs sound.reads.flashers (sound.full.flashers ∙ sym e) f
        (length-numbered _ _ ∙ ap (λ n. 1 * n) (sym sound.full.flashers))

  pub counters-Ran :
      (now : ℕ) (ts : List CounterState) (xs : List W)
      → length ts ≡ b.num_counters
      → length xs ≡ size b
      → Outcome E
          (Ran b counter ts xs)
          (run_slots (Counter.counter d (base b counter) now) 0 c.counters ts xs)
  unfolding items
  counters-Ran now ts xs e f =
      category b (Counter.counter d (base b counter) now) counter 1 E (CounterReads (size b))
        (λ i s t ys good len fits.
          Outcome-Returns (counter-Frame d (size b) (base b counter) now i s t ys good len fits))
        c.counters ts xs sound.reads.counters (sound.full.counters ∙ sym e) f
        (length-numbered _ _ ∙ ap (λ n. 1 * n) (sym sound.full.counters))

  pub conditions-Ran :
      (xs : List W)
      → length xs ≡ size b
      → Outcome E (Ran b condition (replicate b.num_conditions tt) xs) (
          run_slots
            (Condition.condition d (base b condition))
            0
            c.conditions
            (replicate b.num_conditions tt)
            xs)
  unfolding items
  conditions-Ran xs f =
      category b (Condition.condition d (base b condition)) condition 1 E
        (λ s. ConditionReads (size b) s × (s.enabled ≡ true → is_bitwise s.operator ≡ true → E))
        (λ i s t ys good len fits.
          condition-Frame d E (size b) (base b condition) i s t ys good.0 good.1 len fits)
        c.conditions (replicate b.num_conditions tt) xs
        (λ i s k. (sound.reads.conditions i s k, by_condition i s k))
        (sound.full.conditions ∙ sym (length-replicate b.num_conditions tt)) f
        (length-numbered _ _ ∙ ap (λ n. 1 * n) (sym sound.full.conditions))
