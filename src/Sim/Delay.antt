-- ===== src/Sim/Delay.antt =====
-- Outputs run before the logic: an output follows what the logic computed in the cycle before.
use native.Mathlib.Nat.{mul-le-mul_left}
use dingo_cli.Prelude.{
  ℕ, ◌+◌, ◌*◌, ◌≤◌, ◌<◌, ◌≡◌, ◌⊎◌, inl, inr, refl, ◌∙◌, sym, ap, Bool, true, false, List, arith,
  length, get_elem?, set, some, get_elem?-set_self, get_elem?-set_ne, length-set, get_elem?-lt,
  get_elem?-some,
}
use dingo_cli.Prelude.Results.{
  ok, Returns, returns, Returns-bind, Outcome, Outcome-Returns, Outcome-result, Outcome-bind,
  Outcome-bind_eq, returns_as,
}
use dingo_cli.Double.{Double, of_ℕ, of_bool, truth}
use dingo_cli.Vars.{run_slots}
use dingo_cli.Vars.Frame.{read-eq, write-Returns}
use dingo_cli.Vars.Slot.{Turn-eq, run_slots-Turn}
use dingo_cli.Board.{
  Board, Block, can_in, dig_in, virt_in, output, flasher, condition, counter, items, base,
  base_from, size,
}
use dingo_cli.Board.Layout.{base-fits, length-output}
use dingo_cli.CanInput.{RxFrame}
use dingo_cli.CanOutput.Sampling.{can_outputs-Outcome}
use dingo_cli.Output.{OutputConfig, OutputState, off, on, active, next_state, put_output, profet}
use dingo_cli.Config.{DeviceConfig}
use dingo_cli.Config.Accepted.{OutputReads}
use dingo_cli.Sim.{Sim, step}
use dingo_cli.Sim.Shape.{IsSound, IsShaped, Converts, IsSound-Packs}
use dingo_cli.Sim.Slots.{profet-Frame}
use dingo_cli.Sim.Categories.{
  Within, outputs-Ran, inputs-Ran, timeouts-Ran, drain_rx-Ran, virtual_inputs-Ran, flashers-Ran,
  counters-Ran, conditions-Ran,
}

module _ {W : Type 0} (d : Double W) where
  set-kept :
      (xs : List W) (idx j : ℕ) (x y : W)
      → idx < j
      → get_elem? xs idx ≡ some x
      → get_elem? (set xs j y) idx ≡ some x
  set-kept xs idx j x y h k = get_elem?-set_ne xs y (omega arith) ∙ k

  put_output-value :
      (idx : ℕ) (s : OutputState) (xs : List W)
      → idx + 4 ≤ length xs
      → Returns (λ r. get_elem? r.1 idx ≡ some (active d s)) (put_output d idx s xs)
  unfolding put_output
  put_output-value idx s xs h =
      Returns-bind (write-Returns xs idx (active d s) (omega arith)) λ x1 e1.
        let v1 =
          ap (λ ys. get_elem? ys idx) e1 ∙ get_elem?-set_self xs idx (active d s) (omega arith) in
        let l1 = ap (λ (ys : List W). length ys) e1 ∙ length-set xs idx (active d s) in
        Returns-bind (write-Returns x1 (idx + 1) (of_ℕ d 0) (omega arith)) λ x2 e2.
          let v2 =
            ap (λ ys. get_elem? ys idx) e2 ∙ set-kept x1 idx (idx + 1) _ _ (omega arith) v1 in
          let l2 = ap (λ (ys : List W). length ys) e2 ∙ length-set x1 (idx + 1) (of_ℕ d 0) in
          Returns-bind (write-Returns x2 (idx + 2) (of_ℕ d 0) (omega arith)) λ x3 e3.
            let v3 =
              ap (λ ys. get_elem? ys idx) e3 ∙ set-kept x2 idx (idx + 2) _ _ (omega arith) v2 in
            let l3 = ap (λ (ys : List W). length ys) e3 ∙ length-set x2 (idx + 2) (of_ℕ d 0) in
            Returns-bind (write-Returns x3 (idx + 3) (of_ℕ d 0) (omega arith)) λ x4 e4.
              returns _
                (ap (λ ys. get_elem? ys idx) e4 ∙ set-kept x3 idx (idx + 3) _ _ (omega arith) v3)

  follows : (s : OutputState) (r : Bool) → active d (next_state s r) ≡ of_bool d r
  unfolding next_state
  follows off true = refl
  follows off false = refl
  follows on true = refl
  follows on false = refl

  -- The output that an enabled slot writes is its input's truth, whatever its state was.
  profet-value :
      (base i : ℕ) (c : OutputConfig) (s : OutputState) (xs : List W) (x : W)
      → c.enabled ≡ true
      → get_elem? xs c.input ≡ some x
      → base + 4 * i + 4 ≤ length xs
      → Returns
          (λ r. get_elem? r.1 (base + 4 * i) ≡ some (of_bool d (truth d x)))
          (profet d base i c s xs)
  unfolding profet
  profet-value base i c s xs x e f h =
      rw (e, read-eq xs c.input x f, sym (follows s (truth d x)))
        (put_output-value (base + 4 * i) (next_state s (truth d x)) xs h)

-- The blocks of the cycle do not overlap the outputs.
module _ (b : Board) where
  Apart : Block → Type 0
  Apart k =
      (base b k + length (items b k) ≤ base b output)
      ⊎ (base b output + length (items b output) ≤ base b k)

  dig_in-Apart : Apart dig_in
  unfolding Apart base base_from
  dig_in-Apart = inl (omega arith)

  can_in-Apart : Apart can_in
  unfolding Apart base base_from
  can_in-Apart = inl (omega arith)

  virt_in-Apart : Apart virt_in
  unfolding Apart base base_from
  virt_in-Apart = inl (omega arith)

  flasher-Apart : Apart flasher
  unfolding Apart base base_from
  flasher-Apart = inr (omega arith)

  counter-Apart : Apart counter
  unfolding Apart base base_from
  counter-Apart = inr (omega arith)

  condition-Apart : Apart condition
  unfolding Apart base base_from
  condition-Apart = inr (omega arith)

  -- The entries of the outputs stay, where another block is written.
  kept :
      {W : Type 0} (k : Block) (xs ys : List W) (p : ℕ)
      → Apart k
      → Within b k xs ys
      → base b output ≤ p
      → p < base b output + length (items b output)
      → get_elem? ys p ≡ get_elem? xs p
  unfolding Apart
  kept k xs ys p (inl h) w lo hi = w.outside p (inr (omega arith))
  kept k xs ys p (inr h) w lo hi = w.outside p (inl (omega arith))

module _ {W : Type 0} (d : Double W) (c : DeviceConfig W) (sound : IsSound c) where
  abbrev b : Board
  b = c.board

  -- What the run of the outputs leaves in the entry of an enabled slot.
  outputs-value :
      (ts ts' : List OutputState) (xs zs : List W)
      → length ts ≡ b.num_outputs
      → length xs ≡ size b
      → run_slots (profet d (base b output)) 0 c.outputs ts xs ≡ ok (ts', zs)
      → (i : ℕ) (o : OutputConfig) (t : OutputState) (x : W) → get_elem? c.outputs i ≡ some o
      → get_elem? ts i ≡ some t
      → o.enabled ≡ true
      → (o.input < base b output) ⊎ (base b output + length (items b output) ≤ o.input)
      → get_elem? xs o.input ≡ some x
      → i < b.num_outputs
      → get_elem? zs (base b output + 4 * i) ≡ some (of_bool d (truth d x))
  outputs-value ts ts' xs zs e f run i o t x k l enabled out get lt =
      let n = size b in
      let len = length-output b in
      let fits = base-fits b output in
      let full = sound.full.outputs in
      let turn =
        Turn-eq (profet d (base b output)) (base b output) 4 (0 + i) i (0 + length c.outputs)
          (length c.outputs) o t xs zs (omega arith) (omega arith)
          (run_slots-Turn (profet d (base b output)) (base b output) 4 {E = Converts d c}
            (OutputReads n) n
            (λ i s t ys good len fits.
              Outcome-Returns (profet-Frame d n (base b output) i s t ys good len fits))
            0 c.outputs ts xs ts' zs sound.reads.outputs (full ∙ sym e) f (omega arith) run i o t k
            l) in
      let room = mul-le-mul_left 4 lt in
      let found : get_elem? turn.found o.input ≡ some x =
        turn.before.outside o.input (omega arith) ∙ get in
      let value =
        profet-value d (base b output) i o t turn.found x enabled found
          (omega (arith, turn.before.same_length)) in
      turn.after.outside _ (inl (omega arith))
      ∙ Outcome-result {E = Converts d c} _ (turn.state, turn.left) (Outcome-Returns value)
          turn.update_eq

  -- If a cycle of a sound config returns, then an enabled output is on after it just when its input
  -- was true before it, so that an output follows the logic with a delay of one cycle; a cycle fails
  -- only in a conversion to an integer that the config has. The input is any variable but those of the
  -- CAN inputs, which are received first, and of the outputs themselves.
  pub step-delay :
      (pins : ℕ → Bool) (rx : List RxFrame) (ext_ide : ℕ) (s : Sim W)
      → IsShaped c s
      → (i : ℕ) (o : OutputConfig) (x : W) → get_elem? c.outputs i ≡ some o
      → o.enabled ≡ true
      → (o.input < base b can_in) ⊎ (base b can_in + length (items b can_in) ≤ o.input)
      → (o.input < base b output) ⊎ (base b output + length (items b output) ≤ o.input)
      → get_elem? s.vars o.input ≡ some x
      → Outcome
          (Converts d c)
          (λ s'. get_elem? s'.vars (base b output + 4 * i) ≡ some (of_bool d (truth d x)))
          (step d c pins rx ext_ide s)
  unfolding step
  step-delay pins rx ext_ide s h i o x k enabled out_can out_output get =
      let now = s.time_ms in
      let full = sound.full in
      let p = base b output + 4 * i in
      let lt : i < b.num_outputs = omega (arith, get_elem?-lt c.outputs i o k, full.outputs) in
      let lo : base b output ≤ p = omega arith in
      let hi : p < base b output + length (items b output) = omega (arith, length-output b) in
      let (t, l) = get_elem?-some s.outputs i (omega (arith, h.outputs)) in
      Outcome-bind (drain_rx-Ran d c sound now ext_ide rx s.can_inputs s.vars h.can_inputs h.vars)
        λ r1 f1.
          let v1 = f1.1.same_length ∙ h.vars in
          Outcome-bind_eq (outputs-Ran d c sound s.outputs r1.1 h.outputs v1) λ r2 e2 f2.
            let v2 = f2.1.same_length ∙ v1 in
            let x2 =
              outputs-value s.outputs r2.0 r1.1 r2.1 h.outputs v1 e2 i o t x k l enabled out_output
                (f1.1.outside o.input out_can ∙ get) lt in
            Outcome-bind (inputs-Ran d c sound now pins s.inputs r2.1 h.inputs v2) λ r3 f3.
              let v3 = f3.1.same_length ∙ v2 in
              Outcome-bind (timeouts-Ran d c sound now r1.0 r3.1 (f1.0 ∙ h.can_inputs) v3) λ r4 f4.
                let v4 = f4.1.same_length ∙ v3 in
                Outcome-bind
                  (can_outputs-Outcome d (Converts d c) (size c.board) now c.can_outputs s.assigned
                    r4.1 s.samples s.frames (IsSound-Packs d c sound) v4
                    (h.assigned ∙ sym full.can_outputs) h.paired h.frames
                    (h.samples ∙ sym full.can_outputs))
                  λ q g.
                    Outcome-bind (virtual_inputs-Ran d c sound s.latches r4.1 h.latches v4) λ r5 f5.
                      let v5 = f5.1.same_length ∙ v4 in
                      Outcome-bind (flashers-Ran d c sound now s.flashers r5.1 h.flashers v5)
                        λ r6 f6.
                          let v6 = f6.1.same_length ∙ v5 in
                          Outcome-bind (counters-Ran d c sound now s.counters r6.1 h.counters v6)
                            λ r7 f7.
                              let v7 = f7.1.same_length ∙ v6 in
                              Outcome-bind (conditions-Ran d c sound r7.1 v7) λ r8 f8.
                                returns_as _ (
                                  kept b condition r7.1 r8.1 p (condition-Apart b) f8.1 lo hi
                                  ∙ kept b counter r6.1 r7.1 p (counter-Apart b) f7.1 lo hi
                                  ∙ kept b flasher r5.1 r6.1 p (flasher-Apart b) f6.1 lo hi
                                  ∙ kept b virt_in r4.1 r5.1 p (virt_in-Apart b) f5.1 lo hi
                                  ∙ kept b can_in r3.1 r4.1 p (can_in-Apart b) f4.1 lo hi
                                  ∙ kept b dig_in r2.1 r3.1 p (dig_in-Apart b) f3.1 lo hi
                                  ∙ x2)
