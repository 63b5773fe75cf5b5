-- ===== src/Sim/Slots.antt =====
-- Each update of a slot writes into the slot's own entries only, and finds what it reads.
pub mod Can
use dingo_cli.Prelude.{
  ℕ, suc, ◌+◌, ◌*◌, ◌≤◌, ◌<◌, ◌≡◌, refl, Bool, true, false, List, arith, length, get_elem?, set,
  length-set, if◌then◌else◌, ◌==◌, ap,
}
use dingo_cli.Prelude.Results.{
  Result, ok, Returns, returns, Returns-bind, Returns-if, Returns-weaken, ◌>>=◌,
}
use dingo_cli.Double.{Double, of_ℕ, truth}
use dingo_cli.Vars.{read, write}
use dingo_cli.Vars.Frame.{
  Frame, Frame-set, Frame-trans, Frame-widen, Frame-refl, read-Returns, write-Returns,
}
use dingo_cli.Config.Accepted.{OutputReads, VirtualInputReads, CounterReads, FlasherReads}
use dingo_cli.Latch.{InputLatch}
use dingo_cli.Output.{OutputConfig, OutputState, off, put_output, profet}
use dingo_cli.DigitalInput.{InputConfig, InputState, input_update, digin}
use dingo_cli.VirtualInput.{VirtualInputConfig, put_latched, virtin}
use dingo_cli.Flasher.{FlasherConfig, FlasherState, flasher}
use dingo_cli.Counter.{CounterConfig, CounterState, counter}

-- One write into the entries of a slot.
pub write-Frame :
    {A : Type 0} (lo hi : ℕ) (xs : List A) (i : ℕ) (x : A)
    → lo ≤ i
    → i < hi
    → hi ≤ length xs
    → Returns (λ ys. Frame lo hi xs ys) (write xs i x)
write-Frame lo hi xs i x h k l =
    Returns-weaken (λ ys e. rw e (Frame-widen (omega arith) (omega arith) (Frame-set xs i x)))
      (write-Returns xs i x (omega arith))

module _ {W : Type 0} (d : Double W) (n : ℕ) where
  put_output-Frame :
      (idx : ℕ) (s : OutputState) (xs : List W)
      → length xs ≡ n
      → idx + 4 ≤ n
      → Returns (λ r. Frame idx (idx + 4) xs r.1) (put_output d idx s xs)
  unfolding put_output
  put_output-Frame idx s xs e h =
      Returns-bind (write-Frame idx (idx + 4) xs idx _ (omega arith) (omega arith) (omega arith))
        λ x1 f1.
          Returns-bind
            (write-Frame idx (idx + 4) x1 (idx + 1) _ (omega arith) (omega arith)
              (omega (arith, f1.same_length)))
            λ x2 f2.
              Returns-bind
                (write-Frame idx (idx + 4) x2 (idx + 2) _ (omega arith) (omega arith)
                  (omega (arith, f1.same_length, f2.same_length)))
                λ x3 f3.
                  Returns-bind
                    (write-Frame idx (idx + 4) x3 (idx + 3) _ (omega arith) (omega arith)
                      (omega (arith, f1.same_length, f2.same_length, f3.same_length)))
                    λ x4 f4. returns _ (Frame-trans f1 (Frame-trans f2 (Frame-trans f3 f4)))

  pub profet-Frame :
      (base i : ℕ) (c : OutputConfig) (s : OutputState) (xs : List W)
      → OutputReads n c
      → length xs ≡ n
      → base + 4 * suc i ≤ n
      → Returns (λ r. Frame (base + 4 * i) (base + 4 * suc i) xs r.1) (profet d base i c s xs)
  unfolding profet
  profet-Frame base i c s xs good e h =
      let wide : (r : OutputState × List W)
          → Frame (base + 4 * i) (base + 4 * i + 4) xs r.1
          → Frame (base + 4 * i) (base + 4 * suc i) xs r.1 =
        λ r f. Frame-widen (omega arith) (omega arith) f in
      Returns-weaken wide (
        Returns-if c.enabled
          (λ enabled.
            Returns-bind (read-Returns xs c.input (omega (arith, good enabled, e)))
              λ x f. put_output-Frame _ _ xs e (omega arith))
          (λ disabled. put_output-Frame _ off xs e (omega arith)))

  -- An update whose slot has one entry, with the state that goes with it.
  put_one :
      {S : Type 0} (idx : ℕ) (s : S) (x : W) (xs : List W)
      → length xs ≡ n
      → idx < n
      → Returns
          (λ (r : S × List W). Frame idx (suc idx) xs r.1)
          (write xs idx x >>= λ ys. ok (s, ys))
  put_one idx s x xs e h =
      Returns-bind (write-Frame idx (suc idx) xs idx x (omega arith) (omega arith) (omega arith))
        λ ys f. returns _ f

  digin_narrow :
      (base now : ℕ) (pin : ℕ → Bool) (i : ℕ) (c : InputConfig) (s : InputState) (xs : List W)
      → length xs ≡ n
      → base + i < n
      → Returns (λ r. Frame (base + i) (suc (base + i)) xs r.1) (digin d base now pin i c s xs)
  unfolding digin
  digin_narrow base now pin i c s xs e h =
      Returns-if c.enabled
        (λ enabled.
          Returns-if (input_update c now (pin i) s).1 (λ w. put_one _ _ _ xs e h)
            (λ w. returns _ (Frame-refl _ _ xs)))
        (λ disabled. put_one _ _ _ xs e h)

  put_latched-Frame :
      (idx mode : ℕ) (b : Bool) (l : InputLatch) (xs : List W)
      → length xs ≡ n
      → idx < n
      → Returns (λ r. Frame idx (suc idx) xs r.1) (put_latched d idx mode b l xs)
  unfolding put_latched
  put_latched-Frame idx mode b l xs e h = put_one _ _ _ xs e h

  virtin_narrow :
      (base i : ℕ) (c : VirtualInputConfig) (s : InputLatch) (xs : List W)
      → VirtualInputReads n c
      → length xs ≡ n
      → base + i < n
      → Returns (λ r. Frame (base + i) (suc (base + i)) xs r.1) (virtin d base i c s xs)
  unfolding virtin
  virtin_narrow base i c s xs good e h =
      Returns-if c.enabled
        (λ enabled.
          let (g0, g1, g2) = good enabled in
          Returns-bind (read-Returns xs c.var0 (omega arith)) λ v0 f0.
            Returns-bind (read-Returns xs c.var1 (omega arith)) λ v1 f1.
              Returns-if (c.var2 == 0) (λ z. put_latched-Frame _ c.mode _ s xs e h)
                (λ z.
                  Returns-bind (read-Returns xs c.var2 (omega arith))
                    λ v2 f2. put_latched-Frame _ c.mode _ s xs e h))
        (λ disabled. put_one _ _ _ xs e h)

  flasher_narrow :
      (base now i : ℕ) (c : FlasherConfig) (s : FlasherState) (xs : List W)
      → FlasherReads n c
      → length xs ≡ n
      → base + i < n
      → Returns (λ r. Frame (base + i) (suc (base + i)) xs r.1) (flasher d base now i c s xs)
  unfolding flasher
  flasher_narrow base now i c s xs good e h =
      Returns-if c.enabled
        (λ enabled. Returns-bind (read-Returns xs c.input (omega (arith, good enabled))) λ x f.
          Returns-bind (read-Returns xs (base + i) (omega arith)) λ y g. put_one _ _ _ xs e h)
        (λ disabled. put_one _ _ _ xs e h)

  counter_narrow :
      (base now i : ℕ) (c : CounterConfig) (s : CounterState) (xs : List W)
      → CounterReads n c
      → length xs ≡ n
      → base + i < n
      → Returns (λ r. Frame (base + i) (suc (base + i)) xs r.1) (counter d base now i c s xs)
  unfolding counter
  counter_narrow base now i c s xs good e h =
      Returns-if c.enabled
        (λ enabled.
          let (g0, g1, g2) = good enabled in
          Returns-bind (read-Returns xs c.inc_input (omega arith)) λ x f.
            Returns-bind (read-Returns xs c.dec_input (omega arith)) λ y g.
              Returns-bind (read-Returns xs c.reset_input (omega arith)) λ z k.
                Returns-bind (read-Returns xs (base + i) (omega arith)) λ v l. put_one _ _ _ xs e h)
        (λ disabled. put_one _ _ _ xs e h)

  -- The same, as `run_slots-Frame` asks for it.
  one_wide :
      {S : Type 0} (base i : ℕ) (xs : List W) (r : Result (S × List W))
      → Returns (λ (q : S × List W). Frame (base + i) (suc (base + i)) xs q.1) r
      → Returns (λ (q : S × List W). Frame (base + 1 * i) (base + 1 * suc i) xs q.1) r
  one_wide base i xs r h = Returns-weaken (λ q f. Frame-widen (omega arith) (omega arith) f) h

  pub digin-Frame :
      (base now : ℕ) (pin : ℕ → Bool) (i : ℕ) (c : InputConfig) (s : InputState) (xs : List W)
      → length xs ≡ n
      → base + 1 * suc i ≤ n
      → Returns
          (λ r. Frame (base + 1 * i) (base + 1 * suc i) xs r.1)
          (digin d base now pin i c s xs)
  digin-Frame base now pin i c s xs e h =
      one_wide base i xs _ (digin_narrow base now pin i c s xs e (omega arith))

  pub virtin-Frame :
      (base i : ℕ) (c : VirtualInputConfig) (s : InputLatch) (xs : List W)
      → VirtualInputReads n c
      → length xs ≡ n
      → base + 1 * suc i ≤ n
      → Returns (λ r. Frame (base + 1 * i) (base + 1 * suc i) xs r.1) (virtin d base i c s xs)
  virtin-Frame base i c s xs good e h =
      one_wide base i xs _ (virtin_narrow base i c s xs good e (omega arith))

  pub flasher-Frame :
      (base now i : ℕ) (c : FlasherConfig) (s : FlasherState) (xs : List W)
      → FlasherReads n c
      → length xs ≡ n
      → base + 1 * suc i ≤ n
      → Returns (λ r. Frame (base + 1 * i) (base + 1 * suc i) xs r.1) (flasher d base now i c s xs)
  flasher-Frame base now i c s xs good e h =
      one_wide base i xs _ (flasher_narrow base now i c s xs good e (omega arith))

  pub counter-Frame :
      (base now i : ℕ) (c : CounterConfig) (s : CounterState) (xs : List W)
      → CounterReads n c
      → length xs ≡ n
      → base + 1 * suc i ≤ n
      → Returns (λ r. Frame (base + 1 * i) (base + 1 * suc i) xs r.1) (counter d base now i c s xs)
  counter-Frame base now i c s xs good e h =
      one_wide base i xs _ (counter_narrow base now i c s xs good e (omega arith))
