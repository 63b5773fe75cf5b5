-- ===== src/Fuzz/Accepted.antt =====
-- The simulator accepts the configs of gen_config of fwhost/fuzz.py: they read computed variables only.
use dingo_cli.Prelude.{ℕ, ◌+◌, ◌≡◌, refl, Bool, true, List, [], ◌∷◌, ◌++◌, arith, length, ltb}
use dingo_cli.Prelude.Results.{ok}
use dingo_cli.Double.{Double}
use dingo_cli.Board.Known.{dingopdm_v7}
use dingo_cli.Output.{OutputConfig}
use dingo_cli.CanOutput.{CanOutputConfig, is_sent}
use dingo_cli.Dbc.Total.{EndsInFrame}
use dingo_cli.VirtualInput.{VirtualInputConfig}
use dingo_cli.Condition.{ConditionConfig}
use dingo_cli.Counter.{CounterConfig}
use dingo_cli.Flasher.{FlasherConfig}
use dingo_cli.Config.{DeviceConfig, refs, validate_refs}
use dingo_cli.Config.Accepted.{Slots, validate_refs-Slots}
use dingo_cli.Sim.Shape.{IsFull}
use dingo_cli.Fuzz.Random.{
  Source, Always, All, when, choice, when-All, times-All, choice-All, length-times,
}
use dingo_cli.Fuzz.Pools.{boolish, numeric, without, any_boolish, maybe_boolish}
use dingo_cli.Fuzz.Generate.{
  gen_virt, gen_cond, gen_counter, gen_flasher, gen_output, gen_can_out, gen_slots, off_can_in,
  gen_can_in, gen_dig_in, gen_can_ins, gen_dig_ins, gen_virts, gen_conds, gen_counters,
  gen_flashers, gen_outputs, gen_can_outs,
}
use dingo_cli.Fuzz.Computed.{
  pins_v7, pinned_v7, IsComputed, IsComputed_lem, size_v7, All-append, All-Slots, All-without,
  slot_refs-All, zero-IsComputed, boolish-IsComputed, numeric-IsComputed, pool-IsComputed,
}

module _ {R : Type 0} (src : Source R) where
  any_boolish-IsComputed : Always IsComputed (any_boolish src)
  any_boolish-IsComputed = choice-All src IsComputed 0 boolish boolish-IsComputed

  when_boolish-IsComputed : (on : Bool) → Always IsComputed (when on 0 (any_boolish src))
  when_boolish-IsComputed on =
      when-All IsComputed on 0 (any_boolish src) zero-IsComputed any_boolish-IsComputed

  maybe_boolish-IsComputed : Always IsComputed (maybe_boolish src)
  unfolding maybe_boolish
  maybe_boolish-IsComputed r = when_boolish-IsComputed _ _

  virt-IsComputed :
      (on : Bool)
      → Always
          (λ (v : VirtualInputConfig). All IsComputed (v.var0 ∷ v.var1 ∷ v.var2 ∷ []))
          (gen_virt src on)
  unfolding gen_virt All
  virt-IsComputed on r = (
    when_boolish-IsComputed on _,
    (
      when_boolish-IsComputed on _,
      (when-All IsComputed on 0 (maybe_boolish src) zero-IsComputed maybe_boolish-IsComputed _, tt),
    ),
  )

  counter-IsComputed :
      (own : ℕ)
      → Always
          (λ (c : CounterConfig). All IsComputed (c.inc_input ∷ c.dec_input ∷ c.reset_input ∷ []))
          (gen_counter src own)
  unfolding gen_counter All
  counter-IsComputed own r =
      let pool = choice-All src IsComputed 0 _ (pool-IsComputed own) in
      let fewer : All IsComputed (0 ∷ without own boolish) =
        (zero-IsComputed, All-without IsComputed own boolish boolish-IsComputed.1) in
      (choice-All src IsComputed 0 (without own boolish) fewer _, (pool _, (pool _, tt)))

  flasher-IsComputed :
      Always (λ (f : FlasherConfig). All IsComputed (f.input ∷ [])) (gen_flasher src)
  unfolding gen_flasher All
  flasher-IsComputed r = (any_boolish-IsComputed _, tt)

  output-IsComputed : Always (λ (o : OutputConfig). All IsComputed (o.input ∷ [])) (gen_output src)
  unfolding gen_output All
  output-IsComputed r = (any_boolish-IsComputed _, tt)

  gen_virts_lem :
      Always
        (λ (ss : List (VirtualInputConfig)).
          (length ss ≡ 16) × All (λ s. All IsComputed (s.var0 ∷ s.var1 ∷ s.var2 ∷ [])) ss)
        (gen_virts src)
  unfolding gen_virts
  gen_virts_lem = times-All _ 16 0 (λ i. gen_virt src (ltb i 8)) (λ i. virt-IsComputed (ltb i 8))

  gen_counters_lem :
      Always
        (λ (ss : List (CounterConfig)).
          (length ss ≡ 4)
          × All (λ s. All IsComputed (s.inc_input ∷ s.dec_input ∷ s.reset_input ∷ [])) ss)
        (gen_counters src)
  unfolding gen_counters
  gen_counters_lem =
      times-All _ 4 0 (λ i. gen_counter src (155 + i)) (λ i. counter-IsComputed (155 + i))

  gen_flashers_lem :
      Always
        (λ (ss : List (FlasherConfig)).
          (length ss ≡ 4) × All (λ s. All IsComputed (s.input ∷ [])) ss)
        (gen_flashers src)
  unfolding gen_flashers
  gen_flashers_lem = times-All _ 4 0 (λ i. gen_flasher src) (λ i. flasher-IsComputed)

  gen_outputs_lem :
      Always
        (λ (ss : List (OutputConfig)).
          (length ss ≡ 8) × All (λ s. All IsComputed (s.input ∷ [])) ss)
        (gen_outputs src)
  unfolding gen_outputs
  gen_outputs_lem = times-All _ 8 0 (λ i. gen_output src) (λ i. output-IsComputed)

module _ {W R : Type 0} (d : Double W) (src : Source R) where
  cond-IsComputed :
      (on : Bool)
      → Always (λ (c : ConditionConfig W). All IsComputed (c.input ∷ [])) (gen_cond d src on)
  unfolding gen_cond All
  cond-IsComputed on r = (
    when-All IsComputed on 0 (choice src 8 (numeric ++ (0 ∷ boolish))) zero-IsComputed
        (choice-All src IsComputed 8 (numeric ++ (0 ∷ boolish)) numeric-IsComputed) _,
    tt,
  )

  can_out-IsComputed :
      (on : Bool) (i : ℕ)
      → Always (λ (c : CanOutputConfig W). All IsComputed (c.input ∷ [])) (gen_can_out d src on i)
  unfolding gen_can_out All
  can_out-IsComputed on i r = (when_boolish-IsComputed src on _, tt)

  gen_conds_lem :
      Always
        (λ (ss : List (ConditionConfig W)).
          (length ss ≡ 32) × All (λ s. All IsComputed (s.input ∷ [])) ss)
        (gen_conds d src)
  unfolding gen_conds
  gen_conds_lem = times-All _ 32 0 (λ i. gen_cond d src (ltb i 8)) (λ i. cond-IsComputed (ltb i 8))

  gen_can_outs_lem :
      Always
        (λ (ss : List (CanOutputConfig W)).
          (length ss ≡ 32) × All (λ s. All IsComputed (s.input ∷ [])) ss)
        (gen_can_outs d src)
  unfolding gen_can_outs
  gen_can_outs_lem =
      times-All _ 32 0 (λ i. gen_can_out d src (ltb i 6) i) (λ i. can_out-IsComputed (ltb i 6) i)

  -- Every reference of a random config is to a variable that the simulator computes.
  refs-IsComputed : Always (λ (c : DeviceConfig W). All IsComputed (refs c)) (gen_slots d src)
  unfolding gen_slots refs
  refs-IsComputed r =
      All-append IsComputed _ _ (slot_refs-All IsComputed _ _ _ (gen_outputs_lem src _).1) (
        All-append IsComputed _ _ (slot_refs-All IsComputed _ _ _ (gen_can_outs_lem _).1) (
          All-append IsComputed _ _ (slot_refs-All IsComputed _ _ _ (gen_virts_lem src _).1) (
            All-append IsComputed _ _ (slot_refs-All IsComputed _ _ _ (gen_conds_lem _).1) (
              All-append IsComputed _ _ (slot_refs-All IsComputed _ _ _ (gen_counters_lem src _).1)
                (slot_refs-All IsComputed _ _ _ (gen_flashers_lem src _).1)))))

  length-gen_can_ins : Always (λ cs. length cs ≡ 32) (gen_can_ins d src)
  unfolding gen_can_ins
  length-gen_can_ins = length-times 32 0 (λ i. when (ltb i 8) (off_can_in d src) (gen_can_in d src))

  length-gen_dig_ins : Always (λ cs. length cs ≡ 2) (gen_dig_ins src)
  unfolding gen_dig_ins
  length-gen_dig_ins = length-times 2 0 (λ i. gen_dig_in src)

  -- A random config has as many slots as a dingopdm_v7.
  pub gen_slots-IsFull : Always IsFull (gen_slots d src)
  unfolding gen_slots
  gen_slots-IsFull r = record {
    outputs = (gen_outputs_lem src _).0;
    inputs = length-gen_dig_ins _;
    can_inputs = length-gen_can_ins _;
    can_outputs = (gen_can_outs_lem _).0;
    virtual_inputs = (gen_virts_lem src _).0;
    conditions = (gen_conds_lem _).0;
    counters = (gen_counters_lem src _).0;
    flashers = (gen_flashers_lem src _).0;
  }

  pub gen_slots-board : Always (λ (c : DeviceConfig W). c.board ≡ dingopdm_v7) (gen_slots d src)
  unfolding gen_slots
  gen_slots-board r = refl

  pub gen_slots-accepted :
      Always (λ (c : DeviceConfig W). validate_refs c ≡ ok tt) (gen_slots d src)
  gen_slots-accepted r =
      let c = (gen_slots d src r).0 in
      let v7 : c.board ≡ dingopdm_v7 = gen_slots-board r in
      let computed : Slots IsComputed (refs c) =
        All-Slots IsComputed (refs c) (refs-IsComputed r) in
      (validate_refs-Slots c pins_v7 (rw v7 pinned_v7)).1 (
        rw (v7, size_v7) (λ i x k. (IsComputed_lem x (computed i x k)).0),
        λ i x k. (IsComputed_lem x (computed i x k)).1,
      )

  little_endian :
      Always (λ cs. All (λ (s : CanOutputConfig W). s.byte_order ≡ 0) cs) (gen_can_outs d src)
  unfolding gen_can_outs gen_can_out
  little_endian r =
      (times-All (λ (s : CanOutputConfig W). s.byte_order ≡ 0) 32 0
        (λ i. gen_can_out d src (ltb i 6) i) (λ i r. refl) r).1

  pub gen_slots-ends :
      Always
        (λ (c : DeviceConfig W).
          Slots
            (λ s. is_sent s ≡ true → EndsInFrame s.start_bit s.bit_length s.byte_order)
            c.can_outputs)
        (gen_slots d src)
  unfolding gen_slots
  gen_slots-ends r i s k sent big =
      absurd (let z = All-Slots _ _ (little_endian _) i s k in omega arith)
