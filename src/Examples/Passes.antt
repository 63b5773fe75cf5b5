-- ===== src/Examples/Passes.antt =====
-- The theorem on `equiv.py --self-contained`: a lamp on NOT (A AND B) of two digital inputs.
use dingo_cli.Prelude.{
  ◌≡◌, refl, ap, ◌∙◌, Bool, true, false, none, some, List, [], ◌∷◌, arith, length,
}
use dingo_cli.Prelude.Int.{ℤ, pos, negsuc, eqb_ℤ}
use dingo_cli.Prelude.Results.{Result, ok, ◌>>=◌, Outcome-total, Returns-value}
use dingo_cli.Double.Exact.{exact}
use dingo_cli.Board.{layout}
use dingo_cli.Board.Names.{codes}
use dingo_cli.Board.Known.{dingopdm_v7}
use dingo_cli.CanInput.{CanInputConfig}
use dingo_cli.CanOutput.{CanOutputConfig, is_sent}
use dingo_cli.Condition.{ConditionConfig}
use dingo_cli.Config.{
  DeviceConfig, validate_refs, refs, pinned, all_below, any_among, is_among, slot_refs, indices,
  pinned_names,
}
use dingo_cli.Sim.{Sim, init}
use dingo_cli.Sim.Shape.{Converts, by_can_input, by_condition, by_can_output}
use dingo_cli.Observe.{Signal, out, can, same_signal}
use dingo_cli.Trace.{run_trace, duration}
use dingo_cli.Trace.Length.{total}
use dingo_cli.Load.{Policy, firmware, adversarial}
use dingo_cli.Load.Device.{Loaded, load_device}
use dingo_cli.Load.Typed.{config_of}
use dingo_cli.Corpus.{Given, no_slots, no_dig_in, padded}
use dingo_cli.Corpus.Document.{pdm, device}
use dingo_cli.Corpus.Slots.{slots_config, can_in_slot, can_out_slot, cond_slot}
use dingo_cli.Corpus.Adversarial.{lamp, logic}
use dingo_cli.Corpus.Loads.{Fits, device-loads, device-devices, pdm-board, pdm-chosen}
use dingo_cli.Corpus.Runs.{pdm-IsSelfContained, device-run_trace}
use dingo_cli.Enums.{bool_nor}
use dingo_cli.Equiv.{Row}
use dingo_cli.Equiv.Keys.{IsEquality}
use dingo_cli.Equiv.Self.{NoNaN}
use dingo_cli.Equiv.Main.{load_sim, equiv_trace, passed}
use dingo_cli.Equiv.SelfContained.{self_contained-passed}
use dingo_cli.Examples.Device.{replicate-same}
use dingo_cli.Examples.Drive.{drive}

abbrev lamp_case : Given
lamp_case = record no_slots {
  dig_ins = record no_dig_in { enabled = true } ∷ record no_dig_in { enabled = true } ∷ [];
  virts = logic (codes "NOT_AB") 5 bool_nor 6 ∷ [];
  outputs = lamp (codes "lamp") 71 ∷ [];
}

abbrev lamp_config : DeviceConfig ℤ
lamp_config = slots_config exact lamp_case

lamp-Fits : Fits lamp_case
lamp-Fits = record {
  dig_ins = omega arith;
  outputs = omega arith;
  can_ins = omega arith;
  can_outs = omega arith;
  virts = omega arith;
  conds = omega arith;
  counters = omega arith;
  flashers = omega arith;
}

lamp_accepted : validate_refs lamp_config ≡ ok tt
unfolding slots_config padded validate_refs refs pinned all_below any_among is_among slot_refs
    indices pinned_names layout
lamp_accepted = refl

lamp-Converts : ¬ Converts exact lamp_config
unfolding slots_config padded can_in_slot can_out_slot cond_slot is_sent
lamp-Converts (by_can_input i s k on bits) = absurd (
    let same = replicate-same 32 i _ s k in
    let z : false ≡ true = ap (λ (c : CanInputConfig ℤ). c.enabled) same ∙ on in cc)
lamp-Converts (by_condition i s k on bits) = absurd (
    let same = replicate-same 32 i _ s k in
    let z : false ≡ true = ap (λ (c : ConditionConfig ℤ). c.enabled) same ∙ on in cc)
lamp-Converts (by_can_output i s k sent short factor) = absurd (
    let same = replicate-same 32 i _ s k in
    let z : false ≡ true = ap (λ (c : CanOutputConfig ℤ). is_sent c) same ∙ sent in cc)

eqb_self : (x : ℤ) → eqb_ℤ x x ≡ true
eqb_self (pos n) = ground arith
eqb_self (negsuc n) = ground arith

all-NoNaN :
    (before : Signal → Signal → Bool) (log : List (Row Signal ℤ))
    → NoNaN same_signal before eqb_ℤ log
all-NoNaN before [] = tt
all-NoNaN before (r ∷ rs) = (λ k x e. eqb_self x, all-NoNaN before rs)

signal-IsEquality : IsEquality same_signal
signal-IsEquality = (self, equal)
  where
    self : (k : Signal) → same_signal k k ≡ true
    self (out i) = ground arith
    self (can ide id start len) = ground arith

    equal : (k l : Signal) → same_signal k l ≡ true → k ≡ l
    equal (out i) (out j) h = let e : i ≡ j = ground arith in rw e refl
    equal (out i) (can ide id start len) h = cc
    equal (can ide id start len) (out j) h = cc
    equal (can a b c e) (can a' b' c' e') h =
        let z1 : a ≡ a' = ground arith in
        let z2 : b ≡ b' = ground arith in
        let z3 : c ≡ c' = ground arith in let z4 : e ≡ e' = ground arith in rw (z1, z2, z3, z4) refl

abbrev lamp_run : Result (List (Row Signal ℤ))
lamp_run = init exact lamp_config >>= run_trace exact lamp_config 1 drive

-- The log of the run, which has a row for each of four cycles.
lamp_log : (r : Row Signal ℤ) × (rs : List (Row Signal ℤ)) × (lamp_run ≡ ok (r ∷ rs))
unfolding duration
lamp_log =
    let (l, e, f, outcome) =
      device-run_trace exact firmware (codes "lamp") lamp_case drive lamp-Fits lamp_accepted
        ((omega arith, tt), (tt, tt)) in
    let (log, g, n) = Returns-value lamp_run (Outcome-total lamp-Converts outcome) in
    first log g n.0
  where
    first :
        (log : List (Row Signal ℤ))
        → lamp_run ≡ ok log
        → length log ≡ total drive
        → (r : Row Signal ℤ) × (rs : List (Row Signal ℤ)) × (lamp_run ≡ ok (r ∷ rs))
    first [] g n = absurd (omega (arith, n))
    first (r ∷ rs) g n = (r, rs, g)

abbrev never : Signal → Signal → Bool
never x y = false

lamp_loaded :
    (p : Policy)
    → (l : Loaded ℤ) × (load_device exact p (device (codes "lamp") lamp_case) none none ≡ ok l)
      × (config_of exact l ≡ some lamp_config)
lamp_loaded p = device-loads exact p (codes "lamp") lamp_case lamp-Fits

self_contained-passed_example :
    (sa : Result (DeviceConfig ℤ × Sim ℤ)) × (sb : Result (DeviceConfig ℤ × Sim ℤ)) × (load_sim
        exact
        (load_device exact firmware (device (codes "lamp") lamp_case) none none)
      ≡ some sa)
    × (load_sim exact (load_device exact adversarial (device (codes "lamp") lamp_case) none none)
        ≡ some sb)
    × (equiv_trace exact same_signal never eqb_ℤ 1 drive sa sb ≡ ok passed)
self_contained-passed_example =
    self_contained-passed same_signal never eqb_ℤ exact (device (codes "lamp") lamp_case) none none
      (pdm (codes "lamp") lamp_case ∷ []) (pdm (codes "lamp") lamp_case) dingopdm_v7
      (lamp_loaded firmware).0 (lamp_loaded adversarial).0 lamp_config 1 drive lamp_log.0 lamp_log.1
      signal-IsEquality (device-devices exact firmware (codes "lamp") lamp_case)
      (pdm-chosen exact firmware (codes "lamp") lamp_case)
      (pdm-board exact firmware (codes "lamp") lamp_case)
      (pdm-IsSelfContained exact (codes "lamp") lamp_case lamp-Fits) (lamp_loaded firmware).1
      (lamp_loaded adversarial).1 (lamp_loaded firmware).2 lamp_log.2
      (all-NoNaN never (lamp_log.0 ∷ lamp_log.1))
