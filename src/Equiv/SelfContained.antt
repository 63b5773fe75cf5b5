-- ===== src/Equiv/SelfContained.antt =====
-- `equiv.py --self-contained`: a document against itself, under the firmware's and the adversarial
-- defaults.
use dingo_cli.Prelude.{
  ℕ, suc, ◌%◌, ◌≡◌, refl, sym, ap, ◌∙◌, Bool, true, Option, some, List, [], ◌∷◌, arith, ◌==◌,
}
use dingo_cli.Prelude.Int.{ℤ}
use dingo_cli.Prelude.Results.{Result, ok, ◌>>=◌, >>=-eq-ok}
use dingo_cli.Double.{Double}
use dingo_cli.Board.{Board}
use dingo_cli.Board.Names.{Name}
use dingo_cli.Config.{DeviceConfig}
use dingo_cli.Sim.{Sim, init, step}
use dingo_cli.Observe.{Signal, Observation, observe}
use dingo_cli.Observe.Names.{names, observe_same}
use dingo_cli.Trace.{Step, Cycle, no_wires, trace_cycles, pin_level, run_cycles, run_trace}
use dingo_cli.Json.{Json}
use dingo_cli.Load.{firmware, adversarial}
use dingo_cli.Load.Choice.{devices, choose_device, choose_board}
use dingo_cli.Load.Device.{Loaded, load_device}
use dingo_cli.Load.SelfContained.{IsSelfContained, load_device-self_contained}
use dingo_cli.Load.Typed.{config_of}
use dingo_cli.Equiv.{Row, is_key}
use dingo_cli.Equiv.Keys.{IsEquality, is_key-cons}
use dingo_cli.Equiv.Self.{HasAll, NoNaN, compare_logs_self}
use dingo_cli.Equiv.Main.{passed, with_config, load_sim, run_both, equiv_trace}

module _ {W : Type 0} (same before : Signal → Signal → Bool) (equal : W → W → Bool) where
  is_key-names :
      (k : Signal) (o o' : Observation W) → names o ≡ names o' → is_key same k o ≡ is_key same k o'
  unfolding names
  is_key-names k [] [] h = refl
  is_key-names k [] (p ∷ o') h = cc
  is_key-names k (p ∷ o) [] h = cc
  is_key-names k ((l, v) ∷ o) ((m, w) ∷ o') h =
      let h' : (l ∷ names o) ≡ (m ∷ names o') = h in
      let e : l ≡ m = ground arith in
      let f : names o ≡ names o' = ground arith in
      is_key-cons same before k l v o
      ∙ rw (e, is_key-names k o o' f) (sym (is_key-cons same before k m w o'))

  module _ (d : Double W) (c : DeviceConfig W) where
    -- The rows of a run have the signals of any other observation of the device.
    run_cycles-HasAll :
        (s0 : Sim W) (first : Observation W) (i : ℕ) (ts : List Cycle) (s : Sim W)
        (log : List (Row Signal W))
        → observe c s0 ≡ ok first
        → run_cycles d c 1 i ts s ≡ ok log
        → HasAll same before equal first log
    unfolding run_cycles
    run_cycles-HasAll s0 first i [] s log o e = let z : log ≡ [] = ground arith in rw z tt
    run_cycles-HasAll s0 first i (t ∷ ts) s log o e =
        let each : (i % 1 == 0) ≡ true = ground arith in
        let (s', e1, e2) = >>=-eq-ok (step d c (pin_level t.pins) t.frames 0 s) _ e in
        let e3 = rw each at e2 in
        let (o', e4, e5) = >>=-eq-ok (observe c s') _ e3 in
        let (more, e6, e7) = >>=-eq-ok (run_cycles d c 1 (suc i) ts s') _ e5 in
        let row : Row Signal W = record { signals = o'; cycle = i; ms = s'.time_ms } in
        let z : log ≡ row ∷ more = ground arith in
        rw z (
          λ k key. sym (is_key-names k first o' (observe_same c s0 s' first o' o e4)) ∙ key,
          run_cycles-HasAll s0 first (suc i) ts s' more o e6,
        )

    run_cycles-first :
        (i : ℕ) (ts : List Cycle) (s : Sim W) (r : Row Signal W) (rs : List (Row Signal W))
        → run_cycles d c 1 i ts s ≡ ok (r ∷ rs)
        → (s0 : Sim W) × (observe c s0 ≡ ok r.signals)
    unfolding run_cycles
    run_cycles-first i [] s r rs e = cc
    run_cycles-first i (t ∷ ts) s r rs e =
        let each : (i % 1 == 0) ≡ true = ground arith in
        let (s', e1, e2) = >>=-eq-ok (step d c (pin_level t.pins) t.frames 0 s) _ e in
        let e3 = rw each at e2 in
        let (o', e4, e5) = >>=-eq-ok (observe c s') _ e3 in
        let (more, e6, e7) = >>=-eq-ok (run_cycles d c 1 (suc i) ts s') _ e5 in
        let row : Row Signal W = record { signals = o'; cycle = i; ms = s'.time_ms } in
        let z : row ≡ r = ground arith in (s', e4 ∙ ap (λ (q : Row Signal W). ok q.signals) z)

    run_trace-HasAll :
        (steps : List Step) (s : Sim W) (r : Row Signal W) (rs : List (Row Signal W))
        → run_trace d c 1 steps s ≡ ok (r ∷ rs)
        → HasAll same before equal r.signals rs
    unfolding run_trace
    run_trace-HasAll steps s r rs e =
        let (ts, e1, e2) = >>=-eq-ok (trace_cycles steps no_wires) _ e in
        let (s0, o) = run_cycles-first 0 ts s r rs e2 in
        (run_cycles-HasAll s0 r.signals 0 ts s (r ∷ rs) o e2).1

  module _ (d : Double W) where
    load_sim-ok :
        (x : Result (Loaded W)) (l : Loaded W) (c : DeviceConfig W) (s : Sim W)
        → x ≡ ok l
        → config_of d l ≡ some c
        → init d c ≡ ok s
        → load_sim d x ≡ some (ok (c, s))
    unfolding load_sim with_config
    load_sim-ok x l c s e f g = rw e (rw f (rw g refl))

    equiv_trace_self :
        (tolerance : ℕ) (steps : List Step) (c : DeviceConfig W) (s : Sim W) (r : Row Signal W)
        (rs : List (Row Signal W))
        → IsEquality same
        → run_trace d c 1 steps s ≡ ok (r ∷ rs)
        → NoNaN same before equal (r ∷ rs)
        → equiv_trace d same before equal tolerance steps (ok (c, s)) (ok (c, s)) ≡ ok passed
    unfolding equiv_trace run_both
    equiv_trace_self tolerance steps c s r rs eq run n =
        rw
          (
            run,
            compare_logs_self same before equal tolerance 20 r rs eq
                (run_trace-HasAll d c steps s r rs run) n,
          )
          refl

    -- A document whose device gives every field that the simulator reads of every slot passes
    -- `equiv.py --self-contained` on a trace, with any tolerance: both of its loads are set up, and
    -- their logs do not differ. The document is loaded under both policies, and its config runs the
    -- trace to a log that is not empty and has no NaN.
    pub self_contained-passed :
        (doc : Json W) (name : Option Name) (base_id : Option ℤ) (devs : List (Json W))
        (dev : Json W) (b : Board) (l m : Loaded W) (c : DeviceConfig W) (tolerance : ℕ)
        (steps : List Step) (r : Row Signal W) (rs : List (Row Signal W))
        → IsEquality same
        → devices d doc ≡ ok devs
        → choose_device d base_id devs ≡ ok dev
        → choose_board d name dev ≡ ok b
        → IsSelfContained d dev b
        → load_device d firmware doc name base_id ≡ ok l
        → load_device d adversarial doc name base_id ≡ ok m
        → config_of d l ≡ some c
        → (init d c >>= run_trace d c 1 steps) ≡ ok (r ∷ rs)
        → NoNaN same before equal (r ∷ rs)
        → (sa : Result (DeviceConfig W × Sim W)) × (sb : Result (DeviceConfig W × Sim W))
          × (load_sim d (load_device d firmware doc name base_id) ≡ some sa)
          × (load_sim d (load_device d adversarial doc name base_id) ≡ some sb)
          × (equiv_trace d same before equal tolerance steps sa sb ≡ ok passed)
    self_contained-passed doc name base_id devs dev b l m c tolerance steps r rs eq found chosen
          board self e f known run n =
        let (s, ready, ran) = >>=-eq-ok (init d c) _ run in
        let same_config =
          load_device-self_contained d firmware adversarial doc name base_id devs dev b l m found
            chosen board self e f in
        (
          ok (c, s),
          ok (c, s),
          load_sim-ok _ l c s e known ready,
          load_sim-ok _ m c s f (sym same_config ∙ known) ready,
          equiv_trace_self tolerance steps c s r rs eq ran n,
        )
