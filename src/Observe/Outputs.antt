-- ===== src/Observe/Outputs.antt =====
-- What `Sim.observe` shows of the outputs.
use dingo_cli.Prelude.{
  ℕ, zero, suc, ◌+◌, ◌*◌, ◌≤◌, ◌<◌, ◌≡◌, ◌⊎◌, inl, inr, refl, sym, ap, ◌∙◌, true, false, some, List,
  [], ◌∷◌, ◌==◌, ==_iff, arith, length, get_elem?, get_elem?-some, Bool-cases,
}
use dingo_cli.Prelude.Results.{Returns, returns, Returns-bind, Returns-if, Returns-weaken}
use dingo_cli.Vars.Frame.{read-eq}
use dingo_cli.Board.{Board, base, size, output, index, label}
use dingo_cli.Board.Layout.{label-output, base-fits, length-output}
use dingo_cli.Board.Known.{Registered, index-label}
use dingo_cli.CanOutput.{CanOutputConfig}
use dingo_cli.Config.{DeviceConfig}
use dingo_cli.Sim.{Sim}
use dingo_cli.Sim.Shape.{IsFull, IsShaped}
use dingo_cli.Observe.{
  Signal, out, can, same_signal, Observation, signal_value, put, active_name, observe_outputs,
  observe_can, observe,
}

same_signal_refl : (k : Signal) → same_signal k k ≡ true
same_signal_refl (out i) = ground arith
same_signal_refl (can ide id start len) = ground arith

-- An output's number is its index.
index-active :
    (b : Board) (i : ℕ)
    → Registered b
    → i < b.num_outputs
    → index b (active_name (suc i)) ≡ some (base b output + 4 * i)
unfolding active_name
index-active b i r h =
    let at = base b output + 4 * i in
    let z : base b output + 4 * i + 0 ≡ at = omega arith in
    let (name, e, f) = index-label b at r (omega (arith, base-fits b output, length-output b)) in
    let same : some name ≡ some (active_name (suc i)) =
      sym e ∙ ap (label b) (sym z) ∙ label-output b i h in
    let plain : name ≡ active_name (suc i) = ground arith in ap (index b) (sym plain) ∙ f

same_signal-eq : (k l : Signal) → same_signal k l ≡ true → k ≡ l
same_signal-eq (out i) (out j) h = ap out ((==_iff i j).0 h)
same_signal-eq (out i) (can ide id start len) h = cc
same_signal-eq (can ide id start len) (out j) h = cc
same_signal-eq (can ide id start len) (can ide' id' start' len') h =
    let e1 : ide ≡ ide' = ground arith in
    let e2 : id ≡ id' = ground arith in
    let e3 : start ≡ start' = ground arith in let e4 : len ≡ len' = ground arith in cc

module _ {W : Type 0} where
  signal_value-put_same :
      (k : Signal) (x : W) (o : Observation W) → signal_value k (put k x o) ≡ some x
  unfolding signal_value put
  signal_value-put_same k x [] = rw (same_signal_refl k) refl
  signal_value-put_same k x ((m, y) ∷ o) = elim (Bool-cases (same_signal m k)) [
    | inl f ↦ (let z : same_signal m k ≡ true = f in ground (arith, f))
    | inr f ↦ ground (arith, signal_value-put_same k x o)
  ]

  signal_value-put_other :
      (k l : Signal) (x : W) (o : Observation W)
      → same_signal k l ≡ false
      → signal_value l (put k x o) ≡ signal_value l o
  unfolding signal_value put
  signal_value-put_other k l x [] h = rw h refl
  signal_value-put_other k l x ((m, y) ∷ o) h = elim (Bool-cases (same_signal m k)) [
    | inl f ↦
        (let z : same_signal m l ≡ false = ap (λ n. same_signal n l) (same_signal-eq m k f) ∙ h in
          rw (f, z) refl)
    | inr f ↦ elim (Bool-cases (same_signal m l)) [
      | inl g ↦ rw (f, g) refl
      | inr g ↦ rw (f, g) (signal_value-put_other k l x o h)
    ]
  ]

  -- The outputs from `i` on are the entries of the map; what was observed before stays.
  abbrev Shows : Board → List W → (i left : ℕ) → (old new : Observation W) → Type 0
  Shows b vars i left old new =
      (m : ℕ)
      → (i ≤ m
          → m < i + left
          → signal_value (out (suc m)) new ≡ get_elem? vars (base b output + 4 * m))
        × ((m < i) ⊎ (i + left ≤ m)
            → signal_value (out (suc m)) new ≡ signal_value (out (suc m)) old)

  Shows-step :
      (b : Board) (vars : List W) (i left : ℕ) (x : W) (o new : Observation W)
      → get_elem? vars (base b output + 4 * i) ≡ some x
      → Shows b vars (suc i) left (put (out (suc i)) x o) new
      → Shows b vars i (suc left) o new
  Shows-step b vars i left x o new get later m = (
    λ lo hi. elim (Bool-cases (i == m)) [
      | inl e ↦
          (let same : i ≡ m = (==_iff i m).0 e in
            (later m).1 (inl (omega arith))
            ∙ ap (λ k. signal_value (out (suc k)) (put (out (suc i)) x o)) (sym same)
            ∙ signal_value-put_same (out (suc i)) x o
            ∙ sym get
            ∙ ap (λ k. get_elem? vars (base b output + 4 * k)) same)
      | inr e ↦ (later m).0 (ground arith) (omega arith)
    ],
    λ away.
        (later m).1 (omega arith)
        ∙ signal_value-put_other (out (suc i)) (out (suc m)) x o (ground arith),
  )

  observe_outputs-Shows :
      (b : Board) (vars : List W) (i left : ℕ) (o : Observation W)
      → Registered b
      → i + left ≤ b.num_outputs
      → length vars ≡ size b
      → Returns (Shows b vars i left o) (observe_outputs b vars (suc i) left o)
  unfolding observe_outputs
  observe_outputs-Shows b vars i zero o r h e =
      returns o (λ m. (λ lo hi. absurd (omega arith), λ out. refl))
  observe_outputs-Shows b vars i (suc left) o r h e =
      let at = base b output + 4 * i in
      let (x, get) = get_elem?-some vars at (omega (arith, base-fits b output, length-output b)) in
      rw (index-active b i r (omega arith), read-eq vars at x get)
        (Returns-weaken (λ new later. Shows-step b vars i left x o new get later)
          (observe_outputs-Shows b vars (suc i) left (put (out (suc i)) x o) r (omega arith) e))

  -- The CAN outputs do not touch the outputs' keys.
  observe_can-out :
      (cs : List (CanOutputConfig W)) (samples : List W) (o : Observation W) (m : ℕ)
      → length samples ≡ length cs
      → Returns
          (λ new. signal_value (out m) new ≡ signal_value (out m) o)
          (observe_can cs samples o)
  unfolding observe_can
  observe_can-out [] samples o m e = returns o refl
  observe_can-out (c ∷ cs) [] o m e = absurd (omega arith)
  observe_can-out (c ∷ cs) (x ∷ xs) o m e =
      let key = can c.ide c.id c.start_bit c.bit_length in
      Returns-if c.enabled
        (λ enabled.
          Returns-weaken (λ new h. h ∙ signal_value-put_other key (out m) x o refl)
            (observe_can-out cs xs (put key x o) m (omega arith)))
        (λ disabled. observe_can-out cs xs o m (omega arith))

  -- On a registered board, with a full config and a state of the right shape, an observation returns,
  -- and shows for output m + 1, if there is one, the entry base["output"] + 4 * m of the var map.
  pub observe-out :
      (c : DeviceConfig W) (s : Sim W) (m : ℕ)
      → Registered c.board
      → IsFull c
      → IsShaped c s
      → m < c.board.num_outputs
      → Returns
          (λ o. signal_value (out (suc m)) o ≡ get_elem? s.vars (base c.board output + 4 * m))
          (observe c s)
  unfolding observe
  observe-out c s m r full h lt =
      Returns-bind
        (observe_outputs-Shows c.board s.vars 0 c.board.num_outputs [] r (omega arith) h.vars)
        λ o shows.
          Returns-weaken (λ new e. e ∙ (shows m).0 (omega arith) (omega arith))
            (observe_can-out c.can_outputs s.samples o (suc m) (h.samples ∙ sym full.can_outputs))

  -- On a registered board, an observation of a state of the right shape returns.
  pub observe-Returns :
      (c : DeviceConfig W) (s : Sim W)
      → Registered c.board
      → IsFull c
      → IsShaped c s
      → Returns (λ o. Unit {0}) (observe c s)
  unfolding observe
  observe-Returns c s r full h =
      Returns-bind
        (observe_outputs-Shows c.board s.vars 0 c.board.num_outputs [] r (omega arith) h.vars)
        λ o shows.
          Returns-weaken (λ new e. tt)
            (observe_can-out c.can_outputs s.samples o 0 (h.samples ∙ sym full.can_outputs))
