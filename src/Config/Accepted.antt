-- ===== src/Config/Accepted.antt =====
-- What an accepted config promises to the cycle.
use dingo_cli.Prelude.{
  ℕ, zero, suc, ◌<◌, ◌≡◌, refl, Bool, true, false, List, [], ◌∷◌, ◌++◌, some, arith, get_elem?,
  Bool-cases, inl, inr, lt→ltb, sym, ◌↔◌,
}
use dingo_cli.Prelude.Results.{ok, unsupported, raise-ne-ok}
use dingo_cli.Board.{size}
use dingo_cli.Output.{OutputConfig}
use dingo_cli.CanOutput.{CanOutputConfig}
use dingo_cli.VirtualInput.{VirtualInputConfig}
use dingo_cli.Condition.{ConditionConfig}
use dingo_cli.Counter.{CounterConfig}
use dingo_cli.Flasher.{FlasherConfig}
use dingo_cli.Config.{
  DeviceConfig, slot_refs, refs, all_below, any_among, is_among, pinned, validate_refs, output_refs,
  can_output_refs, virtual_input_refs, condition_refs, counter_refs,
}

-- What the fields of a slot satisfy where the slot is enabled.
module _ (n : ℕ) where
  abbrev pub OutputReads : OutputConfig → Type 0
  OutputReads s = s.enabled ≡ true → s.input < n

  abbrev pub CanOutputReads : {W : Type 0} → CanOutputConfig W → Type 0
  CanOutputReads s = s.enabled ≡ true → s.input < n

  abbrev pub VirtualInputReads : VirtualInputConfig → Type 0
  VirtualInputReads s = s.enabled ≡ true → (s.var0 < n) × (s.var1 < n) × (s.var2 < n)

  abbrev pub ConditionReads : {W : Type 0} → ConditionConfig W → Type 0
  ConditionReads s = s.enabled ≡ true → s.input < n

  abbrev pub CounterReads : CounterConfig → Type 0
  CounterReads s = s.enabled ≡ true → (s.inc_input < n) × (s.dec_input < n) × (s.reset_input < n)

  abbrev pub FlasherReads : FlasherConfig → Type 0
  FlasherReads s = s.enabled ≡ true → s.input < n

-- All slots of a group satisfy `P`.
abbrev pub Slots : {S : Type 0} → (S → Type 0) → List S → Type 0
Slots P ss = (i : ℕ) (s : _) → get_elem? ss i ≡ some s → P s

pub record ReadsInRange {W : Type 0} (c : DeviceConfig W) : Type 0 where
  pub outputs : Slots (OutputReads (size c.board)) c.outputs
  pub can_outputs : Slots (CanOutputReads (size c.board)) c.can_outputs
  pub virtual_inputs : Slots (VirtualInputReads (size c.board)) c.virtual_inputs
  pub conditions : Slots (ConditionReads (size c.board)) c.conditions
  pub counters : Slots (CounterReads (size c.board)) c.counters
  pub flashers : Slots (FlasherReads (size c.board)) c.flashers

all_below-append :
    (n : ℕ) (xs ys : List ℕ)
    → all_below n (xs ++ ys) ≡ true
    → (all_below n xs ≡ true) × (all_below n ys ≡ true)
unfolding all_below
all_below-append n [] ys h = (refl, h)
all_below-append n (x ∷ xs) ys h =
    let t : all_below n (xs ++ ys) ≡ true = ground arith in
    let (a, b) = all_below-append n xs ys t in (ground arith, b)

module _ {S : Type 0} (enabled : S → Bool) (fields : S → List ℕ) (n : ℕ) where
  slot_refs-split :
      (s : S) (ss : List S)
      → all_below n (slot_refs enabled fields (s ∷ ss)) ≡ true
      → (enabled s ≡ true → all_below n (fields s) ≡ true)
        × (all_below n (slot_refs enabled fields ss) ≡ true)
  unfolding slot_refs
  slot_refs-split s ss h = elim (Bool-cases (enabled s)) [
    | inl f ↦
        (let both : all_below n (fields s ++ slot_refs enabled fields ss) ≡ true = ground arith in
          let (a, b) = all_below-append n (fields s) _ both in (λ e. a, b))
    | inr f ↦ (λ e. absurd (let g : true ≡ false = ground arith in cc), ground arith)
  ]

  slot_refs-below :
      (ss : List S)
      → all_below n (slot_refs enabled fields ss) ≡ true
      → (i : ℕ) (s : S) → get_elem? ss i ≡ some s
      → enabled s ≡ true
      → all_below n (fields s) ≡ true
  slot_refs-below [] h i s k e = cc
  slot_refs-below (s' ∷ ss) h zero s k e =
      let same : s' ≡ s = ground arith in rw (sym same) ((slot_refs-split s' ss h).0 (rw same e))
  slot_refs-below (s' ∷ ss) h (suc i) s k e = slot_refs-below ss (slot_refs-split s' ss h).1 i s k e

all_below-one : (n x : ℕ) → all_below n (x ∷ []) ≡ true → x < n
unfolding all_below
all_below-one n x h = ground arith

all_below-three : (n x y z : ℕ) → all_below n (x ∷ y ∷ z ∷ []) ≡ true → (x < n) × (y < n) × (z < n)
unfolding all_below
all_below-three n x y z h = (ground arith, ground arith, ground arith)

all_below-Slots : (n : ℕ) (xs : List ℕ) → all_below n xs ≡ true → Slots (λ x. x < n) xs
unfolding all_below
all_below-Slots n [] h i x k = cc
all_below-Slots n (x ∷ xs) h zero y k = let e : x ≡ y = ground arith in rw (sym e) (ground arith)
all_below-Slots n (x ∷ xs) h (suc i) y k = all_below-Slots n xs (ground arith) i y k

Slots-all_below : (n : ℕ) (xs : List ℕ) → Slots (λ x. x < n) xs → all_below n xs ≡ true
unfolding all_below
Slots-all_below n [] h = refl
Slots-all_below n (x ∷ xs) h = rw (lt→ltb x n (h 0 x refl)) (Slots-all_below n xs (λ i. h (suc i)))

none_among-Slots :
    (ys xs : List ℕ) → any_among xs ys ≡ false → Slots (λ x. is_among x ys ≡ false) xs
unfolding any_among
none_among-Slots ys [] h i x k = cc
none_among-Slots ys (x ∷ xs) h zero y k = let e : x ≡ y = ground arith in rw (sym e) (ground arith)
none_among-Slots ys (x ∷ xs) h (suc i) y k = none_among-Slots ys xs (ground arith) i y k

Slots-none_among :
    (ys xs : List ℕ) → Slots (λ x. is_among x ys ≡ false) xs → any_among xs ys ≡ false
unfolding any_among
Slots-none_among ys [] h = refl
Slots-none_among ys (x ∷ xs) h = rw (h 0 x refl) (Slots-none_among ys xs (λ i. h (suc i)))

module _ {W : Type 0} (c : DeviceConfig W) where
  refs-ReadsInRange : all_below (size c.board) (refs c) ≡ true → ReadsInRange c
  unfolding refs
  refs-ReadsInRange h =
      let n = size c.board in
      let (h1, r1) = all_below-append n (output_refs c) _ h in
      let (h2, r2) = all_below-append n (can_output_refs c) _ r1 in
      let (h3, r3) = all_below-append n (virtual_input_refs c) _ r2 in
      let (h4, r4) = all_below-append n (condition_refs c) _ r3 in
      let (h5, h6) = all_below-append n (counter_refs c) _ r4 in
      record {
        outputs = λ i s k e.
            all_below-one n _ (slot_refs-below _ (λ s. s.input ∷ []) n c.outputs h1 i s k e);
        can_outputs = λ i s k e.
            all_below-one n _ (slot_refs-below _ (λ s. s.input ∷ []) n c.can_outputs h2 i s k e);
        virtual_inputs = λ i s k e.
            all_below-three n _ _ _ (
              slot_refs-below _ (λ s. s.var0 ∷ s.var1 ∷ s.var2 ∷ []) n c.virtual_inputs h3 i s k e);
        conditions = λ i s k e.
            all_below-one n _ (slot_refs-below _ (λ s. s.input ∷ []) n c.conditions h4 i s k e);
        counters = λ i s k e. all_below-three n _ _ _ (
            slot_refs-below _ (λ s. s.inc_input ∷ s.dec_input ∷ s.reset_input ∷ []) n c.counters h5
              i s k e);
        flashers = λ i s k e.
            all_below-one n _ (slot_refs-below _ (λ s. s.input ∷ []) n c.flashers h6 i s k e);
      }

  -- An accepted config reads variables of the map only, and none of those that stay 0.
  pub validate_refs-ReadsInRange : validate_refs c ≡ ok tt → ReadsInRange c
  unfolding validate_refs
  validate_refs-ReadsInRange h = elim (Bool-cases (all_below (size c.board) (refs c))) [
    | inl e ↦ refs-ReadsInRange e
    | inr e ↦ absurd (raise-ne-ok unsupported (tt {0}) (ground arith))
  ]

  -- Where the board has the names of the variables that stay 0, a config is accepted just when every
  -- variable that an enabled slot reads is in the map, and is none of those.
  pub validate_refs-Slots :
      (pins : List ℕ)
      → pinned c.board ≡ ok pins
      → (validate_refs c ≡ ok tt)
        ↔ (Slots (λ r. r < size c.board) (refs c) × Slots (λ r. is_among r pins ≡ false) (refs c))
  unfolding validate_refs
  validate_refs-Slots pins h = (to, from)
    where
      to :
          validate_refs c ≡ ok tt
          → Slots (λ r. r < size c.board) (refs c) × Slots (λ r. is_among r pins ≡ false) (refs c)
      to e = elim (Bool-cases (all_below (size c.board) (refs c))) [
        | inl f ↦ elim (Bool-cases (any_among (refs c) pins)) [
          | inl g ↦ absurd (raise-ne-ok unsupported (tt {0}) (ground arith))
          | inr g ↦ (all_below-Slots _ _ f, none_among-Slots _ _ g)
        ]
        | inr f ↦ absurd (raise-ne-ok unsupported (tt {0}) (ground arith))
      ]

      from :
          Slots (λ r. r < size c.board) (refs c) × Slots (λ r. is_among r pins ≡ false) (refs c)
          → validate_refs c ≡ ok tt
      from (a, b) = rw (Slots-all_below _ _ a, h, Slots-none_among _ _ b) refl
