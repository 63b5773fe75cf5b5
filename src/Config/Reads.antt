-- ===== src/Config/Reads.antt =====
-- What a config that `Sim._validate_refs` accepts reads.
use dingo_cli.Prelude.{
  ℕ, zero, suc, ◌+◌, ◌-◌, ◌*◌, ◌%◌, ◌<◌, ◌≡◌, ◌↔◌, ◌∙◌, sym, refl, ap, Bool, true, false, not, ◌&&◌,
  ◌||◌, inl, inr, Bool-cases, some, List, [], ◌∷◌, ◌++◌, arith, get_elem?, ltb, leb, ◌==◌,
  if◌then◌else◌,
}
use dingo_cli.Prelude.Results.{ok}
use dingo_cli.Board.{Board, size, base, output, analog_in, layout}
use dingo_cli.Board.Known.{Registered, v7, max_v1, dpdm4_1, canboard}
use dingo_cli.Output.{OutputConfig}
use dingo_cli.CanOutput.{CanOutputConfig}
use dingo_cli.VirtualInput.{VirtualInputConfig}
use dingo_cli.Condition.{ConditionConfig}
use dingo_cli.Counter.{CounterConfig}
use dingo_cli.Flasher.{FlasherConfig}
use dingo_cli.Config.{
  DeviceConfig, slot_refs, refs, is_among, pinned, indices, pinned_names, validate_refs,
  output_refs, can_output_refs, virtual_input_refs, condition_refs, counter_refs, flasher_refs,
}
use dingo_cli.Config.Accepted.{Slots, validate_refs-Slots}

-- A variable that an enabled slot of the config reads.
pub data Reads {W : Type 0} (c : DeviceConfig W) : ℕ → Type 0 where
  output_input :
      (i : ℕ) (s : OutputConfig)
      → get_elem? c.outputs i ≡ some s
      → s.enabled ≡ true
      → Reads c s.input
  can_output_input :
      (i : ℕ) (s : CanOutputConfig W)
      → get_elem? c.can_outputs i ≡ some s
      → s.enabled ≡ true
      → Reads c s.input
  first_var :
      (i : ℕ) (s : VirtualInputConfig)
      → get_elem? c.virtual_inputs i ≡ some s
      → s.enabled ≡ true
      → Reads c s.var0
  second_var :
      (i : ℕ) (s : VirtualInputConfig)
      → get_elem? c.virtual_inputs i ≡ some s
      → s.enabled ≡ true
      → Reads c s.var1
  third_var :
      (i : ℕ) (s : VirtualInputConfig)
      → get_elem? c.virtual_inputs i ≡ some s
      → s.enabled ≡ true
      → Reads c s.var2
  condition_input :
      (i : ℕ) (s : ConditionConfig W)
      → get_elem? c.conditions i ≡ some s
      → s.enabled ≡ true
      → Reads c s.input
  inc_input :
      (i : ℕ) (s : CounterConfig)
      → get_elem? c.counters i ≡ some s
      → s.enabled ≡ true
      → Reads c s.inc_input
  dec_input :
      (i : ℕ) (s : CounterConfig)
      → get_elem? c.counters i ≡ some s
      → s.enabled ≡ true
      → Reads c s.dec_input
  reset_input :
      (i : ℕ) (s : CounterConfig)
      → get_elem? c.counters i ≡ some s
      → s.enabled ≡ true
      → Reads c s.reset_input
  flasher_input :
      (i : ℕ) (s : FlasherConfig)
      → get_elem? c.flashers i ≡ some s
      → s.enabled ≡ true
      → Reads c s.input

-- The variables that a board measures, by their place in the map: the current, the overcurrent and the
-- fault of an output, the four variables of an analogue input, and with five system variables the
-- temperature of the board and the voltage of the battery.
unfoldable pub is_measured : Board → ℕ → Bool
is_measured b r =
    let out = base b output in
    let analogue = base b analog_in in
    leb out r && (ltb r (out + 4 * b.num_outputs) && not ((r - out) % 4 == 0))
    || (leb analogue r && ltb r (analogue + 4 * b.num_analog_inputs)
        || leb 5 b.sys_vars && (r == 3 || r == 4))

module _ {A : Type 0} (P : A → Type 0) where
  Slots-cons : (x : A) (xs : List A) → P x → Slots P xs → Slots P (x ∷ xs)
  Slots-cons x xs h hs zero y e = let z : x ≡ y = ground arith in rw (sym z) h
  Slots-cons x xs h hs (suc i) y e = hs i y e

  Slots-append : (xs ys : List A) → Slots P xs → Slots P ys → Slots P (xs ++ ys)
  Slots-append [] ys h k = k
  Slots-append (x ∷ xs) ys h k =
      Slots-cons x (xs ++ ys) (h 0 x refl) (Slots-append xs ys (λ i. h (suc i)) k)

  Slots-split : (xs ys : List A) → Slots P (xs ++ ys) → Slots P xs × Slots P ys
  Slots-split [] ys h = (λ i x e. cc, h)
  Slots-split (x ∷ xs) ys h =
      let (k, l) = Slots-split xs ys (λ i. h (suc i)) in (Slots-cons x xs (h 0 x refl) k, l)

module _ {S : Type 0} (P : ℕ → Type 0) (enabled : S → Bool) (fields : S → List ℕ) where
  -- Every field of every enabled slot.
  AllFields : List S → Type 0
  AllFields ss = (i : ℕ) (s : S) → get_elem? ss i ≡ some s → enabled s ≡ true → Slots P (fields s)

  slot_refs-AllFields : (ss : List S) → Slots P (slot_refs enabled fields ss) → AllFields ss
  unfolding slot_refs AllFields
  slot_refs-AllFields [] h i s e on = cc
  slot_refs-AllFields (t ∷ ss) h zero s e on =
      let z : t ≡ s = ground arith in
      let on' : enabled t ≡ true = ap enabled z ∙ on in
      let h' = rw on' at h in
      rw (sym z) (Slots-split P (fields t) (slot_refs enabled fields ss) h').0
  slot_refs-AllFields (t ∷ ss) h (suc i) s e on = elim (Bool-cases (enabled t)) [
    | inl f ↦
        (let h' = rw f at h in
          slot_refs-AllFields ss (Slots-split P (fields t) (slot_refs enabled fields ss) h').1 i s e
            on)
    | inr f ↦ slot_refs-AllFields ss (rw f at h) i s e on
  ]

  AllFields-slot_refs : (ss : List S) → AllFields ss → Slots P (slot_refs enabled fields ss)
  unfolding slot_refs AllFields
  AllFields-slot_refs [] h = λ i x e. cc
  AllFields-slot_refs (t ∷ ss) h =
      let rest = AllFields-slot_refs ss (λ i. h (suc i)) in
      elim (Bool-cases (enabled t)) [
        | inl f ↦ rw f (Slots-append P (fields t) _ (h 0 t refl f) rest)
        | inr f ↦ rw f rest
      ]

module _ {S : Type 0} (P : ℕ → Type 0) (enabled : S → Bool) where
  one-Slots :
      (f : S → ℕ) (ss : List S)
      → ((i : ℕ) (s : S) → get_elem? ss i ≡ some s → enabled s ≡ true → P (f s))
      → Slots P (slot_refs enabled (λ s. f s ∷ []) ss)
  unfolding AllFields
  one-Slots f ss h =
      AllFields-slot_refs P enabled (λ s. f s ∷ []) ss
        λ i s e on. Slots-cons P (f s) [] (h i s e on) (λ j x k. cc)

  three-Slots :
      (f g k : S → ℕ) (ss : List S)
      → ((i : ℕ) (s : S)
          → get_elem? ss i ≡ some s
          → enabled s ≡ true
          → P (f s) × (P (g s) × P (k s)))
      → Slots P (slot_refs enabled (λ s. f s ∷ g s ∷ k s ∷ []) ss)
  unfolding AllFields
  three-Slots f g k ss h =
      AllFields-slot_refs P enabled (λ s. f s ∷ g s ∷ k s ∷ []) ss
        λ i s e on.
          let (p, (q, r)) = h i s e on in
          Slots-cons P (f s) (g s ∷ k s ∷ []) p
            (Slots-cons P (g s) (k s ∷ []) q (Slots-cons P (k s) [] r (λ j x l. cc)))

module _ {W : Type 0} (c : DeviceConfig W) (P : ℕ → Type 0) where
  refs-Reads : Slots P (refs c) → (r : ℕ) → Reads c r → P r
  unfolding refs AllFields
  refs-Reads h =
      let (h1, r1) = Slots-split P (output_refs c) _ h in
      let (h2, r2) = Slots-split P (can_output_refs c) _ r1 in
      let (h3, r3) = Slots-split P (virtual_input_refs c) _ r2 in
      let (h4, r4) = Slots-split P (condition_refs c) _ r3 in
      let (h5, h6) = Slots-split P (counter_refs c) (flasher_refs c) r4 in
      go (slot_refs-AllFields P (λ s. s.enabled) (λ s. s.input ∷ []) c.outputs h1)
        (slot_refs-AllFields P (λ s. s.enabled) (λ s. s.input ∷ []) c.can_outputs h2)
        (slot_refs-AllFields P (λ s. s.enabled) (λ s. s.var0 ∷ s.var1 ∷ s.var2 ∷ [])
          c.virtual_inputs h3)
        (slot_refs-AllFields P (λ s. s.enabled) (λ s. s.input ∷ []) c.conditions h4)
        (slot_refs-AllFields P (λ s. s.enabled)
          (λ s. s.inc_input ∷ s.dec_input ∷ s.reset_input ∷ []) c.counters h5)
        (slot_refs-AllFields P (λ s. s.enabled) (λ s. s.input ∷ []) c.flashers h6)
    where
      go :
          AllFields P (λ (s : OutputConfig). s.enabled) (λ s. s.input ∷ []) c.outputs
          → AllFields P (λ (s : CanOutputConfig W). s.enabled) (λ s. s.input ∷ []) c.can_outputs
          → AllFields P
              (λ (s : VirtualInputConfig). s.enabled)
              (λ s. s.var0 ∷ s.var1 ∷ s.var2 ∷ [])
              c.virtual_inputs
          → AllFields P (λ (s : ConditionConfig W). s.enabled) (λ s. s.input ∷ []) c.conditions
          → AllFields P
              (λ (s : CounterConfig). s.enabled)
              (λ s. s.inc_input ∷ s.dec_input ∷ s.reset_input ∷ [])
              c.counters
          → AllFields P (λ (s : FlasherConfig). s.enabled) (λ s. s.input ∷ []) c.flashers
          → (r : ℕ) → Reads c r
          → P r
      go h1 h2 h3 h4 h5 h6 r (output_input i s e on) = h1 i s e on 0 s.input refl
      go h1 h2 h3 h4 h5 h6 r (can_output_input i s e on) = h2 i s e on 0 s.input refl
      go h1 h2 h3 h4 h5 h6 r (first_var i s e on) = h3 i s e on 0 s.var0 refl
      go h1 h2 h3 h4 h5 h6 r (second_var i s e on) = h3 i s e on 1 s.var1 refl
      go h1 h2 h3 h4 h5 h6 r (third_var i s e on) = h3 i s e on 2 s.var2 refl
      go h1 h2 h3 h4 h5 h6 r (condition_input i s e on) = h4 i s e on 0 s.input refl
      go h1 h2 h3 h4 h5 h6 r (inc_input i s e on) = h5 i s e on 0 s.inc_input refl
      go h1 h2 h3 h4 h5 h6 r (dec_input i s e on) = h5 i s e on 1 s.dec_input refl
      go h1 h2 h3 h4 h5 h6 r (reset_input i s e on) = h5 i s e on 2 s.reset_input refl
      go h1 h2 h3 h4 h5 h6 r (flasher_input i s e on) = h6 i s e on 0 s.input refl

  Reads-refs : ((r : ℕ) → Reads c r → P r) → Slots P (refs c)
  unfolding refs
  Reads-refs h =
      Slots-append P (output_refs c) _
        (one-Slots P (λ s. s.enabled) (λ s. s.input) c.outputs
          (λ i s e on. h s.input (output_input i s e on)))
        (Slots-append P (can_output_refs c) _
          (one-Slots P (λ s. s.enabled) (λ s. s.input) c.can_outputs
            (λ i s e on. h s.input (can_output_input i s e on)))
          (Slots-append P (virtual_input_refs c) _
            (three-Slots P (λ s. s.enabled) (λ s. s.var0) (λ s. s.var1) (λ s. s.var2)
              c.virtual_inputs
              (λ i s e on. (
                h s.var0 (first_var i s e on),
                (h s.var1 (second_var i s e on), h s.var2 (third_var i s e on)),
              )))
            (Slots-append P (condition_refs c) _
              (one-Slots P (λ s. s.enabled) (λ s. s.input) c.conditions
                (λ i s e on. h s.input (condition_input i s e on)))
              (Slots-append P (counter_refs c) _
                (three-Slots P (λ s. s.enabled) (λ s. s.inc_input) (λ s. s.dec_input)
                  (λ s. s.reset_input) c.counters
                  (λ i s e on. (
                    h s.inc_input (inc_input i s e on),
                    (h s.dec_input (dec_input i s e on), h s.reset_input (reset_input i s e on)),
                  )))
                (one-Slots P (λ s. s.enabled) (λ s. s.input) c.flashers
                  (λ i s e on. h s.input (flasher_input i s e on)))))))

-- The pins of each board, and that they are what it measures.
unfoldable agree_below : (n : ℕ) → Board → List ℕ → Bool
agree_below zero b pins = true
agree_below (suc n) b pins =
    (if is_among n pins then is_measured b n else not (is_measured b n)) && agree_below n b pins

agree_below_lem :
    (n : ℕ) (b : Board) (pins : List ℕ) (r : ℕ)
    → agree_below n b pins ≡ true
    → r < n
    → is_among r pins ≡ is_measured b r
unfolding agree_below
agree_below_lem zero b pins r h k = elim k [ ]
agree_below_lem (suc n) b pins r h k = elim (Bool-cases (r == n)) [
  | inl e ↦ (let same : r ≡ n = ground arith in rw same (ground arith))
  | inr e ↦ agree_below_lem n b pins r (ground arith) (ground arith)
]

abbrev pins_of : Board → List ℕ
pins_of b = elim (pinned b) [ ok pins ↦ pins | _ ↦ [] ]

pins-measured :
    (b : Board)
    → Registered b
    → (pinned b ≡ ok (pins_of b)) × (agree_below (size b) b (pins_of b) ≡ true)
unfolding pinned indices pinned_names layout agree_below is_measured is_among
pins-measured b v7 = (refl, refl)
pins-measured b max_v1 = (refl, refl)
pins-measured b dpdm4_1 = (refl, refl)
pins-measured b canboard = (refl, refl)

-- On a registered board, a config is accepted just when every variable that an enabled slot reads is
-- in the map, and is none that the board measures.
pub validate_refs_iff :
    {W : Type 0} (c : DeviceConfig W)
    → Registered c.board
    → (validate_refs c ≡ ok tt)
      ↔ ((r : ℕ) → Reads c r → (r < size c.board) × (is_measured c.board r ≡ false))
validate_refs_iff c known = (to, from)
  where
    pins : List ℕ
    pins = pins_of c.board

    agree : (r : ℕ) → r < size c.board → is_among r pins ≡ is_measured c.board r
    agree r h = agree_below_lem (size c.board) c.board pins r (pins-measured c.board known).1 h

    slots :
        (validate_refs c ≡ ok tt)
        ↔ (Slots (λ r. r < size c.board) (refs c) × Slots (λ r. is_among r pins ≡ false) (refs c))
    slots = validate_refs-Slots c pins (pins-measured c.board known).0

    to :
        validate_refs c ≡ ok tt
        → (r : ℕ) → Reads c r
        → (r < size c.board) × (is_measured c.board r ≡ false)
    to h r k =
        let (a, b) = slots.0 h in
        let below = refs-Reads c (λ r. r < size c.board) a r k in
        (below, sym (agree r below) ∙ refs-Reads c (λ r. is_among r pins ≡ false) b r k)

    from :
        ((r : ℕ) → Reads c r → (r < size c.board) × (is_measured c.board r ≡ false))
        → validate_refs c ≡ ok tt
    from h = slots.1 (
      Reads-refs c (λ r. r < size c.board) (λ r k. (h r k).0),
      Reads-refs c (λ r. is_among r pins ≡ false) (λ r k. agree r (h r k).0 ∙ (h r k).1),
    )
