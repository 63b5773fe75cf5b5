-- ===== src/Trace/Silence.antt =====
-- The identifiers that a trace silences: `silent` in `Trace.cycles`, and the frames that are left.
use dingo_cli.Prelude.{
  ℕ, ◌≡◌, refl, sym, ap, ◌∙◌, inl, inr, true, false, not, ◌&&◌, ◌||◌, Bool-cases, none, List, [],
  ◌∷◌, arith, ◌==◌, ==_iff, if◌then◌else◌,
}
use dingo_cli.Prelude.Results.{ok, >>=-eq-ok}
use dingo_cli.Trace.{
  Step, Wires, find, is_silent, discard, hush, unhush, apply_step, sounding, set_bits, set_bytes,
  set_pins,
}

same_refl : (i : ℕ) → (i == i) ≡ true
same_refl i = (==_iff i i).1 refl

is_silent-discard :
    (i j : ℕ) (xs : List ℕ) → is_silent i (discard j xs) ≡ is_silent i xs && not (j == i)
unfolding is_silent discard
is_silent-discard i j [] = ground arith
is_silent-discard i j (x ∷ xs) = elim (Bool-cases (x == j)) [
  | inl f ↦
      (let e : x ≡ j = (==_iff x j).0 f in rw (f, e) (is_silent-discard i j xs ∙ ground arith))
  | inr f ↦ rw (f, is_silent-discard i j xs) (ground arith)
]

-- An identifier that is silent already adds nothing.
is_silent_known :
    (i id : ℕ) (ids xs : List ℕ)
    → is_silent id xs ≡ true
    → is_silent i ids || is_silent i xs ≡ is_silent i (id ∷ ids) || is_silent i xs
unfolding is_silent
is_silent_known i id ids xs f = elim (Bool-cases (id == i)) [
  | inl g ↦
      (let e : is_silent i xs ≡ true = ap (λ j. is_silent j xs) (sym ((==_iff id i).0 g)) ∙ f in
        ground (arith, e))
  | inr g ↦ rw g refl
]

is_silent-hush :
    (i : ℕ) (ids xs : List ℕ) → is_silent i (hush ids xs) ≡ is_silent i ids || is_silent i xs
unfolding is_silent hush
is_silent-hush i [] xs = refl
is_silent-hush i (id ∷ ids) xs = elim (Bool-cases (is_silent id xs)) [
  | inl f ↦ rw f (is_silent-hush i ids xs ∙ is_silent_known i id ids xs f)
  | inr f ↦ rw f (is_silent-hush i ids (id ∷ xs) ∙ ground arith)
]

is_silent-unhush :
    (i : ℕ) (ids xs : List ℕ)
    → is_silent i (unhush ids xs) ≡ is_silent i xs && not (is_silent i ids)
unfolding is_silent unhush
is_silent-unhush i [] xs = ground arith
is_silent-unhush i (id ∷ ids) xs =
    is_silent-unhush i ids (discard id xs) ∙ rw (is_silent-discard i id xs) (ground arith)

find-sounding :
    (i : ℕ) (ps : List (ℕ × List ℕ)) (silent : List ℕ)
    → find i (sounding ps silent) ≡ (if is_silent i silent then none else find i ps)
unfolding find sounding
find-sounding i [] silent = ground arith
find-sounding i ((k, b) ∷ ps) silent = elim (Bool-cases (is_silent k silent)) [
  | inl f ↦ elim (Bool-cases (k == i)) [
    | inl g ↦
        (let e : is_silent i silent ≡ true =
            ap (λ j. is_silent j silent) (sym ((==_iff k i).0 g)) ∙ f in
          rw (f, g, e) (find-sounding i ps silent ∙ rw e refl))
    | inr g ↦ rw (f, g) (find-sounding i ps silent)
  ]
  | inr f ↦ elim (Bool-cases (k == i)) [
    | inl g ↦
        (let e : is_silent i silent ≡ false =
            ap (λ j. is_silent j silent) (sym ((==_iff k i).0 g)) ∙ f in
          rw (f, g, e) refl)
    | inr g ↦ rw (f, g) (find-sounding i ps silent)
  ]
]

-- After a step, the identifiers that are silent are those that the step quiets, and those that were
-- silent before, but for those that it makes loud; and a frame is sent with its buffer just when its
-- identifier is not silent.
pub apply_step-silent :
    (s : Step) (w w' : Wires) (i : ℕ)
    → apply_step s w ≡ ok w'
    → find i (sounding w'.payloads w'.silent) ≡ (
        if (is_silent i s.quiet || is_silent i w.silent) && not (is_silent i s.loud)
        then none
        else find i w'.payloads)
unfolding apply_step
apply_step-silent s w w' i h =
    let (ps, e, f) = >>=-eq-ok (set_bits s.bits w.payloads) _ h in
    let same : w' ≡ record {
      pins = set_pins s.pins w.pins;
      payloads = set_bytes s.bytes ps;
      silent = unhush s.loud (hush s.quiet w.silent);
    } =
      sym (ground arith) in
    let now : w'.silent ≡ unhush s.loud (hush s.quiet w.silent) =
      ap (λ (v : Wires). v.silent) same in
    let is : is_silent i w'.silent
        ≡ (is_silent i s.quiet || is_silent i w.silent) && not (is_silent i s.loud) =
      ap (is_silent i) now
      ∙ is_silent-unhush i s.loud (hush s.quiet w.silent)
      ∙ ap (λ b. b && not (is_silent i s.loud)) (is_silent-hush i s.quiet w.silent) in
    find-sounding i w'.payloads w'.silent ∙ rw is refl
