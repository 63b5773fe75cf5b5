-- ===== src/Crosscheck/Sound.antt =====
-- What an empty result of the cross check says.
use dingo_cli.Prelude.{
  ◌⊎◌, ℕ, zero, suc, ◌+◌, ◌≡◌, ◌↔◌, refl, sym, ◌∙◌, inl, inr, Bool, true, false, not, ◌&&◌, ◌||◌,
  Bool-cases, Option, none, some, List, [], ◌∷◌, ◌++◌, arith, length, get_elem?, ◌==◌, ==_iff,
}
use dingo_cli.Equiv.{sorted_keys, lookup, is_key}
use dingo_cli.Equiv.Keys.{IsEquality, is_named, is_named-sorted_keys}
use dingo_cli.Crosscheck.{
  Mismatch, is_excused, are_apart, is_wrong, wrong_keys, all_keys, at_all, mismatches, compare_runs,
}

module _ {K V : Type 0} (same before : K → K → Bool) (is_can : K → Bool) (far : V → V → Bool)
    (skip : Bool) (eq : IsEquality same) where
  wrong_keys-nil :
      (i : ℕ) (p c : List (K × V)) (ks : List K)
      → (wrong_keys same before is_can far skip i p c ks ≡ []) ↔ (
          (k : K)
          → is_named same k ks ≡ true
          → is_wrong same before is_can far skip i p c k ≡ false)
  unfolding wrong_keys is_named
  wrong_keys-nil i p c [] = (λ e k h. cc, λ h. refl)
  wrong_keys-nil i p c (l ∷ ks) =
      let ih = wrong_keys-nil i p c ks in
      elim (Bool-cases (is_wrong same before is_can far skip i p c l)) [
        | inl f ↦ (
          λ e k h. absurd (let e' = rw f at e in cc),
          λ h. absurd (let z = h l (rw (eq.0 l) refl) in cc),
        )
        | inr f ↦ (
          λ e k h. elim (Bool-cases (same k l)) [
            | inl g ↦ rw (eq.1 k l g) f
            | inr g ↦ ih.0 (rw f at e) k (ground arith)
          ],
          λ h. rw f (ih.1 (λ k m. h k (rw m (ground arith)))),
        )
      ]

  -- A signal of cycle `i` has close values in the two observations, or the firmware has none of a CAN
  -- signal in the first cycle, where that is excused.
  abbrev Close : (i : ℕ) → K → (python fwhost : Option V) → Type 0
  Close i k a b =
      ((x : V) × ((y : V) × (a ≡ some x) × (b ≡ some y) × (far x y ≡ false)))
      ⊎ ((b ≡ none) × (is_can k ≡ true) × (i ≡ 0) × (skip ≡ true))

  abbrev pub Matches : (i : ℕ) → (python fwhost : List (K × V)) → K → Type 0
  Matches i p c k = Close i k (lookup same k p) (lookup same k c)

  excused_first :
      (i : ℕ) (k : K)
      → not (is_can k && (i == 0 && skip)) ≡ false
      → (is_can k ≡ true) × (i ≡ 0) × (skip ≡ true)
  excused_first i k h = (ground arith, ground arith, ground arith)

  apart-Close :
      (i : ℕ) (k : K) (a b : Option V)
      → (not (is_excused same before is_can far skip i k b)
            && are_apart same before is_can far skip a b
          ≡ false)
        ↔ Close i k a b
  unfolding is_excused are_apart
  apart-Close i k none none = (
    λ h. (let (f, g, h') = excused_first i k (ground arith) in inr (refl, f, g, h')),
    λ m. elim m [ inl (x, (y, e, f, g)) ↦ cc | inr (e, f, g, h) ↦ ground arith ],
  )
  apart-Close i k none (some y) =
      (λ h. cc, λ m. elim m [ inl (x, (z, e, f, g)) ↦ cc | inr (e, f, g, h) ↦ cc ])
  apart-Close i k (some x) none = (
    λ h. (let (f, g, h') = excused_first i k (ground arith) in inr (refl, f, g, h')),
    λ m. elim m [ inl (z, (y, e, f, g)) ↦ cc | inr (e, f, g, h) ↦ ground arith ],
  )
  apart-Close i k (some x) (some y) = (
    λ h. inl (x, (y, refl, refl, h)),
    λ m. elim m [ inl (z, (u, e, f, g)) ↦ ground arith | inr (e, f, g, h) ↦ cc ],
  )

  is_wrong-Matches :
      (i : ℕ) (p c : List (K × V)) (k : K)
      → (is_wrong same before is_can far skip i p c k ≡ false) ↔ Matches i p c k
  unfolding is_wrong
  is_wrong-Matches i p c k = apart-Close i k (lookup same k p) (lookup same k c)

  all_keys-is_key :
      (p c : List (K × V)) (k : K)
      → is_named same k (all_keys same before is_can far skip p c)
        ≡ is_key same k p || is_key same k c
  unfolding all_keys
  all_keys-is_key p c k =
      let one = is_named-sorted_keys same before k c (sorted_keys same before p []) eq in
      let two = is_named-sorted_keys same before k p [] eq in unfold is_named in ground arith

  at_all-nil :
      (i : ℕ) (ks : List K) (more : List (Mismatch K))
      → at_all same before is_can far skip i ks ++ more ≡ []
      → (ks ≡ []) × (more ≡ [])
  at_all-nil i [] more e = (refl, e)
  at_all-nil i (k ∷ ks) more e = cc

  abbrev pub AllMatch : (i : ℕ) → (python fwhost : List (List (K × V))) → Type 0
  AllMatch i ps cs =
      (j : ℕ) (p c : List (K × V))
      → get_elem? ps j ≡ some p
      → get_elem? cs j ≡ some c
      → (k : K) → is_key same k p || is_key same k c ≡ true
      → Matches (i + j) p c k

  mismatches-head :
      (i : ℕ) (p c : List (K × V)) (ps cs : List (List (K × V)))
      → (mismatches same before is_can far skip i (p ∷ ps) (c ∷ cs) ≡ []) ↔ (
          ((k : K) → is_key same k p || is_key same k c ≡ true → Matches i p c k)
          × (mismatches same before is_can far skip (suc i) ps cs ≡ []))
  unfolding mismatches
  mismatches-head i p c ps cs =
      let ks = all_keys same before is_can far skip p c in
      let here = wrong_keys-nil i p c ks in
      (
        λ h.
            (let (none_wrong, rest) =
                at_all-nil i (wrong_keys same before is_can far skip i p c ks) _ h in
              (
                λ k m.
                    (is_wrong-Matches i p c k).0 (here.0 none_wrong k (all_keys-is_key p c k ∙ m)),
                rest,
              )),
        λ (now, rest).
            (let none_wrong =
                here.1
                  (λ k m. (is_wrong-Matches i p c k).1 (now k (sym (all_keys-is_key p c k) ∙ m))) in
              rw (none_wrong, rest) refl),
      )

  AllMatch-cons :
      (i : ℕ) (p c : List (K × V)) (ps cs : List (List (K × V)))
      → ((k : K) → is_key same k p || is_key same k c ≡ true → Matches i p c k)
      → AllMatch (suc i) ps cs
      → AllMatch i (p ∷ ps) (c ∷ cs)
  AllMatch-cons i p c ps cs now rest zero q b e f k m =
      let x : p ≡ q = ground arith in
      let y : c ≡ b = ground arith in
      let z : i ≡ i + 0 = omega arith in rw (sym x, sym y, sym z) (now k (rw (x, y) m))
  AllMatch-cons i p c ps cs now rest (suc j) q b e f k m =
      let z : suc i + j ≡ i + suc j = omega arith in rw (sym z) (rest j q b e f k m)

  mismatches-nil :
      (i : ℕ) (ps cs : List (List (K × V)))
      → (mismatches same before is_can far skip i ps cs ≡ []) ↔ AllMatch i ps cs
  mismatches-nil i [] [] = (λ h j p c e f. cc, λ h. unfold mismatches in refl)
  mismatches-nil i [] (c ∷ cs) = (λ h j p c e f. cc, λ h. unfold mismatches in refl)
  mismatches-nil i (p ∷ ps) [] = (λ h j p c e f. cc, λ h. unfold mismatches in refl)
  mismatches-nil i (p ∷ ps) (c ∷ cs) =
      let head = mismatches-head i p c ps cs in
      let ih = mismatches-nil (suc i) ps cs in
      (
        λ h. (let (now, rest) = head.0 h in AllMatch-cons i p c ps cs now (ih.0 rest)),
        λ h. head.1 (
          λ k m. (let z : i + 0 ≡ i = omega arith in rw z at (h 0 p c refl refl k m)),
          ih.1 (λ j q b e f k m.
              let z : i + suc j ≡ suc i + j = omega arith in rw z at (h (suc j) q b e f k m)),
        ),
      )

  -- The cross check reports nothing just when the two runs have as many cycles, and in each cycle every
  -- signal of either has close values in both, but that in the first cycle the firmware may have none of
  -- a CAN signal, where this is excused. `same` is the equality of names.
  pub compare_runs_iff :
      (ps cs : List (List (K × V)))
      → (compare_runs same before is_can far skip ps cs ≡ [])
        ↔ ((length ps ≡ length cs) × AllMatch 0 ps cs)
  unfolding compare_runs
  compare_runs_iff ps cs =
      let all = mismatches-nil 0 ps cs in
      elim (Bool-cases (length ps == length cs)) [
        | inl f ↦ rw f (λ h. ((==_iff _ _).0 f, all.0 h), λ (n, h). all.1 h)
        | inr f ↦ rw f (λ h. absurd (cc), λ (n, h). absurd (let z = (==_iff _ _).1 n in cc))
      ]
