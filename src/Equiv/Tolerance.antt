-- ===== src/Equiv/Tolerance.antt =====
-- When `compare` of equiv.py finds nothing to report.
use dingo_cli.Prelude.{
  ℕ, zero, suc, ◌+◌, ◌<◌, ◌≡◌, ◌≢◌, ◌⊎◌, ◌↔◌, inl, inr, refl, ◌∙◌, sym, ap, Bool, true, false, some,
  List, [], ◌∷◌, ◌++◌, arith, length, get_elem?, ltb, if◌then◌else◌,
}
use dingo_cli.Prelude.Int.{ℤ, pos, negsuc}
use dingo_cli.Equiv.{
  Best, stop_or, Row, negatives, positives, shifted, differ, bad_cycles, best_shift, align, verdict,
}

-- A shift that is not 0.
abbrev IsShift : ℤ → Type 0
IsShift z = z ≢ pos 0

abbrev AreShifts : List ℤ → Type 0
AreShifts zs = (i : ℕ) (z : ℤ) → get_elem? zs i ≡ some z → IsShift z

AreShifts-cons : (z : ℤ) (zs : List ℤ) → IsShift z → AreShifts zs → AreShifts (z ∷ zs)
AreShifts-cons z zs h k zero y e = let same : z ≡ y = ground arith in rw (sym same) h
AreShifts-cons z zs h k (suc i) y e = k i y e

positives-AreShifts : (from left : ℕ) → AreShifts (positives from left)
unfolding positives
positives-AreShifts from zero = λ i z e f. cc
positives-AreShifts from (suc left) =
    AreShifts-cons _ _ (λ e. ground arith) (positives-AreShifts (suc from) left)

order-AreShifts : (tolerance m : ℕ) → AreShifts (negatives tolerance ++ positives 0 m)
unfolding negatives
order-AreShifts zero m = positives-AreShifts 0 m
order-AreShifts (suc t) m = AreShifts-cons _ _ (λ e. cc) (order-AreShifts t m)

List-cases : (xs : List ℕ) → (xs ≡ []) ⊎ (xs ≢ [])
List-cases [] = inl refl
List-cases (x ∷ xs) = inr (λ e. cc)

module _ {W : Type 0} (equal : W → W → Bool) where
  -- The best shift is one that says something: it is not 0, or cycles differ.
  Tells : ℤ × List ℕ → Type 0
  Tells best = IsShift best.0 ⊎ (best.1 ≢ [])

  pick-Tells :
      (bad : List ℕ) (best later : ℤ × List ℕ)
      → Tells best
      → Tells later
      → Tells (stop_or bad best later)
  pick-Tells [] best later h k = h
  pick-Tells (i ∷ bad) best later h k = k

  better-Tells :
      (b : Bool) (z : ℤ) (bad : List ℕ) (best : ℤ × List ℕ)
      → IsShift z
      → Tells best
      → Tells (if b then (z, bad) else best)
  unfolding Tells
  better-Tells true z bad best h k = inl h
  better-Tells false z bad best h k = k

  best_shift-Tells :
      (n : ℕ) (xs ys : List W) (zs : List ℤ) (best : ℤ × List ℕ)
      → AreShifts zs
      → Tells best
      → Tells (best_shift equal n xs ys zs best)
  unfolding best_shift
  best_shift-Tells n xs ys [] best h k = k
  best_shift-Tells n xs ys (z ∷ zs) best h k =
      let bad = bad_cycles equal n z xs ys 0 n in
      let next = better-Tells (ltb (length bad) (length best.1)) z bad best (h 0 z refl) k in
      pick-Tells bad _ _ next (best_shift-Tells n xs ys zs _ (λ i. h (suc i)) next)

  align-eq :
      (tolerance n : ℕ) (xs ys : List W)
      → bad_cycles equal n (pos 0) xs ys 0 n ≡ []
      → align equal tolerance n xs ys ≡ (pos 0, [])
  unfolding align
  align-eq tolerance n xs ys h = rw h refl

  align-Tells :
      (tolerance n : ℕ) (xs ys : List W)
      → bad_cycles equal n (pos 0) xs ys 0 n ≢ []
      → Tells (align equal tolerance n xs ys)
  unfolding align Tells
  align-Tells tolerance n xs ys h =
      let bad = bad_cycles equal n (pos 0) xs ys 0 n in
      go bad _ h
        (best_shift-Tells n xs ys _ (pos 0, bad) (order-AreShifts tolerance tolerance) (says bad h))
    where
      says : (bad : List ℕ) → bad ≢ [] → Tells (pos 0, bad)
      says bad h = inr h

      go :
          (bad : List ℕ) (later : Best)
          → bad ≢ []
          → Tells later
          → Tells (stop_or bad (pos 0, bad) later)
      go [] later k h = absurd (k refl)
      go (i ∷ bad) later k h = h

  verdict-Tells :
      {K : Type 0} (limit : ℕ) (k : K) (log_a : List (Row K W)) (xs ys : List W) (best : ℤ × List ℕ)
      → Tells best
      → verdict limit k log_a xs ys best ≢ []
  unfolding verdict Tells
  verdict-Tells limit k log_a xs ys (z, i ∷ bad) h e = cc
  verdict-Tells limit k log_a xs ys (pos zero, []) (inl h) e = h refl
  verdict-Tells limit k log_a xs ys (pos zero, []) (inr h) e = h refl
  verdict-Tells limit k log_a xs ys (pos (suc m), []) h e = cc
  verdict-Tells limit k log_a xs ys (negsuc m, []) h e = cc

  -- There is a verdict on a signal just where it differs in some cycle with no shift: a tolerance
  -- changes what is said, not whether something is.
  pub verdict-align :
      {K : Type 0} (tolerance limit n : ℕ) (k : K) (log_a : List (Row K W)) (xs ys : List W)
      → (verdict limit k log_a xs ys (align equal tolerance n xs ys) ≡ [])
        ↔ (bad_cycles equal n (pos 0) xs ys 0 n ≡ [])
  unfolding verdict
  verdict-align tolerance limit n k log_a xs ys = (
    λ e. elim (List-cases (bad_cycles equal n (pos 0) xs ys 0 n)) [
      | inl f ↦ f
      | inr f ↦ absurd (
          verdict-Tells limit k log_a xs ys (align equal tolerance n xs ys)
            (align-Tells tolerance n xs ys f) e)
    ],
    λ f. rw (align-eq tolerance n xs ys f) refl,
  )

  pub bad_cycles_sound :
      (n : ℕ) (xs ys : List W) (i left : ℕ)
      → bad_cycles equal n (pos 0) xs ys i left ≡ []
      → i + left ≡ n
      → (j : ℕ) (x y : W) → i + j < n
      → get_elem? xs (i + j) ≡ some x
      → get_elem? ys (i + j) ≡ some y
      → equal x y ≡ true
  unfolding bad_cycles shifted differ
  bad_cycles_sound n xs ys i zero h e j x y k l m = absurd (omega arith)
  bad_cycles_sound n xs ys i (suc left) h e zero x y k l m =
      let z : i + 0 ≡ i = omega arith in
      let l' : get_elem? xs i ≡ some x = ap (get_elem? xs) (sym z) ∙ l in
      let m' : get_elem? ys i ≡ some y = ap (get_elem? ys) (sym z) ∙ m in ground arith
  bad_cycles_sound n xs ys i (suc left) h e (suc j) x y k l m =
      let z : i + suc j ≡ suc i + j = omega arith in
      let l' : get_elem? xs (suc i + j) ≡ some x = ap (get_elem? xs) (sym z) ∙ l in
      let m' : get_elem? ys (suc i + j) ≡ some y = ap (get_elem? ys) (sym z) ∙ m in
      bad_cycles_sound n xs ys (suc i) left (ground arith) (omega arith) j x y (omega arith) l' m'
