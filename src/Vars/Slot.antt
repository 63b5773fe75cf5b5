-- ===== src/Vars/Slot.antt =====
-- One slot's turn in a category: what it finds, and what is left of what it writes.
use native.Mathlib.Nat.{mul-le-mul_left}
use dingo_cli.Prelude.{
  ℕ, zero, suc, ◌+◌, ◌*◌, ◌≤◌, ◌≡◌, refl, ◌∙◌, sym, List, [], ◌∷◌, some, arith, length, get_elem?,
}
use dingo_cli.Prelude.Results.{Result, ok, Outcome, Outcome-result, >>=-eq-ok}
use dingo_cli.Vars.{run_slots}
use dingo_cli.Vars.Frame.{Frame, Frame-refl, Frame-trans, Frame-widen, run_slots-Frame}

module _ {S T A : Type 0} (update : ℕ → S → T → List A → Result (T × List A)) (base width : ℕ) where
  -- The turn of slot `j`, in a run that starts with `xs` and ends with `zs`.
  pub record Turn (j last : ℕ) (s : S) (t : T) (xs zs : List A) : Type 0 where
    pub found : List A
    pub state : T
    pub left : List A
    pub update_eq : update j s t found ≡ ok (state, left)
    pub before : Frame base (base + width * j) xs found
    pub after : Frame (base + width * suc j) (base + width * last) left zs

  pub Turn-eq :
      (j j' last last' : ℕ) (s : S) (t : T) (xs zs : List A)
      → j ≡ j'
      → last ≡ last'
      → Turn j last s t xs zs
      → Turn j' last' s t xs zs
  Turn-eq j j' last last' s t xs zs e f turn = rw (sym e, sym f) turn

  pub run_slots-Turn :
      {E : Type 0} (Good : S → Type 0) (n : ℕ)
      → ((i : ℕ) (s : S) (t : T) (xs : List A)
          → Good s
          → length xs ≡ n
          → base + width * suc i ≤ n
          → Outcome E
              (λ r. Frame (base + width * i) (base + width * suc i) xs r.1)
              (update i s t xs))
      → (i : ℕ) (ss : List S) (ts : List T) (xs : List A) (ts' : List T) (zs : List A)
      → ((j : ℕ) (s : S) → get_elem? ss j ≡ some s → Good s)
      → length ss ≡ length ts
      → length xs ≡ n
      → base + width * (i + length ss) ≤ n
      → run_slots update i ss ts xs ≡ ok (ts', zs)
      → (j : ℕ) (s : S) (t : T) → get_elem? ss j ≡ some s
      → get_elem? ts j ≡ some t
      → Turn (i + j) (i + length ss) s t xs zs
  unfolding run_slots
  run_slots-Turn Good n one i [] ts xs ts' zs good e f h run j s t k l = cc
  run_slots-Turn Good n one i (s' ∷ ss) [] xs ts' zs good e f h run j s t k l = cc
  run_slots-Turn Good n one i (s' ∷ ss) (t' ∷ ts) xs ts' zs good e f h run zero s t k l =
      let (r, a, b) = >>=-eq-ok (update i s' t' xs) _ run in
      let (q, a', b') = >>=-eq-ok (run_slots update (suc i) ss ts r.1) _ b in
      let g = Outcome-result _ r (one i s' t' xs (good 0 s' refl) f (omega arith)) a in
      let rest =
        Outcome-result _ q
          (run_slots-Frame update base width Good n one (suc i) ss ts r.1 (λ m. good (suc m))
            (omega arith) (g.same_length ∙ f) (omega arith))
          a' in
      let same_s : s' ≡ s = ground arith in
      let same_t : t' ≡ t = ground arith in
      let same_z : q.1 ≡ zs = ground arith in
      let z : i + 0 ≡ i = omega arith in
      let y : i + suc (length ss) ≡ suc i + length ss = omega arith in
      rw (z, y, sym same_s, sym same_t, sym same_z)
        (record {
          found = xs;
          state = r.0;
          left = r.1;
          update_eq = a;
          before = Frame-refl _ _ xs;
          after = rest.1;
        })
  run_slots-Turn Good n one i (s' ∷ ss) (t' ∷ ts) xs ts' zs good e f h run (suc j) s t k l =
      let (r, a, b) = >>=-eq-ok (update i s' t' xs) _ run in
      let (q, a', b') = >>=-eq-ok (run_slots update (suc i) ss ts r.1) _ b in
      let g = Outcome-result _ r (one i s' t' xs (good 0 s' refl) f (omega arith)) a in
      let turn =
        run_slots-Turn Good n one (suc i) ss ts r.1 q.0 q.1 (λ m. good (suc m)) (omega arith)
          (g.same_length ∙ f) (omega arith) a' j s t k l in
      let same_z : q.1 ≡ zs = ground arith in
      let z : i + suc j ≡ suc i + j = omega arith in
      let y : i + suc (length ss) ≡ suc i + length ss = omega arith in
      rw (z, y, sym same_z)
        (record {
          found = turn.found;
          state = turn.state;
          left = turn.left;
          update_eq = turn.update_eq;
          before =
              Frame-trans
                (Frame-widen (omega arith) (omega (arith, mul-le-mul_left width (within i j))) g)
                turn.before;
          after = turn.after;
        })
    where
      within : (i j : ℕ) → suc i ≤ suc i + j
      within i j = omega arith
