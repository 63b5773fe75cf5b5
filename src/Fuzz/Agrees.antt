-- ===== src/Fuzz/Agrees.antt =====
-- The verdict of the fuzzer against the cross check.
use dingo_cli.Prelude.{
  ℕ, suc, ◌≡◌, ◌≢◌, ◌↔◌, refl, inl, inr, Bool, true, not, ◌&&◌, Bool-cases, List, [], ◌∷◌, ◌++◌,
  length, ◌==◌, ==_iff,
}
use dingo_cli.Crosscheck.{is_wrong, wrong_keys, all_keys, at_all, mismatches, compare_runs}
use dingo_cli.Fuzz.{Verdict, agree, tagged, first_wrong, verdict_from, case_verdict}

module _ {K V : Type 0} (same before : K → K → Bool) (is_can : K → Bool) (far : V → V → Bool) where
  tagged-ne-agree : (i : ℕ) (k : K) → tagged same before is_can far i k ≢ agree
  unfolding tagged
  tagged-ne-agree i k e = elim (Bool-cases (i == 0 && not (is_can k))) [
    | inl f ↦ (let e' = rw f at e in cc)
    | inr f ↦ (let e' = rw f at e in cc)
  ]

  -- The first difference of a cycle, where it has one.
  first_wrong-agree :
      (i : ℕ) (p c : List (K × V)) (ks : List K) (later : Verdict K)
      → (first_wrong same before is_can far i p c ks later ≡ agree)
        ↔ ((wrong_keys same before is_can far true i p c ks ≡ []) × (later ≡ agree))
  unfolding first_wrong wrong_keys
  first_wrong-agree i p c [] later = (λ h. (refl, h), λ (e, h). h)
  first_wrong-agree i p c (k ∷ ks) later =
      let ih = first_wrong-agree i p c ks later in
      elim (Bool-cases (is_wrong same before is_can far true i p c k)) [
        | inl f ↦ rw f (λ h. absurd (tagged-ne-agree i k h), λ (e, h). absurd (cc))
        | inr f ↦ rw f ih
      ]

  append-nil : {A : Type 0} (xs ys : List A) → xs ++ ys ≡ [] → (xs ≡ []) × (ys ≡ [])
  append-nil [] ys e = (refl, e)
  append-nil (x ∷ xs) ys e = cc

  at_all-eq-nil : (i : ℕ) (ks : List K) → at_all same before is_can far true i ks ≡ [] → ks ≡ []
  at_all-eq-nil i [] e = refl
  at_all-eq-nil i (k ∷ ks) e = cc

  verdict_from-mismatches :
      (i : ℕ) (ps cs : List (List (K × V)))
      → (verdict_from same before is_can far i ps cs ≡ agree)
        ↔ (mismatches same before is_can far true i ps cs ≡ [])
  unfolding verdict_from mismatches
  verdict_from-mismatches i [] [] = (λ h. refl, λ h. refl)
  verdict_from-mismatches i [] (c ∷ cs) = (λ h. refl, λ h. refl)
  verdict_from-mismatches i (p ∷ ps) [] = (λ h. refl, λ h. refl)
  verdict_from-mismatches i (p ∷ ps) (c ∷ cs) =
      let ih = verdict_from-mismatches (suc i) ps cs in
      let ks = all_keys same before is_can far true p c in
      let here = first_wrong-agree i p c ks (verdict_from same before is_can far (suc i) ps cs) in
      (
        λ h. (let (e, later) = here.0 h in rw (e, ih.0 later) refl),
        λ h.
            (let (e, later) =
                append-nil
                  (at_all same before is_can far true i
                    (wrong_keys same before is_can far true i p c ks))
                  _ h in
              here.1 (at_all-eq-nil i _ e, ih.1 later)),
      )

  -- The cross check reports nothing of two runs just when they have as many cycles and the fuzzer's
  -- verdict is "ok". The verdict says nothing of the cycles that only one of them has.
  pub case_verdict-compare_runs :
      (ps cs : List (List (K × V)))
      → (compare_runs same before is_can far true ps cs ≡ [])
        ↔ ((length ps ≡ length cs) × (case_verdict same before is_can far ps cs ≡ agree))
  unfolding compare_runs
  case_verdict-compare_runs ps cs =
      let all = verdict_from-mismatches 0 ps cs in
      elim (Bool-cases (length ps == length cs)) [
        | inl f ↦ rw f (λ h. ((==_iff _ _).0 f, all.1 h), λ (n, h). all.0 h)
        | inr f ↦ rw f (λ h. absurd (cc), λ (n, h). absurd (let z = (==_iff _ _).1 n in cc))
      ]
