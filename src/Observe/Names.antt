-- ===== src/Observe/Names.antt =====
-- The signals of an observation depend on the config only.
use dingo_cli.Prelude.{
  ℕ, zero, suc, ◌≡◌, refl, sym, true, false, inl, inr, Bool-cases, List, [], ◌∷◌, arith,
}
use dingo_cli.Prelude.Results.{ok, key_error, index_error, or_raise, raise-ne-ok, >>=-eq-ok}
use dingo_cli.Board.{Board, index}
use dingo_cli.Vars.{read}
use dingo_cli.CanOutput.{CanOutputConfig}
use dingo_cli.Config.{DeviceConfig}
use dingo_cli.Sim.{Sim}
use dingo_cli.Observe.{
  Signal, same_signal, Observation, active_name, put, observe_outputs, observe_can, observe, out,
  can,
}

module _ {W : Type 0} where
  unfoldable pub names : Observation W → List Signal
  names [] = []
  names ((k, x) ∷ o) = k ∷ names o

  put_same :
      (k : Signal) (x y : W) (o o' : Observation W)
      → names o ≡ names o'
      → names (put k x o) ≡ names (put k y o')
  unfolding names put
  put_same k x y [] [] h = refl
  put_same k x y [] (p ∷ o') h = cc
  put_same k x y (p ∷ o) [] h = cc
  put_same k x y ((l, v) ∷ o) ((m, w) ∷ o') h =
      let h' : (l ∷ names o) ≡ (m ∷ names o') = h in
      let e : l ≡ m = ground arith in
      let f : names o ≡ names o' = ground arith in
      elim (Bool-cases (same_signal m k)) [
        | inl t ↦ rw (e, t, f) refl
        | inr t ↦ rw (e, t, put_same k x y o o' f) refl
      ]

  observe_outputs_same :
      (b : Board) (vars vars' : List W) (i left : ℕ) (o o' r r' : Observation W)
      → names o ≡ names o'
      → observe_outputs b vars i left o ≡ ok r
      → observe_outputs b vars' i left o' ≡ ok r'
      → names r ≡ names r'
  unfolding observe_outputs
  observe_outputs_same b vars vars' i zero o o' r r' h e f =
      let e' : o ≡ r = ground arith in let f' : o' ≡ r' = ground arith in rw (sym e', sym f') h
  observe_outputs_same b vars vars' i (suc left) o o' r r' h e f =
      let (n, e1, e2) = >>=-eq-ok (or_raise key_error (index b (active_name i))) _ e in
      let (x, e3, e4) = >>=-eq-ok (read vars n) _ e2 in
      let (m, f1, f2) = >>=-eq-ok (or_raise key_error (index b (active_name i))) _ f in
      let (y, f3, f4) = >>=-eq-ok (read vars' m) _ f2 in
      observe_outputs_same b vars vars' (suc i) left _ _ r r' (put_same (out i) x y o o' h) e4 f4

  observe_can-on :
      (c : CanOutputConfig W) (cs : List (CanOutputConfig W)) (xs : List W) (o r : Observation W)
      → c.enabled ≡ true
      → observe_can (c ∷ cs) xs o ≡ ok r
      → (x : W) × (ys : List W) × (observe_can cs ys
            (put (can c.ide c.id c.start_bit c.bit_length) x o)
          ≡ ok r)
  unfolding observe_can
  observe_can-on c cs [] o r t e = absurd (raise-ne-ok index_error r (rw t at e))
  observe_can-on c cs (x ∷ xs) o r t e = (x, xs, rw t at e)

  observe_can-off :
      (c : CanOutputConfig W) (cs : List (CanOutputConfig W)) (xs : List W) (o r : Observation W)
      → c.enabled ≡ false
      → observe_can (c ∷ cs) xs o ≡ ok r
      → (ys : List W) × (observe_can cs ys o ≡ ok r)
  unfolding observe_can
  observe_can-off c cs [] o r t e = ([], rw t at e)
  observe_can-off c cs (x ∷ xs) o r t e = (xs, rw t at e)

  observe_can_same :
      (cs : List (CanOutputConfig W)) (xs ys : List W) (o o' r r' : Observation W)
      → names o ≡ names o'
      → observe_can cs xs o ≡ ok r
      → observe_can cs ys o' ≡ ok r'
      → names r ≡ names r'
  unfolding observe_can
  observe_can_same [] xs ys o o' r r' h e f =
      let e' : o ≡ r = ground arith in let f' : o' ≡ r' = ground arith in rw (sym e', sym f') h
  observe_can_same (c ∷ cs) xs ys o o' r r' h e f = elim (Bool-cases c.enabled) [
    | inl t ↦
        (let (x, xs', e') = observe_can-on c cs xs o r t e in
          let (y, ys', f') = observe_can-on c cs ys o' r' t f in
          observe_can_same cs xs' ys' _ _ r r' (put_same _ x y o o' h) e' f')
    | inr t ↦
        (let (xs', e') = observe_can-off c cs xs o r t e in
          let (ys', f') = observe_can-off c cs ys o' r' t f in
          observe_can_same cs xs' ys' o o' r r' h e' f')
  ]

  -- Two observations of a device have the same signals in the same order.
  pub observe_same :
      (c : DeviceConfig W) (s s' : Sim W) (o o' : Observation W)
      → observe c s ≡ ok o
      → observe c s' ≡ ok o'
      → names o ≡ names o'
  unfolding observe
  observe_same c s s' o o' e f =
      let (a, e1, e2) = >>=-eq-ok (observe_outputs c.board s.vars 1 c.board.num_outputs []) _ e in
      let (b, f1, f2) = >>=-eq-ok (observe_outputs c.board s'.vars 1 c.board.num_outputs []) _ f in
      observe_can_same c.can_outputs s.samples s'.samples a b o o'
        (observe_outputs_same c.board s.vars s'.vars 1 c.board.num_outputs [] [] a b refl e1 f1) e2
        f2
