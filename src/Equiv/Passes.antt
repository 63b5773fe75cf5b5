-- ===== src/Equiv/Passes.antt =====
-- When `compare` of equiv.py finds nothing to report: what it then shows, and what the tolerance does.
use dingo_cli.Prelude.{
  ℕ, zero, suc, ◌+◌, ◌≡◌, ◌≢◌, inl, inr, refl, ◌∙◌, sym, ap, min, Bool, true, some, List, [], ◌∷◌,
  ◌++◌, arith, get_elem?-lt, length, get_elem?, Bool-cases,
}
use dingo_cli.Prelude.Int.{pos}
use dingo_cli.Prelude.Results.{ok, index_error, key_error, or_raise, or_raise-eq-ok, >>=-eq-ok}
use dingo_cli.Equiv.{
  Row, Diff, only_in_a, only_in_b, bad_cycles, lookup, column, is_key, compare_columns,
  compare_signal, compare_signals, compare_logs,
}
use dingo_cli.Equiv.Tolerance.{verdict-align, bad_cycles_sound}

append-nil : {A : Type 0} (xs ys : List A) → xs ++ ys ≡ [] → (xs ≡ []) × (ys ≡ [])
append-nil [] ys h = (refl, h)
append-nil (x ∷ xs) ys h = cc

ok-inj : {A : Type 0} (x y : A) → ok x ≡ ok y → x ≡ y
ok-inj x y h = ground arith

ok-cons-ne : {A : Type 0} (x : A) (xs : List A) → ok (x ∷ xs) ≢ ok []
ok-cons-ne x xs h = cc

column-lookup :
    {K W : Type 0} (same : K → K → Bool) (k : K) (log : List (Row K W)) (xs : List W)
    → column same k log ≡ ok xs
    → (i : ℕ) (row : Row K W) → get_elem? log i ≡ some row
    → (x : W) × (lookup same k row.signals ≡ some x) × (get_elem? xs i ≡ some x)
unfolding column
column-lookup same k [] xs h i row e = cc
column-lookup same k (r ∷ rows) xs h zero row e =
    let (x, a, g) = >>=-eq-ok (or_raise key_error (lookup same k r.signals)) _ h in
    let (ys, b, m) = >>=-eq-ok (column same k rows) _ g in
    let same_row : r ≡ row = ground arith in
    let found = or_raise-eq-ok key_error (lookup same k r.signals) x a in
    (
      x,
      ap (λ (q : Row _ _). lookup same k q.signals) (sym same_row) ∙ found,
      rw (sym (ok-inj _ _ m)) refl,
    )
column-lookup same k (r ∷ rows) xs h (suc i) row e =
    let (x, a, g) = >>=-eq-ok (or_raise key_error (lookup same k r.signals)) _ h in
    let (ys, b, m) = >>=-eq-ok (column same k rows) _ g in
    rw (sym (ok-inj _ _ m)) (column-lookup same k rows ys b i row e)

module _ {K W : Type 0} (same : K → K → Bool) (equal : W → W → Bool) where
  -- The columns of a signal with nothing to report, and that they agree with no shift.
  record Clean (first_a first_b : List (K × W)) (log_a log_b : List (Row K W)) (k : K)
      : Type 0 where
    in_b : is_key same k first_b ≡ true
    in_a : is_key same k first_a ≡ true
    left : List W
    left_eq : column same k log_a ≡ ok left
    right : List W
    right_eq : column same k log_b ≡ ok right
    agree :
        bad_cycles equal
          (min (length left) (length right))
          (pos 0)
          left
          right
          0
          (min (length left) (length right))
        ≡ []

module _ {K W : Type 0} (same before : K → K → Bool) (equal : W → W → Bool)
    (first_a first_b : List (K × W)) (log_a log_b : List (Row K W)) where
  Clean-compare :
      (tolerance limit : ℕ) (k : K)
      → Clean same equal first_a first_b log_a log_b k
      → compare_signal same before equal tolerance limit first_a first_b log_a log_b k ≡ ok []
  unfolding compare_signal compare_columns
  Clean-compare tolerance limit k c =
      rw (c.in_b, c.in_a, c.left_eq, c.right_eq)
        (ap ok (
          (verdict-align equal tolerance limit (min (length c.left) (length c.right)) k log_a c.left
              c.right).1
            c.agree))

  compare-Clean :
      (tolerance limit : ℕ) (k : K)
      → compare_signal same before equal tolerance limit first_a first_b log_a log_b k ≡ ok []
      → Clean same equal first_a first_b log_a log_b k
  unfolding compare_signal compare_columns
  compare-Clean tolerance limit k h = elim (Bool-cases (is_key same k first_b)) [
    | inr e ↦ absurd (ok-cons-ne {A = Diff K W} (only_in_a k) [] (ground arith))
    | inl e ↦ elim (Bool-cases (is_key same k first_a)) [
      | inr f ↦ absurd (ok-cons-ne {A = Diff K W} (only_in_b k) [] (ground arith))
      | inl f ↦
          (let both : compare_columns same before equal tolerance limit log_a log_b k ≡ ok [] =
              ground arith in
            let (xs, a, g) = >>=-eq-ok (column same k log_a) _ both in
            let (ys, b, m) = >>=-eq-ok (column same k log_b) _ g in
            record {
              in_b = e;
              in_a = f;
              left = xs;
              left_eq = a;
              right = ys;
              right_eq = b;
              agree =
                  (verdict-align equal tolerance limit (min (length xs) (length ys)) k log_a xs
                      ys).0
                    (ok-inj _ _ m);
            })
    ]
  ]

  compare_signals-Clean :
      (tolerance tolerance' limit limit' : ℕ) (ks : List K)
      → compare_signals same before equal tolerance limit first_a first_b log_a log_b ks ≡ ok []
      → compare_signals same before equal tolerance' limit' first_a first_b log_a log_b ks ≡ ok []
  unfolding compare_signals
  compare_signals-Clean t t' l l' [] h = refl
  compare_signals-Clean t t' l l' (k ∷ ks) h =
      let (diffs, a, g) =
        >>=-eq-ok (compare_signal same before equal t l first_a first_b log_a log_b k) _ h in
      let (more, b, m) =
        >>=-eq-ok (compare_signals same before equal t l first_a first_b log_a log_b ks) _ g in
      let (e, f) = append-nil diffs more (ok-inj _ _ m) in
      rw
        (
          Clean-compare t' l' k (compare-Clean t l k (a ∙ ap ok e)),
          compare_signals-Clean t t' l l' ks (b ∙ ap ok f),
        )
        refl

  -- A clean signal has the same value in both logs, row by row.
  Clean-equal :
      (k : K)
      → Clean same equal first_a first_b log_a log_b k
      → (i : ℕ) (row_a row_b : Row K W) → get_elem? log_a i ≡ some row_a
      → get_elem? log_b i ≡ some row_b
      → (x : W) × (y : W) × (lookup same k row_a.signals ≡ some x)
        × (lookup same k row_b.signals ≡ some y)
        × (equal x y ≡ true)
  Clean-equal k c i row_a row_b e f =
      let (x, g, l) = column-lookup same k log_a c.left c.left_eq i row_a e in
      let (y, h, m) = column-lookup same k log_b c.right c.right_eq i row_b f in
      let z : 0 + i ≡ i = omega arith in
      let in_left = get_elem?-lt c.left i x l in
      let in_right = get_elem?-lt c.right i y m in
      let n = min (length c.left) (length c.right) in
      (
        x,
        y,
        g,
        h,
        bad_cycles_sound equal n c.left c.right 0 n c.agree (omega arith) i x y (omega arith)
            (ap (get_elem? c.left) z ∙ l) (ap (get_elem? c.right) z ∙ m),
      )

  -- If nothing is reported of a signal, under any tolerance, then it has a value in both logs in every
  -- row that both have, and the two values are equal.
  pub compare_signal-equal :
      (tolerance limit : ℕ) (k : K)
      → compare_signal same before equal tolerance limit first_a first_b log_a log_b k ≡ ok []
      → (i : ℕ) (row_a row_b : Row K W) → get_elem? log_a i ≡ some row_a
      → get_elem? log_b i ≡ some row_b
      → (x : W) × (y : W) × (lookup same k row_a.signals ≡ some x)
        × (lookup same k row_b.signals ≡ some y)
        × (equal x y ≡ true)
  compare_signal-equal tolerance limit k h = Clean-equal k (compare-Clean tolerance limit k h)

-- Two logs that pass under one tolerance pass under every other, 0 included.
pub compare_logs_tolerance :
    {K W : Type 0} (same before : K → K → Bool) (equal : W → W → Bool)
    (log_a log_b : List (Row K W)) (tolerance tolerance' limit limit' : ℕ)
    → compare_logs same before equal log_a log_b tolerance limit ≡ ok []
    → compare_logs same before equal log_a log_b tolerance' limit' ≡ ok []
unfolding compare_logs
compare_logs_tolerance same before equal log_a log_b t t' l l' h =
    let (a, e, g) = >>=-eq-ok (or_raise index_error (get_elem? log_a 0)) _ h in
    let (b, f, m) = >>=-eq-ok (or_raise index_error (get_elem? log_b 0)) _ g in
    rw (e, f)
      (compare_signals-Clean same before equal a.signals b.signals log_a log_b t t' l l' _ m)
