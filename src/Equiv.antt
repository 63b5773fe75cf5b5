-- ===== src/Equiv.antt =====
-- `compare` of fwmodel/model/equiv.py: two logs of observations, signal by signal. A signal's name and
-- the order of the names are parameters here: `same` is the equality of two names, `before` their
-- alphabetical order, and `equal` is the equality of two values.
pub mod Tolerance
pub mod Passes
pub mod Keys
pub mod Main
pub mod Self
pub mod SelfContained
use dingo_cli.Prelude.{
  ℕ, zero, suc, ◌+◌, ◌-◌, ◌*◌, min, Bool, true, false, not, ◌&&◌, ◌||◌, Option, none, some, List,
  [], ◌∷◌, ◌++◌, map, length, get_elem?, take, ltb, leb, ◌==◌, if◌then◌else◌,
}
use dingo_cli.Prelude.Int.{ℤ, pos, negsuc}
use dingo_cli.Prelude.Results.{Result, ok, raise, index_error, key_error, or_raise, ◌>>=◌}

-- An entry of a log: the signals of one cycle, and `_cycle` and `_ms`. The label only goes into a report.
pub record Row (K W : Type 0) : Type 0 where
  pub signals : List (K × W)
  pub cycle : ℕ
  pub ms : ℕ

-- An entry of "first".
pub record Difference (W : Type 0) : Type 0 where
  pub cycle : ℕ
  pub ms : ℕ
  pub left : Option W
  pub right : Option W

-- An entry of the result: the signal, with the kind "missing", "mismatch" or "lag".
pub data Diff (K W : Type 0) : Type 0 where
  only_in_a only_in_b : K → Diff K W
  mismatch : K → (shift : ℤ) (count : ℕ) (first : List (Difference W)) → Diff K W
  lag : K → (shift : ℤ) → Diff K W

-- order, after its first entry 0, is range(-n, n + 1) without 0: the negative ones, then `left` positive ones, from `from` on.
unfoldable pub negatives : ℕ → List ℤ
negatives zero = []
negatives (suc n) = negsuc n ∷ negatives n

unfoldable pub positives : (from left : ℕ) → List ℤ
positives from zero = []
positives from (suc left) = pos (suc from) ∷ positives (suc from) left

-- j = i + shift, where it is not negative
unfoldable pub shifted : ℕ → ℤ → Option ℕ
shifted i (pos s) = some (i + s)
shifted i (negsuc s) = if ltb s i then some (i - suc s) else none

-- A shift, with the cycles that differ under it.
abbrev pub Best : Type 0
Best = ℤ × List ℕ

-- break, if not bad
abbrev pub stop_or : (bad : List ℕ) (best later : Best) → Best
stop_or [] best later = best
stop_or (i ∷ bad) best later = later

module _ {W : Type 0} (equal : W → W → Bool) where
  unfoldable pub differ : Option W → Option W → Bool
  differ (some x) (some y) = not (equal x y)
  differ _ _ = false

  -- The cycles from `i` on, `left` of them, at which `xs` differs from the shifted `ys`; `n` is the
  -- number of cycles that both have.
  unfoldable pub bad_cycles : (n : ℕ) (shift : ℤ) (xs ys : List W) (i left : ℕ) → List ℕ
  unfolding differ shifted
  bad_cycles n shift xs ys i zero = []
  bad_cycles n shift xs ys i (suc left) =
      let rest = bad_cycles n shift xs ys (suc i) left in
      elim (shifted i shift) [
        | none ↦ rest
        | some j ↦ if ltb j n && differ (get_elem? xs i) (get_elem? ys j) then i ∷ rest else rest
      ]

  -- The loop over the shifts that are left, up to the first one that fits.
  unfoldable pub best_shift : (n : ℕ) (xs ys : List W) → List ℤ → Best → Best
  unfolding bad_cycles
  best_shift n xs ys [] best = best
  best_shift n xs ys (shift ∷ rest) best =
      let bad = bad_cycles n shift xs ys 0 n in
      let best' = if ltb (length bad) (length best.1) then (shift, bad) else best in
      let later = best_shift n xs ys rest best' in stop_or bad best' later

  -- The best of all shifts, the first of which is 0.
  unfoldable pub align : (tolerance n : ℕ) (xs ys : List W) → Best
  unfolding best_shift negatives positives
  align tolerance n xs ys =
      let bad = bad_cycles n (pos 0) xs ys 0 n in
      stop_or bad (pos 0, bad)
        (best_shift n xs ys (negatives tolerance ++ positives 0 tolerance) (pos 0, bad))

module _ {K W : Type 0} where
  unfoldable pub difference :
      (shift : ℤ) (log_a : List (Row K W)) (xs ys : List W) → ℕ → List (Difference W)
  unfolding shifted
  difference shift log_a xs ys i = elim (get_elem? log_a i) [
    | none ↦ []
    | some row ↦
        record {
          cycle = row.cycle;
          ms = row.ms;
          left = get_elem? xs i;
          right = elim (shifted i shift) [ none ↦ none | some j ↦ get_elem? ys j ];
        }
        ∷ []
  ]

  unfoldable pub report :
      (shift : ℤ) (log_a : List (Row K W)) (xs ys : List W) → List ℕ → List (Difference W)
  unfolding difference
  report shift log_a xs ys [] = []
  report shift log_a xs ys (i ∷ bad) =
      difference shift log_a xs ys i ++ report shift log_a xs ys bad

  -- What is said of a signal at its best shift.
  unfoldable pub verdict :
      (limit : ℕ) → K → (log_a : List (Row K W)) (xs ys : List W) → Best → List (Diff K W)
  unfolding report
  verdict limit k log_a xs ys (shift, i ∷ bad) =
      mismatch k shift (length (i ∷ bad)) (report shift log_a xs ys (take limit (i ∷ bad))) ∷ []
  verdict limit k log_a xs ys (pos zero, []) = []
  verdict limit k log_a xs ys (shift, []) = lag k shift ∷ []

module _ {K W : Type 0} (same : K → K → Bool) where
  unfoldable pub lookup : K → List (K × W) → Option W
  lookup k [] = none
  lookup k ((l, x) ∷ rest) = if same k l then some x else lookup k rest

  -- [r[k] for r in log]
  unfoldable pub column : K → List (Row K W) → Result (List W)
  unfolding lookup
  column k [] = ok []
  column k (row ∷ rows) = do
    x ← or_raise key_error (lookup k row.signals)
    xs ← column k rows
    ok (x ∷ xs)

  unfoldable pub is_key : K → List (K × W) → Bool
  unfolding lookup
  is_key k row = elim (lookup k row) [ none ↦ false | some _ ↦ true ]

module _ {K : Type 0} (same before : K → K → Bool) where
  -- A name into an ascending list of names, once.
  unfoldable pub insert : K → List K → List K
  insert k [] = k ∷ []
  insert k (l ∷ ls) =
      if same k l then l ∷ ls else if before k l then k ∷ l ∷ ls else l ∷ insert k ls

  unfoldable pub sorted_keys : {W : Type 0} → List (K × W) → List K → List K
  unfolding insert
  sorted_keys [] ks = ks
  sorted_keys ((k, x) ∷ rest) ks = sorted_keys rest (insert k ks)

module _ {K W : Type 0} (same before : K → K → Bool) (equal : W → W → Bool) where
  -- A signal that both logs have.
  unfoldable pub compare_columns :
      (tolerance limit : ℕ) (log_a log_b : List (Row K W)) → K → Result (List (Diff K W))
  unfolding column align verdict
  compare_columns tolerance limit log_a log_b k = do
    xs ← column same k log_a
    ys ← column same k log_b
    ok (verdict limit k log_a xs ys (align equal tolerance (min (length xs) (length ys)) xs ys))

  -- One signal of the loop.
  unfoldable pub compare_signal :
      (tolerance limit : ℕ)
      → (first_a first_b : List (K × W)) (log_a log_b : List (Row K W)) → K
      → Result (List (Diff K W))
  unfolding is_key compare_columns
  compare_signal tolerance limit first_a first_b log_a log_b k =
      if not (is_key same k first_b)
      then ok (only_in_a k ∷ [])
      else if not (is_key same k first_a)
      then ok (only_in_b k ∷ [])
      else compare_columns tolerance limit log_a log_b k

  unfoldable pub compare_signals :
      (tolerance limit : ℕ)
      → (first_a first_b : List (K × W)) (log_a log_b : List (Row K W)) → List K
      → Result (List (Diff K W))
  compare_signals tolerance limit first_a first_b log_a log_b [] = ok []
  compare_signals tolerance limit first_a first_b log_a log_b (k ∷ ks) = do
    diffs ← compare_signal tolerance limit first_a first_b log_a log_b k
    more ← compare_signals tolerance limit first_a first_b log_a log_b ks
    ok (diffs ++ more)

  -- compare
  unfoldable pub compare_logs :
      (log_a log_b : List (Row K W)) (tolerance limit : ℕ) → Result (List (Diff K W))
  unfolding sorted_keys compare_signals
  compare_logs log_a log_b tolerance limit = do
    a ← or_raise index_error (get_elem? log_a 0)
    b ← or_raise index_error (get_elem? log_b 0)
    compare_signals tolerance limit a.signals b.signals log_a log_b
        (sorted_keys same before b.signals (sorted_keys same before a.signals []))
