-- ===== src/Equiv/Self.antt =====
-- A log compared with itself by `compare` of fwmodel/model/equiv.py.
use dingo_cli.Prelude.{
  ℕ, zero, suc, ◌+◌, ◌≡◌, refl, sym, min, Bool, true, false, inl, inr, Bool-cases, none, some, List,
  [], ◌∷◌, arith, length, get_elem?,
}
use dingo_cli.Prelude.Int.{pos}
use dingo_cli.Prelude.Results.{ok}
use dingo_cli.Equiv.{
  Row, shifted, differ, bad_cycles, align, verdict, lookup, column, is_key, sorted_keys,
  compare_columns, compare_signal, compare_signals, compare_logs,
}
use dingo_cli.Equiv.Keys.{IsEquality, is_named, is_named-sorted_keys, is_key-cons}

module _ {W : Type 0} (equal : W → W → Bool) where
  abbrev pub AllSelfEqual : List W → Type 0
  AllSelfEqual xs = (i : ℕ) (x : W) → get_elem? xs i ≡ some x → equal x x ≡ true

  differ_self :
      (xs : List W)
      → AllSelfEqual xs
      → (i : ℕ) → differ equal (get_elem? xs i) (get_elem? xs i) ≡ false
  unfolding differ
  differ_self xs h i = go (get_elem? xs i) (h i)
    where
      go : (v : _) → ((x : W) → v ≡ some x → equal x x ≡ true) → differ equal v v ≡ false
      go none h = refl
      go (some x) h = rw (h x refl) refl

  bad_cycles_self :
      (n : ℕ) (xs : List W) (i left : ℕ)
      → AllSelfEqual xs
      → bad_cycles equal n (pos 0) xs xs i left ≡ []
  unfolding bad_cycles shifted
  bad_cycles_self n xs i zero h = refl
  bad_cycles_self n xs i (suc left) h =
      let zero_shift : i + 0 ≡ i = omega arith in
      rw (zero_shift, differ_self xs h i, bad_cycles_self n xs (suc i) left h) (ground arith)

module _ {K W : Type 0} (same before : K → K → Bool) (equal : W → W → Bool) where
  -- The rows have the signals of the first row, and values that equal themselves. (A NaN does not.)
  abbrev pub HasAll : (first : List (K × W)) → List (Row K W) → Type 0
  HasAll first [] = Unit {0}
  HasAll first (r ∷ rs) =
      ((k : K) → is_key same k first ≡ true → is_key same k r.signals ≡ true) × HasAll first rs

  abbrev pub NoNaN : List (Row K W) → Type 0
  NoNaN [] = Unit {0}
  NoNaN (r ∷ rs) =
      ((k : K) (x : W) → lookup same k r.signals ≡ some x → equal x x ≡ true) × NoNaN rs

  is_key-lookup :
      (k : K) (row : List (K × W))
      → is_key same k row ≡ true
      → (x : W) × (lookup same k row ≡ some x)
  unfolding is_key lookup
  is_key-lookup k [] h = cc
  is_key-lookup k ((l, x) ∷ rest) h = elim (Bool-cases (same k l)) [
    | inl e ↦ (x, rw e refl)
    | inr e ↦
        (let z = is_key-cons same before k l x rest in
          let key : is_key same k rest ≡ true = ground arith in
          let (y, f) = is_key-lookup k rest key in (y, rw e f))
  ]

  AllSelfEqual-cons :
      (x : W) (xs : List W) → equal x x ≡ true → AllSelfEqual equal xs → AllSelfEqual equal (x ∷ xs)
  AllSelfEqual-cons x xs h hs zero y e = let z : x ≡ y = ground arith in rw (sym z) h
  AllSelfEqual-cons x xs h hs (suc i) y e = hs i y e

  column_self :
      (first : List (K × W)) (k : K) (log : List (Row K W))
      → is_key same k first ≡ true
      → HasAll first log
      → NoNaN log
      → (xs : List W) × (column same k log ≡ ok xs) × AllSelfEqual equal xs
  unfolding column
  column_self first k [] e h n = ([], refl, λ i x f. cc)
  column_self first k (r ∷ rs) e (h, hs) (n, ns) =
      let (xs, f, g) = column_self first k rs e hs ns in
      let (x, found) = is_key-lookup k r.signals (h k e) in
      (x ∷ xs, rw (found, f) refl, AllSelfEqual-cons x xs (n k x found) g)

  compare_columns_self :
      (tolerance limit : ℕ) (first : List (K × W)) (log : List (Row K W)) (k : K)
      → is_key same k first ≡ true
      → HasAll first log
      → NoNaN log
      → compare_columns same before equal tolerance limit log log k ≡ ok []
  unfolding compare_columns align verdict
  compare_columns_self tolerance limit first log k e h n =
      let (xs, f, g) = column_self first k log e h n in
      rw
        (
          f,
          bad_cycles_self equal (min (length xs) (length xs)) xs 0 (min (length xs) (length xs)) g,
        )
        refl

  compare_signals_self :
      (tolerance limit : ℕ) (first : List (K × W)) (log : List (Row K W)) (ks : List K)
      → IsEquality same
      → ((k : K) → is_named same k ks ≡ true → is_key same k first ≡ true)
      → HasAll first log
      → NoNaN log
      → compare_signals same before equal tolerance limit first first log log ks ≡ ok []
  unfolding compare_signals compare_signal is_named
  compare_signals_self tolerance limit first log [] eq m h n = refl
  compare_signals_self tolerance limit first log (k ∷ ks) eq m h n =
      let key : is_key same k first ≡ true = m k (rw (eq.0 k) refl) in
      let rest =
        compare_signals_self tolerance limit first log ks eq (λ l e. m l (rw e (ground arith))) h
          n in
      rw (key, compare_columns_self tolerance limit first log k key h n, rest) refl

  is_key-sorted_keys :
      (row : List (K × W)) (k : K)
      → IsEquality same
      → is_named same k (sorted_keys same before row (sorted_keys same before row [])) ≡ true
      → is_key same k row ≡ true
  unfolding is_named
  is_key-sorted_keys row k eq h =
      let a = is_named-sorted_keys same before k row (sorted_keys same before row []) eq in
      let b = is_named-sorted_keys same before k row [] eq in ground arith

  -- A log of which all rows have the signals of the first one, and no value is a NaN, is equivalent to
  -- itself.
  pub compare_logs_self :
      (tolerance limit : ℕ) (r : Row K W) (rs : List (Row K W))
      → IsEquality same
      → HasAll r.signals rs
      → NoNaN (r ∷ rs)
      → compare_logs same before equal (r ∷ rs) (r ∷ rs) tolerance limit ≡ ok []
  unfolding compare_logs
  compare_logs_self tolerance limit r rs eq h n =
      compare_signals_self tolerance limit r.signals (r ∷ rs) _ eq
        (λ k e. is_key-sorted_keys r.signals k eq e) (λ k e. e, h) n
