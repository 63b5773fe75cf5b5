-- ===== src/Vars/Frame.antt =====
-- What a category leaves alone: it writes only into its own block, and keeps the length.
use dingo_cli.Prelude.{
  ℕ, zero, suc, ◌+◌, ◌*◌, ◌≤◌, ◌<◌, ◌≡◌, refl, ◌∙◌, ap, ◌⊎◌, List, [], ◌∷◌, some, arith, length,
  get_elem?, set, length-set, get_elem?-set_ne, lt→ltb,
}
use dingo_cli.Prelude.Results.{Result, ok, Returns, returns, Outcome, returns_as, Outcome-bind}
use dingo_cli.Vars.{read, write, run_slots}

module _ {A : Type 0} where
  pub read-Returns :
      (xs : List A) (i : ℕ) → i < length xs → Returns (λ x. get_elem? xs i ≡ some x) (read xs i)
  unfolding read
  read-Returns [] i h = elim h [ ]
  read-Returns (x ∷ xs) zero h = returns x refl
  read-Returns (x ∷ xs) (suc i) h = read-Returns xs i (omega arith)

  pub write-Returns :
      (xs : List A) (i : ℕ) (x : A) → i < length xs → Returns (λ ys. ys ≡ set xs i x) (write xs i x)
  unfolding write
  write-Returns xs i x h = rw (lt→ltb i (length xs) h) (returns _ refl)

  pub read-eq : (xs : List A) (i : ℕ) (x : A) → get_elem? xs i ≡ some x → read xs i ≡ ok x
  unfolding read
  read-eq xs i x h = ground arith

  pub write-eq : (xs : List A) (i : ℕ) (x : A) → i < length xs → write xs i x ≡ ok (set xs i x)
  unfolding write
  write-eq xs i x h = ground arith

  -- `ys` is `xs` but for the entries from `lo` up to `hi`.
  pub record Frame (lo hi : ℕ) (xs ys : List A) : Type 0 where
    pub same_length : length ys ≡ length xs
    pub outside : (j : ℕ) → (j < lo) ⊎ (hi ≤ j) → get_elem? ys j ≡ get_elem? xs j

  pub Frame-refl : (lo hi : ℕ) (xs : List A) → Frame lo hi xs xs
  Frame-refl lo hi xs = record { same_length = refl; outside = λ j h. refl }

  pub Frame-trans :
      {lo hi : ℕ} {xs ys zs : List A} → Frame lo hi xs ys → Frame lo hi ys zs → Frame lo hi xs zs
  Frame-trans f g = record {
    same_length = g.same_length ∙ f.same_length;
    outside = λ j h. g.outside j h ∙ f.outside j h;
  }

  pub Frame-widen :
      {lo hi lo' hi' : ℕ} {xs ys : List A}
      → lo' ≤ lo
      → hi ≤ hi'
      → Frame lo hi xs ys
      → Frame lo' hi' xs ys
  Frame-widen h k f = record {
    same_length = f.same_length;
    outside = λ j out. f.outside j (omega arith);
  }

  pub Frame-set : (xs : List A) (i : ℕ) (x : A) → Frame i (suc i) xs (set xs i x)
  Frame-set xs i x = record {
    same_length = length-set xs i x;
    outside = λ j h. get_elem?-set_ne xs x (omega arith);
  }

module _ {S T A : Type 0} (update : ℕ → S → T → List A → Result (T × List A)) (base width : ℕ) where
  -- Where each slot keeps to its own `width` entries, the category keeps to the whole block.
  pub run_slots-Frame :
      {E : Type 0} (Good : S → Type 0) (n : ℕ)
      → ((i : ℕ) (s : S) (t : T) (xs : List A)
          → Good s
          → length xs ≡ n
          → base + width * suc i ≤ n
          → Outcome E
              (λ r. Frame (base + width * i) (base + width * suc i) xs r.1)
              (update i s t xs))
      → (i : ℕ) (ss : List S) (ts : List T) (xs : List A)
      → ((j : ℕ) (s : S) → get_elem? ss j ≡ some s → Good s)
      → length ss ≡ length ts
      → length xs ≡ n
      → base + width * (i + length ss) ≤ n
      → Outcome E
          (λ r.
            (length r.0 ≡ length ts)
            × Frame (base + width * i) (base + width * (i + length ss)) xs r.1)
          (run_slots update i ss ts xs)
  unfolding run_slots
  run_slots-Frame Good n step i [] ts xs good e f h = returns_as (ts, xs) (refl, Frame-refl _ _ xs)
  run_slots-Frame Good n step i (s ∷ ss) [] xs good e f h = absurd (omega arith)
  run_slots-Frame Good n step i (s ∷ ss) (t ∷ ts) xs good e f h =
      Outcome-bind (step i s t xs (good 0 s refl) f (omega arith)) λ r one.
        Outcome-bind
          (run_slots-Frame Good n step (suc i) ss ts r.1 (λ j. good (suc j)) (omega arith)
            (omega (arith, one.same_length)) (omega arith))
          λ q rest. returns_as _ (
            ap suc rest.0,
            Frame-trans (Frame-widen (omega arith) (omega arith) one)
                (Frame-widen (omega arith) (omega arith) rest.1),
          )
