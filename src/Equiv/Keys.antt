-- ===== src/Equiv/Keys.antt =====
-- The names that `sorted` gives of the signals of two rows: each of them, and no other.
use dingo_cli.Prelude.{
  ◌≡◌, refl, inl, inr, Bool, true, false, ◌||◌, Bool-cases, List, [], ◌∷◌, arith,
}
use dingo_cli.Equiv.{insert, sorted_keys, lookup, is_key}

module _ {K : Type 0} (same : K → K → Bool) where
  -- `same` is the equality of names.
  abbrev pub IsEquality : Type 0
  IsEquality = ((k : K) → same k k ≡ true) × ((k l : K) → same k l ≡ true → k ≡ l)

  unfoldable pub is_named : K → List K → Bool
  is_named k [] = false
  is_named k (l ∷ ls) = same k l || is_named k ls

module _ {K : Type 0} (same before : K → K → Bool) where
  is_named-insert :
      (k l : K) (ls : List K)
      → IsEquality same
      → is_named same k (insert same before l ls) ≡ same k l || is_named same k ls
  unfolding is_named insert
  is_named-insert k l [] e = refl
  is_named-insert k l (m ∷ ls) e = elim (Bool-cases (same l m)) [
    | inl f ↦ (let z : l ≡ m = e.1 l m f in rw f (rw z (ground arith)))
    | inr f ↦ elim (Bool-cases (before l m)) [
      | inl g ↦ rw (f, g) refl
      | inr g ↦ rw (f, g) (let ih = is_named-insert k l ls e in rw ih (ground arith))
    ]
  ]

  pub is_key-cons :
      {V : Type 0} (k l : K) (x : V) (row : List (K × V))
      → is_key same k ((l, x) ∷ row) ≡ same k l || is_key same k row
  unfolding is_key lookup
  is_key-cons k l x row = ground arith

  pub is_named-sorted_keys :
      {V : Type 0} (k : K) (row : List (K × V)) (ls : List K)
      → IsEquality same
      → is_named same k (sorted_keys same before row ls) ≡ is_key same k row || is_named same k ls
  unfolding sorted_keys
  is_named-sorted_keys k [] ls e = unfold is_key lookup in refl
  is_named-sorted_keys k ((l, x) ∷ row) ls e =
      let ih = is_named-sorted_keys k row (insert same before l ls) e in
      let one = is_named-insert k l ls e in let two = is_key-cons k l x row in ground arith
