-- ===== src/Fuzz/Computed.antt =====
-- The variables that gen_config of fwhost/fuzz.py draws from: the simulator computes all of them.
use dingo_cli.Prelude.{
  ℕ, zero, suc, ◌<◌, ◌≡◌, refl, sym, Bool, true, false, not, ◌&&◌, List, [], ◌∷◌, ◌++◌, arith, ltb,
  ◌==◌, inl, inr, Bool-cases,
}
use dingo_cli.Prelude.Results.{ok}
use dingo_cli.Board.{size, layout}
use dingo_cli.Board.Known.{dingopdm_v7}
use dingo_cli.Config.{slot_refs, is_among, indices, pinned, pinned_names}
use dingo_cli.Config.Accepted.{Slots}
use dingo_cli.Fuzz.Random.{All}
use dingo_cli.Fuzz.Pools.{spread, boolish, numeric, without}

-- The variables of a dingopdm_v7 that stay 0.
abbrev pub pins_v7 : List ℕ
pins_v7 =
    88 ∷ 89 ∷ 90 ∷ 92 ∷ 93 ∷ 94 ∷ 96 ∷ 97 ∷ 98 ∷ 100 ∷ 101 ∷ 102 ∷ 104 ∷ 105 ∷ 106 ∷ 108 ∷ 109 ∷ 110
    ∷ 112 ∷ 113 ∷ 114 ∷ 116 ∷ 117 ∷ 118 ∷ 3 ∷ 4 ∷ []

pub pinned_v7 : pinned dingopdm_v7 ≡ ok pins_v7
unfolding pinned indices pinned_names layout
pinned_v7 = refl

-- A variable of the map that the simulator computes.
unfoldable pub is_computed : ℕ → Bool
unfolding is_among
is_computed r = ltb r 217 && not (is_among r pins_v7)

abbrev pub IsComputed : ℕ → Type 0
IsComputed r = is_computed r ≡ true

pub IsComputed_lem : (r : ℕ) → IsComputed r → (r < 217) × (is_among r pins_v7 ≡ false)
unfolding is_computed
IsComputed_lem r h = let f : (ltb r 217 && not (is_among r pins_v7)) ≡ true = h in ground arith

pub size_v7 : size dingopdm_v7 ≡ 217
unfolding layout
size_v7 = refl

unfoldable all_computed : List ℕ → Bool
unfolding is_computed
all_computed [] = true
all_computed (r ∷ rs) = is_computed r && all_computed rs

all_computed-All : (rs : List ℕ) → all_computed rs ≡ true → All IsComputed rs
unfolding all_computed All
all_computed-All [] h = tt
all_computed-All (r ∷ rs) h = (ground arith, all_computed-All rs (ground arith))

pub All-append :
    {A : Type 0} (P : A → Type 0) (xs ys : List A) → All P xs → All P ys → All P (xs ++ ys)
unfolding All
All-append P [] ys h k = k
All-append P (x ∷ xs) ys (h, hs) k = (h, All-append P xs ys hs k)

pub All-Slots : {A : Type 0} (P : A → Type 0) (xs : List A) → All P xs → Slots P xs
unfolding All
All-Slots P [] h i x k = cc
All-Slots P (y ∷ xs) (h, hs) zero x k = let e : y ≡ x = ground arith in rw (sym e) h
All-Slots P (y ∷ xs) (h, hs) (suc i) x k = All-Slots P xs hs i x k

pub All-without : (P : ℕ → Type 0) (own : ℕ) (xs : List ℕ) → All P xs → All P (without own xs)
unfolding without All
All-without P own [] h = tt
All-without P own (x ∷ xs) (h, hs) = elim (Bool-cases (x == own)) [
  | inl e ↦ rw e (All-without P own xs hs)
  | inr e ↦ rw e (h, All-without P own xs hs)
]

pub slot_refs-All :
    {S : Type 0} (P : ℕ → Type 0) (enabled : S → Bool) (fields : S → List ℕ) (ss : List S)
    → All (λ s. All P (fields s)) ss
    → All P (slot_refs enabled fields ss)
unfolding slot_refs All
slot_refs-All P enabled fields [] h = tt
slot_refs-All P enabled fields (s ∷ ss) (h, hs) = elim (Bool-cases (enabled s)) [
  | inl e ↦ rw e (All-append P (fields s) _ h (slot_refs-All P enabled fields ss hs))
  | inr e ↦ rw e (slot_refs-All P enabled fields ss hs)
]

pub zero-IsComputed : IsComputed 0
unfolding is_computed
zero-IsComputed = refl

pub boolish-IsComputed : All IsComputed (0 ∷ boolish)
unfolding boolish spread all_computed
boolish-IsComputed = all_computed-All (0 ∷ boolish) refl

pub numeric-IsComputed : All IsComputed (8 ∷ (numeric ++ (0 ∷ boolish)))
unfolding boolish numeric spread all_computed
numeric-IsComputed = all_computed-All (8 ∷ (numeric ++ (0 ∷ boolish))) refl

pub pool-IsComputed : (own : ℕ) → All IsComputed (0 ∷ (without own boolish ++ (0 ∷ 0 ∷ [])))
unfolding All
pool-IsComputed own =
    let (h, hs) = boolish-IsComputed in
    (
      h,
      All-append IsComputed (without own boolish) _ (All-without IsComputed own boolish hs)
          (h, (h, tt)),
    )
