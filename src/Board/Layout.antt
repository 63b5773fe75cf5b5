-- ===== src/Board/Layout.antt =====
-- The blocks of any board tile its names, in order (varmap.py `Board.__post_init__`).
use dingo_cli.Prelude.{
  ℕ, zero, suc, ◌+◌, ◌*◌, ◌≤◌, ◌<◌, ◌≡◌, refl, Bool, true, false, some, List, [], ◌∷◌, ◌++◌, arith,
  length, get_elem?, length-append, Bool-cases, ap, ◌∙◌, inl, inr,
}
use native.Mathlib.Nat.{mul-le-mul_left}
use dingo_cli.Board.{
  Board, Block, blocks, items, same_block, extend, base_from, names, base, size, label, can_in,
  output,
}
use dingo_cli.Board.Names.{Name, codes, decimal, numbered, per_number}

module _ {A : Type 0} where
  pub get_elem?-append :
      (xs ys : List A) (i : ℕ) → i < length xs → get_elem? (xs ++ ys) i ≡ get_elem? xs i
  get_elem?-append [] ys i h = elim h [ ]
  get_elem?-append (x ∷ xs) ys zero h = refl
  get_elem?-append (x ∷ xs) ys (suc i) h = get_elem?-append xs ys i (omega arith)

  pub get_elem?-append_right :
      (xs ys : List A) (i : ℕ) → get_elem? (xs ++ ys) (length xs + i) ≡ get_elem? ys i
  get_elem?-append_right [] ys i = let z : 0 + i ≡ i = omega arith in rw z refl
  get_elem?-append_right (x ∷ xs) ys i =
      let z : suc (length xs) + i ≡ suc (length xs + i) = omega arith in
      rw z (get_elem?-append_right xs ys i)

same_block_refl : (k : Block) → same_block k k ≡ true
same_block_refl k = ground arith

same_block-eq : (k l : Block) → same_block k l ≡ true → k ≡ l
same_block-eq k l h = ground arith

-- Whether a block is among those of a list.
abbrev is_in : Block → List Block → Bool
is_in k [] = false
is_in k (l ∷ ls) = elim (same_block l k) [ true ↦ true | false ↦ is_in k ls ]

-- Where a block stands among the names that are left.
record Tile (b : Board) (k : Block) (start : ℕ) (ks : List Block) : Type 0 where
  before : ℕ
  starts : base_from b k start ks ≡ start + before
  fits : before + length (items b k) ≤ length (extend b ks)
  entry :
      (j : ℕ)
      → j < length (items b k)
      → get_elem? (extend b ks) (before + j) ≡ get_elem? (items b k) j

Tile-here :
    (b : Board) (k l : Block) (start : ℕ) (ks : List Block)
    → same_block l k ≡ true
    → l ≡ k
    → Tile b k start (l ∷ ks)
unfolding base_from extend
Tile-here b k l start ks h e = record {
  before = 0;
  starts = rw h (omega arith);
  fits = omega (arith, length-append (items b l) (extend b ks), ap (λ k. length (items b k)) e);
  entry = λ j lt.
      let z : 0 + j ≡ j = omega arith in
      rw z (
        get_elem?-append (items b l) (extend b ks) j (omega (arith, ap (λ k. length (items b k)) e))
        ∙ ap (λ k. get_elem? (items b k) j) e);
}

Tile-later :
    (b : Board) (k l : Block) (start : ℕ) (ks : List Block)
    → same_block l k ≡ false
    → Tile b k (start + length (items b l)) ks
    → Tile b k start (l ∷ ks)
unfolding base_from extend
Tile-later b k l start ks h t = record {
  before = length (items b l) + t.before;
  starts = rw h (omega (arith, t.starts));
  fits = omega (arith, t.fits, length-append (items b l) (extend b ks));
  entry = λ j lt.
      let e : length (items b l) + t.before + j ≡ length (items b l) + (t.before + j) =
        omega arith in
      rw (e, get_elem?-append_right (items b l) (extend b ks) (t.before + j)) (t.entry j lt);
}

tile : (b : Board) (k : Block) (start : ℕ) (ks : List Block) → is_in k ks ≡ true → Tile b k start ks
tile b k start [] h = cc
tile b k start (l ∷ ls) h = elim (Bool-cases (same_block l k)) [
  | inl e ↦ Tile-here b k l start ls e (same_block-eq l k e)
  | inr e ↦ Tile-later b k l start ls e (
      tile b k (start + length (items b l)) ls
        (let later : is_in k ls ≡ true = ground arith in later))
]

Tile-of : (b : Board) (k : Block) → Tile b k 0 blocks
Tile-of b k = tile b k 0 blocks (is_block k)
  where
    is_block : (k : Block) → is_in k blocks ≡ true
    is_block k = ground arith

-- On any board, the names of a block stand in the map one after the other, from the block's base on.
pub label-base :
    (b : Board) (k : Block) (j : ℕ)
    → j < length (items b k)
    → label b (base b k + j) ≡ get_elem? (items b k) j
unfolding label base names
label-base b k j h =
    let t = Tile-of b k in
    let z : base_from b k 0 blocks + j ≡ t.before + j = omega (arith, t.starts) in
    rw z (t.entry j h)

-- A block ends within the map.
pub base-fits : (b : Board) (k : Block) → base b k + length (items b k) ≤ size b
unfolding base size names
base-fits b k = let t = Tile-of b k in omega (arith, t.fits, t.starts)

-- A block whose names come `width` to a number has that many entries per number.
pub length-per_number :
    (f : ℕ → List Name) (width : ℕ)
    → ((i : ℕ) → length (f i) ≡ width)
    → (i count : ℕ) → length (per_number f i count) ≡ width * count
unfolding per_number
length-per_number f width h i zero = omega arith
length-per_number f width h i (suc count) = omega (
  arith,
  length-append (f i) (per_number f (suc i) count),
  h i,
  length-per_number f width h (suc i) count,
)

pub get_elem?-per_number :
    (f : ℕ → List Name) (width : ℕ)
    → ((i : ℕ) → length (f i) ≡ width)
    → (i count n j : ℕ) → n < count
    → j < width
    → get_elem? (per_number f i count) (width * n + j) ≡ get_elem? (f (i + n)) j
unfolding per_number
get_elem?-per_number f width h i zero n j k l = elim k [ ]
get_elem?-per_number f width h i (suc count) zero j k l =
    let e : width * 0 + j ≡ j = omega arith in
    let e' : i + 0 ≡ i = omega arith in rw (e, e') (get_elem?-append (f i) _ j (omega (arith, h i)))
get_elem?-per_number f width h i (suc count) (suc n) j k l =
    let e : width * suc n + j ≡ length (f i) + (width * n + j) = omega (arith, h i) in
    let e' : i + suc n ≡ suc i + n = omega arith in
    rw (e, e', get_elem?-append_right (f i) (per_number f (suc i) count) (width * n + j))
      (get_elem?-per_number f width h (suc i) count n j (omega arith) l)

pub length-numbered : (prefix : Name) (count : ℕ) → length (numbered prefix count) ≡ 1 * count
unfolding numbered
length-numbered prefix count = length-per_number _ 1 (λ i. refl) 1 count

pub length-can_in : (b : Board) → length (items b can_in) ≡ 2 * b.num_can_inputs
unfolding items
length-can_in b = length-per_number _ 2 (λ i. refl) 1 b.num_can_inputs

pub length-output : (b : Board) → length (items b output) ≡ 4 * b.num_outputs
unfolding items
length-output b = length-per_number _ 4 (λ i. refl) 1 b.num_outputs

-- The name that stands `j` places into the entries of number `n + 1`.
label-per_number :
    (b : Board) (k : Block) (f : ℕ → List Name) (width count n j : ℕ)
    → items b k ≡ per_number f 1 count
    → ((i : ℕ) → length (f i) ≡ width)
    → n < count
    → j < width
    → label b (base b k + width * n + j) ≡ get_elem? (f (suc n)) j
label-per_number b k f width count n j e h lt small =
    let len : length (items b k) ≡ width * count = rw e (length-per_number f width h 1 count) in
    let within : width * n + width ≤ width * count = omega (arith, mul-le-mul_left width lt) in
    let at : base b k + width * n + j ≡ base b k + (width * n + j) = omega arith in
    let one : 1 + n ≡ suc n = omega arith in
    rw
      (
        at,
        label-base b k (width * n + j) (omega arith),
        e,
        get_elem?-per_number f width h 1 count n j lt small,
        one,
      )
      refl

-- On any board, the indices base["canIn"] + 2 * i and base["canIn"] + 2 * i + 1, which `Sim.step`
-- writes for a CAN input that the board has, are those of CanIn{i + 1}Out and CanIn{i + 1}Val.
pub label-can_in :
    (b : Board) (i : ℕ)
    → i < b.num_can_inputs
    → (label b (base b can_in + 2 * i + 0) ≡ some (codes "CanIn" ++ decimal (suc i) ++ codes "Out"))
      × (label b (base b can_in + 2 * i + 1)
          ≡ some (codes "CanIn" ++ decimal (suc i) ++ codes "Val"))
unfolding items
label-can_in b i h = (
  label-per_number b can_in _ 2 b.num_can_inputs i 0 refl (λ i. refl) h (omega arith),
  label-per_number b can_in _ 2 b.num_can_inputs i 1 refl (λ i. refl) h (omega arith),
)

-- The first entry of output i + 1 is its state.
pub label-output :
    (b : Board) (i : ℕ)
    → i < b.num_outputs
    → label b (base b output + 4 * i + 0) ≡ some (codes "Out" ++ decimal (suc i) ++ codes "Active")
unfolding items
label-output b i h =
    label-per_number b output _ 4 b.num_outputs i 0 refl (λ i. refl) h (omega arith)
