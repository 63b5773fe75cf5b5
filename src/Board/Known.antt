-- ===== src/Board/Known.antt =====
-- The boards that are registered.
use dingo_cli.Prelude.{
  ℕ, zero, suc, ◌<◌, ap, inl, inr, arith, Option-cases, Bool-cases, ◌≡◌, refl, Bool, true, false,
  ◌&&◌, none, some, [], ◌==◌,
}
use dingo_cli.Prelude.Int.{pos, negsuc}
use dingo_cli.Board.Names.{Name, codes}
use dingo_cli.Board.{Board, size, index, label, layout}

-- _PDM_KEYPAD, and what the three PDMs share.
abbrev pdm : Board
pdm = record {
  name = [];
  pdm_type = pos 0;
  sys_vars = 5;
  num_dig_inputs = 2;
  num_dig_outputs = 0;
  num_analog_inputs = 0;
  num_can_inputs = 32;
  num_can_outputs = 32;
  num_virt_inputs = 16;
  num_outputs = 8;
  num_flashers = 4;
  num_conditions = 32;
  num_counters = 4;
  wiper_vars = 6;
  num_keypads = 2;
  keypad_buttons = 20;
  keypad_dials = 2;
  keypad_analogs = 4;
}

abbrev pub dingopdm_v7 : Board
dingopdm_v7 = record pdm { name = codes "dingopdm_v7" }

abbrev pub dingopdmmax_v1 : Board
dingopdmmax_v1 = record pdm { name = codes "dingopdmmax_v1"; pdm_type = pos 1; num_outputs = 4 }

abbrev pub pt_dpdm4_1 : Board
pt_dpdm4_1 = record pdm {
  name = codes "pt-dpdm4_1";
  pdm_type = pos 2;
  num_analog_inputs = 2;
  num_outputs = 4;
}

abbrev pub canboard_v2 : Board
canboard_v2 = record {
  name = codes "canboard_v2";
  pdm_type = negsuc 0;
  sys_vars = 3;
  num_dig_inputs = 8;
  num_dig_outputs = 4;
  num_analog_inputs = 5;
  num_can_inputs = 8;
  num_can_outputs = 8;
  num_virt_inputs = 8;
  num_outputs = 0;
  num_flashers = 4;
  num_conditions = 8;
  num_counters = 4;
  wiper_vars = 0;
  num_keypads = 0;
  keypad_buttons = 0;
  keypad_dials = 0;
  keypad_analogs = 0;
}

sizes :
    (size dingopdm_v7 ≡ 217)
    × (size dingopdmmax_v1 ≡ 201)
    × (size pt_dpdm4_1 ≡ 209)
    × (size canboard_v2 ≡ 75)
unfolding layout
sizes = (refl, refl, refl, refl)

-- The anchors that selftest.py checks.
anchors :
    (index dingopdm_v7 (codes "DigIn1") ≡ some 5)
    × (index dingopdm_v7 (codes "CanIn1Out") ≡ some 7)
    × (index dingopdm_v7 (codes "VirtIn1") ≡ some 71)
    × (index dingopdm_v7 (codes "WiperSlowOut") ≡ some 159)
    × (index dingopdmmax_v1 (codes "Cond1") ≡ some 107)
    × (index pt_dpdm4_1 (codes "Counter1") ≡ some 147)
    × (index canboard_v2 (codes " cond1 ") ≡ some 63)
unfolding layout
anchors = (refl, refl, refl, refl, refl, refl, refl)

-- The index of the label of `i` is `i`.
unfoldable is_found : Board → ℕ → Bool
is_found b i = elim (label b i) [
  | none ↦ false
  | some name ↦ elim (index b name) [ none ↦ false | some j ↦ i == j ]
]

unfoldable all_found : Board → ℕ → Bool
all_found b zero = true
all_found b (suc n) = is_found b n && all_found b n

is_found-index :
    (b : Board) (i : ℕ)
    → is_found b i ≡ true
    → (name : Name) × (label b i ≡ some name) × (index b name ≡ some i)
unfolding is_found
is_found-index b i h = elim (Option-cases (label b i)) [
  | inl e ↦ absurd (let f : false ≡ true = ground arith in cc)
  | inr (name, e) ↦ elim (Option-cases (index b name)) [
    | inl f ↦ absurd (let f : false ≡ true = ground arith in cc)
    | inr (j, f) ↦ (name, e, (let g : j ≡ i = ground arith in rw f (ap some g)))
  ]
]

all_found-is_found : (b : Board) (n i : ℕ) → all_found b n ≡ true → i < n → is_found b i ≡ true
unfolding all_found
all_found-is_found b zero i h k = elim k [ ]
all_found-is_found b (suc n) i h k = elim (Bool-cases (i == n)) [
  | inl e ↦ (let same : i ≡ n = ground arith in rw same (ground arith))
  | inr e ↦ all_found-is_found b n i (ground arith) (ground arith)
]

-- BOARDS
pub data Registered : Board → Type 0 where
  v7 : Registered dingopdm_v7
  max_v1 : Registered dingopdmmax_v1
  dpdm4_1 : Registered pt_dpdm4_1
  canboard : Registered canboard_v2

Registered-all_found : (b : Board) → Registered b → all_found b (size b) ≡ true
unfolding all_found is_found layout
Registered-all_found b v7 = refl
Registered-all_found b max_v1 = refl
Registered-all_found b dpdm4_1 = refl
Registered-all_found b canboard = refl

-- Every index of the var map of a registered board has a name, and the name leads back to it.
pub index-label :
    (b : Board) (i : ℕ)
    → Registered b
    → i < size b
    → (name : Name) × (label b i ≡ some name) × (index b name ≡ some i)
index-label b i r h =
    is_found-index b i (all_found-is_found b (size b) i (Registered-all_found b r) h)
