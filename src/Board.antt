-- ===== src/Board.antt =====
-- fwmodel/model/varmap.py: the boards, and the layout of the var map of each (core/device.cpp
-- InitVarMap). A name is the list of its characters' codes.
pub mod Names
pub mod Known
pub mod Layout
use dingo_cli.Prelude.{
  ℕ, zero, suc, ◌+◌, ◌-◌, Bool, true, false, Option, none, some, List, [], ◌∷◌, ◌++◌, ◌==◌, length,
  get_elem?, take, if◌then◌else◌,
}
use dingo_cli.Prelude.Int.{ℤ}
use Names.{Name, codes, decimal, same_name, lower, strip, numbered, per_number}

pub record Board : Type 0 where
  pub name : Name
  pub pdm_type : ℤ
  pub sys_vars : ℕ
  pub num_dig_inputs : ℕ
  pub num_dig_outputs : ℕ
  pub num_analog_inputs : ℕ
  pub num_can_inputs : ℕ
  pub num_can_outputs : ℕ
  pub num_virt_inputs : ℕ
  pub num_outputs : ℕ
  pub num_flashers : ℕ
  pub num_conditions : ℕ
  pub num_counters : ℕ
  pub wiper_vars : ℕ
  pub num_keypads : ℕ
  pub keypad_buttons : ℕ
  pub keypad_dials : ℕ
  pub keypad_analogs : ℕ

-- The blocks of `__post_init__`, in the order in which they extend the list of names.
pub data Block : Type 0 where
  sys dig_in dig_out analog_in can_in virt_in output flasher condition counter wiper keypad : Block

abbrev pub blocks : List Block
blocks =
    sys ∷ dig_in ∷ dig_out ∷ analog_in ∷ can_in ∷ virt_in ∷ output ∷ flasher ∷ condition ∷ counter
    ∷ wiper ∷ keypad ∷ []

unfoldable pub sys_names : List Name
sys_names =
    codes "AlwaysFalse"
    ∷ codes "AlwaysTrue"
    ∷ codes "State"
    ∷ codes "BoardTemp"
    ∷ codes "BattVolt"
    ∷ []

unfoldable pub wiper_names : List Name
wiper_names =
    codes "WiperSlowOut"
    ∷ codes "WiperFastOut"
    ∷ codes "WiperParkOut"
    ∷ codes "WiperInterOut"
    ∷ codes "WiperWashOut"
    ∷ codes "WiperSwipeOut"
    ∷ []

-- The names of keypad `k`.
unfoldable pub keypad_names : Board → ℕ → List Name
keypad_names b k =
    let prefix = codes "Keypad" ++ decimal k in
    numbered (prefix ++ codes "Button") b.keypad_buttons
    ++ (numbered (prefix ++ codes "Dial") b.keypad_dials
        ++ numbered (prefix ++ codes "Analog") b.keypad_analogs)

-- The names that a block adds.
unfoldable pub items : Board → Block → List Name
items b sys = take b.sys_vars sys_names
items b dig_in = numbered (codes "DigIn") b.num_dig_inputs
items b dig_out = numbered (codes "DigOut") b.num_dig_outputs
items b analog_in =
    per_number
      (λ i.
        let name = codes "Analog" ++ decimal i in
        (name ++ codes "Val")
        ∷ (name ++ codes "mV")
        ∷ (name ++ codes "Rotary")
        ∷ (name ++ codes "Switch")
        ∷ [])
      1 b.num_analog_inputs
items b can_in =
    per_number
      (λ i.
        let name = codes "CanIn" ++ decimal i in (name ++ codes "Out") ∷ (name ++ codes "Val") ∷ [])
      1 b.num_can_inputs
items b virt_in = numbered (codes "VirtIn") b.num_virt_inputs
items b output =
    per_number
      (λ i.
        let name = codes "Out" ++ decimal i in
        (name ++ codes "Active")
        ∷ (name ++ codes "Current")
        ∷ (name ++ codes "Overcurrent")
        ∷ (name ++ codes "Fault")
        ∷ [])
      1 b.num_outputs
items b flasher = numbered (codes "Flasher") b.num_flashers
items b condition = numbered (codes "Cond") b.num_conditions
items b counter = numbered (codes "Counter") b.num_counters
items b wiper = take b.wiper_vars wiper_names
items b keypad = per_number (keypad_names b) 1 b.num_keypads

abbrev pub same_block : Block → Block → Bool
same_block sys sys = true
same_block dig_in dig_in = true
same_block dig_out dig_out = true
same_block analog_in analog_in = true
same_block can_in can_in = true
same_block virt_in virt_in = true
same_block output output = true
same_block flasher flasher = true
same_block condition condition = true
same_block counter counter = true
same_block wiper wiper = true
same_block keypad keypad = true
same_block _ _ = false

-- base[key] = len(n); n.extend(items), over the blocks that are left.
unfoldable pub extend : Board → List Block → List Name
extend b [] = []
extend b (key ∷ keys) = items b key ++ extend b keys

unfoldable pub base_from : Board → Block → (start : ℕ) → List Block → ℕ
base_from b key start [] = start
base_from b key start (k ∷ ks) =
    let later = base_from b key (start + length (items b k)) ks in
    if same_block k key then start else later

-- self.names
unfoldable pub names : Board → List Name
names b = extend b blocks

-- self.base[key]
unfoldable pub base : Board → Block → ℕ
base b key = base_from b key 0 blocks

unfoldable pub size : Board → ℕ
size b = length (names b)

-- The dictionary `by_name` of the lower-case names, in which a later name replaces an earlier one.
unfoldable pub position : (key : Name) (i : ℕ) → List Name → Option ℕ
position key i [] = none
position key i (name ∷ rest) =
    let later = position key (suc i) rest in
    let here = if same_name (lower name) key then some i else none in
    elim later [ none ↦ here | some j ↦ some j ]

-- `none` is the KeyError of a name that the board does not have.
unfoldable pub index : Board → Name → Option ℕ
index b name = position (lower (strip name)) 0 (names b)

-- `none` stands for the text "<oob …>".
unfoldable pub label : Board → ℕ → Option Name
label b i = get_elem? (names b) i

-- For runs: the layout of a board.
unfoldable pub layout : Unit {0}
unfolding index label size base names position base_from extend items keypad_names sys_names
    wiper_names Names.texts
layout = tt
