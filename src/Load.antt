-- ===== src/Load.antt =====
-- The loading of a config in fwmodel/model/dingosim.py: `_slots`, `load_device` and the tables of
-- defaults, on a document that `json.load` has read.
pub mod Slots
pub mod Fields
pub mod Defaults
pub mod Choice
pub mod Device
pub mod Typed
pub mod Groups
pub mod Ready
pub mod SelfContained
pub mod Explicit
use dingo_cli.Prelude.{ℕ}
use dingo_cli.Board.{Board}
use dingo_cli.Board.Names.{Name, codes}

-- The groups of GROUP_LIMITS, their keys in a document, and the board's number of slots of each.
pub data Group : Type 0 where
  outputs inputs can_inputs can_outputs virtual_inputs conditions counters flashers : Group

unfoldable pub group_key : Group → Name
group_key outputs = codes "outputs"
group_key inputs = codes "inputs"
group_key can_inputs = codes "canInputs"
group_key can_outputs = codes "canOutputs"
group_key virtual_inputs = codes "virtualInputs"
group_key conditions = codes "conditions"
group_key counters = codes "counters"
group_key flashers = codes "flashers"

unfoldable pub limit : Group → Board → ℕ
limit outputs b = b.num_outputs
limit inputs b = b.num_dig_inputs
limit can_inputs b = b.num_can_inputs
limit can_outputs b = b.num_can_outputs
limit virtual_inputs b = b.num_virt_inputs
limit conditions b = b.num_conditions
limit counters b = b.num_counters
limit flashers b = b.num_flashers

-- The keys of DEFAULT_POLICIES.
pub data Policy : Type 0 where
  firmware gui adversarial : Policy
