-- ===== src/Load/Defaults.antt =====
-- FW_DEFAULTS and ADV_DEFAULTS of fwmodel/model/dingosim.py: the value of each field that a document
-- leaves out.
use dingo_cli.Prelude.{Bool, true, false, not, ◌||◌, List, [], ◌∷◌, if◌then◌else◌}
use dingo_cli.Prelude.Int.{pos, ◌+ℤ◌}
use dingo_cli.Double.{Double, of_ℕ}
use dingo_cli.Enums.{bool_or, edge_both, op_ne, mode_latching}
use dingo_cli.Board.Names.{Name, codes, same_name}
use dingo_cli.Json.{Json, bool, int, real}
use dingo_cli.Load.{
  Group, outputs, inputs, can_inputs, can_outputs, virtual_inputs, conditions, counters, flashers,
  Policy, firmware, gui, adversarial,
}
use dingo_cli.Load.Slots.{Slot, enabled_key, set_field}

unfoldable pub is_one_of : Name → List Name → Bool
unfolding same_name
is_one_of k [] = false
is_one_of k (l ∷ ls) = same_name k l || is_one_of k ls

module _ {W : Type 0} (d : Double W) where
  unfoldable pub fw_defaults : Group → Slot W
  fw_defaults outputs =
      (codes "enabled", bool false)
      ∷ (codes "input", int (pos 0))
      ∷ (codes "currentLimit", real (of_ℕ d 20))
      ∷ (codes "inrushCurrentLimit", real (of_ℕ d 50))
      ∷ (codes "inrushTime", int (pos 1000))
      ∷ (codes "resetMode", int (pos 0))
      ∷ (codes "resetTime", int (pos 1000))
      ∷ (codes "resetCountLimit", int (pos 3))
      ∷ []
  fw_defaults inputs =
      (codes "enabled", bool false)
      ∷ (codes "mode", int (pos 0))
      ∷ (codes "invert", bool false)
      ∷ (codes "debounceTime", int (pos 20))
      ∷ (codes "pull", int (pos 0))
      ∷ []
  fw_defaults can_inputs =
      (codes "enabled", bool false)
      ∷ (codes "timeoutEnabled", bool false)
      ∷ (codes "timeout", int (pos 1000))
      ∷ (codes "ide", int (pos 0))
      ∷ (codes "id", int (pos 0))
      ∷ (codes "startBit", int (pos 0))
      ∷ (codes "bitLength", int (pos 8))
      ∷ (codes "factor", real (of_ℕ d 1))
      ∷ (codes "offset", real (of_ℕ d 0))
      ∷ (codes "byteOrder", int (pos 0))
      ∷ (codes "signed", bool false)
      ∷ (codes "operator", int (pos 0))
      ∷ (codes "operand", real (of_ℕ d 0))
      ∷ (codes "mode", int (pos 0))
      ∷ []
  fw_defaults can_outputs =
      (codes "enabled", bool false)
      ∷ (codes "input", int (pos 0))
      ∷ (codes "ide", int (pos 0))
      ∷ (codes "id", int (pos 0))
      ∷ (codes "startBit", int (pos 0))
      ∷ (codes "bitLength", int (pos 8))
      ∷ (codes "factor", real (of_ℕ d 1))
      ∷ (codes "offset", real (of_ℕ d 0))
      ∷ (codes "byteOrder", int (pos 0))
      ∷ (codes "signed", bool false)
      ∷ (codes "interval", int (pos 1000))
      ∷ []
  fw_defaults virtual_inputs =
      (codes "enabled", bool false)
      ∷ (codes "not0", bool false)
      ∷ (codes "var0", int (pos 0))
      ∷ (codes "cond0", int (pos 0))
      ∷ (codes "not1", bool false)
      ∷ (codes "var1", int (pos 0))
      ∷ (codes "cond1", int (pos 0))
      ∷ (codes "not2", bool false)
      ∷ (codes "var2", int (pos 0))
      ∷ (codes "mode", int (pos 0))
      ∷ []
  fw_defaults conditions =
      (codes "enabled", bool false)
      ∷ (codes "input", int (pos 0))
      ∷ (codes "operator", int (pos 0))
      ∷ (codes "arg", real (of_ℕ d 0))
      ∷ []
  fw_defaults counters =
      (codes "enabled", bool false)
      ∷ (codes "incInput", int (pos 0))
      ∷ (codes "decInput", int (pos 0))
      ∷ (codes "resetInput", int (pos 0))
      ∷ (codes "minCount", int (pos 0))
      ∷ (codes "maxCount", int (pos 10))
      ∷ (codes "incEdge", int (pos 0))
      ∷ (codes "decEdge", int (pos 0))
      ∷ (codes "resetEdge", int (pos 0))
      ∷ (codes "wrapAround", bool false)
      ∷ (codes "holdToReset", bool false)
      ∷ (codes "resetTime", int (pos 2000))
      ∷ []
  fw_defaults flashers =
      (codes "enabled", bool false)
      ∷ (codes "input", int (pos 0))
      ∷ (codes "onTime", int (pos 500))
      ∷ (codes "offTime", int (pos 500))
      ∷ (codes "single", bool false)
      ∷ []

  -- The table "device", whose baseId a document may leave out.
  unfoldable pub fw_device : Slot W
  fw_device =
      (codes "baseId", int (pos 222))
      ∷ (codes "bitrate", int (pos 1))
      ∷ (codes "sleepEnabled", bool false)
      ∷ (codes "filtersEnabled", bool false)
      ∷ (codes "connectUsbToCan", bool true)
      ∷ []

  unfoldable pub plus_one : Json W → Json W
  unfolding ◌+ℤ◌
  plus_one (real x) = real (d.add x (of_ℕ d 1))
  plus_one (int i) = int (i +ℤ pos 1)
  plus_one v = v

  -- _adversarial, of a value that is no Boolean.
  unfoldable pub other_value : (key : Name) → Json W → Json W
  unfolding is_one_of plus_one
  other_value key v =
      if is_one_of key (
        codes "input"
        ∷ codes "var0"
        ∷ codes "var1"
        ∷ codes "var2"
        ∷ codes "incInput"
        ∷ codes "decInput"
        ∷ codes "resetInput"
        ∷ codes "dutyCycleInput"
        ∷ [])
      then int (pos 1)
      else if is_one_of key (codes "cond0" ∷ codes "cond1" ∷ [])
      then int (pos bool_or)
      else if is_one_of key (codes "incEdge" ∷ codes "decEdge" ∷ codes "resetEdge" ∷ [])
      then int (pos edge_both)
      else if same_name key (codes "operator")
      then int (pos op_ne)
      else if same_name key (codes "mode")
      then int (pos mode_latching)
      else if same_name key (codes "maxCount")
      then int (pos 255)
      else if same_name key (codes "minCount")
      then int (pos 0)
      else plus_one v

  -- _adversarial
  unfoldable pub adversarial_value : (key : Name) → Json W → Json W
  unfolding other_value
  adversarial_value key (bool b) = bool (not b)
  adversarial_value key v = other_value key v

  unfoldable pub all_other : Slot W → Slot W
  unfolding adversarial_value
  all_other [] = []
  all_other ((k, v) ∷ rest) = (k, adversarial_value k v) ∷ all_other rest

  -- Whether a group that the document does not mention is on.
  unfoldable pub stays_on : Group → Bool
  stays_on outputs = true
  stays_on can_outputs = true
  stays_on _ = false

  unfoldable pub adv_defaults : Group → Slot W
  unfolding fw_defaults all_other set_field stays_on
  adv_defaults g =
      let table = set_field enabled_key (bool (stays_on g)) (all_other (fw_defaults g)) in
      if stays_on g then set_field (codes "input") (int (pos 1)) table else table

  unfoldable pub adv_device : Slot W
  unfolding fw_device all_other set_field
  adv_device = set_field enabled_key (bool false) (all_other fw_device)

  -- DEFAULT_POLICIES
  unfoldable pub defaults_of : Policy → Group → Slot W
  unfolding fw_defaults adv_defaults
  defaults_of firmware = fw_defaults
  defaults_of gui = fw_defaults
  defaults_of adversarial = adv_defaults

  unfoldable pub device_defaults : Policy → Slot W
  unfolding fw_device adv_device
  device_defaults firmware = fw_device
  device_defaults gui = fw_device
  device_defaults adversarial = adv_device
