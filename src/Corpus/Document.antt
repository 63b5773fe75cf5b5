-- ===== src/Corpus/Document.antt =====
-- The documents that mkreference.py and mkadversarial.py of fwmodel/tools build from slots, as the values
-- that `json.dump` is given.
use dingo_cli.Prelude.{ℕ, suc, true, false, List, [], ◌∷◌, ltb, ◌==◌, if◌then◌else◌}
use dingo_cli.Prelude.Int.{pos, negsuc}
use dingo_cli.Enums.{bool_and, edge_rising, mode_momentary}
use dingo_cli.Board.Names.{Name, codes}
use dingo_cli.Json.{Json, bool, int, text, array, object, elements, dict, nil}
use dingo_cli.Corpus.{
  DigIn, Output, CanIn, CanOut, Virt, Cond, Count, Flash, Given, padded, no_dig_in, no_output,
  no_can_in, no_can_out, no_virt, no_cond, no_counter, no_flasher,
}

module _ {W : Type 0} where
  unfoldable pub dig_in : (n : ℕ) → DigIn → Json W
  unfolding dict
  dig_in n a = object (
      dict (
        (codes "name", text a.name)
        ∷ (codes "number", int (pos n))
        ∷ (codes "enabled", bool a.enabled)
        ∷ (codes "invert", bool a.invert)
        ∷ (codes "mode", int (pos a.mode))
        ∷ (codes "debounceTime", int (pos a.debounce))
        ∷ (codes "pull", int (pos a.pull))
        ∷ []))

  unfoldable pub output : (n : ℕ) → Output → Json W
  unfolding dict
  output n a = object (
      dict (
        (codes "name", text a.name)
        ∷ (codes "number", int (pos n))
        ∷ (codes "enabled", bool a.enabled)
        ∷ (codes "input", int (pos a.inp))
        ∷ (codes "currentLimit", int (pos a.limit))
        ∷ (codes "inrushCurrentLimit", int (pos a.inrush))
        ∷ (codes "inrushTime", int (pos a.inrush_ms))
        ∷ (codes "resetMode", int (pos a.reset_mode))
        ∷ (codes "resetTime", int (pos a.reset_ms))
        ∷ (codes "resetCountLimit", int (pos a.reset_count))
        ∷ (codes "pwmEnabled", bool false)
        ∷ (codes "softStartEnabled", bool false)
        ∷ (codes "variableDutyCycle", bool false)
        ∷ (codes "dutyCycleInput", int (pos 0))
        ∷ (codes "fixedDutyCycle", int (pos 100))
        ∷ (codes "frequency", int (pos 100))
        ∷ (codes "softStartRampTime", int (pos 0))
        ∷ (codes "dutyCycleDenominator", int (pos 100))
        ∷ (codes "minDutyCycle", int (pos 0))
        ∷ (codes "primaryOutput", int (negsuc 0))
        ∷ []))

  unfoldable pub can_in : (n : ℕ) → CanIn → Json W
  unfolding dict
  can_in n a = object (
      dict (
        (codes "name", text a.name)
        ∷ (codes "number", int (pos n))
        ∷ (codes "enabled", bool a.enabled)
        ∷ (codes "timeoutEnabled", bool a.timeout_en)
        ∷ (codes "timeout", int (pos a.timeout))
        ∷ (codes "id", int (pos a.cid))
        ∷ (codes "ide", bool (ltb 2047 a.cid))
        ∷ (codes "startBit", int (pos a.start))
        ∷ (codes "bitLength", int (pos a.length))
        ∷ (codes "factor", int (pos 1))
        ∷ (codes "offset", int (pos 0))
        ∷ (codes "byteOrder", int (pos 0))
        ∷ (codes "signed", bool false)
        ∷ (codes "operator", int (pos a.op))
        ∷ (codes "operand", int (pos a.operand))
        ∷ (codes "mode", int (pos mode_momentary))
        ∷ []))

  unfoldable pub can_out : (n : ℕ) → CanOut → Json W
  unfolding dict
  can_out n a = object (
      dict (
        (codes "name", text a.name)
        ∷ (codes "number", int (pos n))
        ∷ (codes "enabled", bool a.enabled)
        ∷ (codes "input", int (pos a.inp))
        ∷ (codes "id", int (pos a.cid))
        ∷ (codes "ide", bool (ltb 2047 a.cid))
        ∷ (codes "startBit", int (pos a.start))
        ∷ (codes "bitLength", int (pos a.length))
        ∷ (codes "factor", int (pos 1))
        ∷ (codes "offset", int (pos 0))
        ∷ (codes "byteOrder", int (pos 0))
        ∷ (codes "signed", bool false)
        ∷ (codes "interval", int (pos a.interval))
        ∷ []))

  unfoldable pub virt : (n : ℕ) → Virt → Json W
  unfolding dict
  virt n a = object (
      dict (
        (codes "name", text a.name)
        ∷ (codes "number", int (pos n))
        ∷ (codes "enabled", bool a.enabled)
        ∷ (codes "not0", bool a.not0)
        ∷ (codes "var0", int (pos a.var0))
        ∷ (codes "cond0", int (pos a.cond0))
        ∷ (codes "not1", bool a.not1)
        ∷ (codes "var1", int (pos a.var1))
        ∷ (codes "cond1", int (pos (if a.var2 == 0 then bool_and else a.cond1)))
        ∷ (codes "not2", bool (if a.var2 == 0 then false else a.not2))
        ∷ (codes "var2", int (pos a.var2))
        ∷ (codes "mode", int (pos a.mode))
        ∷ []))

  unfoldable pub cond : (n : ℕ) → Cond → Json W
  unfolding dict
  cond n a = object (
      dict (
        (codes "name", text a.name)
        ∷ (codes "number", int (pos n))
        ∷ (codes "enabled", bool a.enabled)
        ∷ (codes "input", int (pos a.inp))
        ∷ (codes "operator", int (pos a.op))
        ∷ (codes "arg", int (pos a.arg))
        ∷ []))

  unfoldable pub counter : (n : ℕ) → Count → Json W
  unfolding dict
  counter n a = object (
      dict (
        (codes "name", text a.name)
        ∷ (codes "number", int (pos n))
        ∷ (codes "enabled", bool a.enabled)
        ∷ (codes "incInput", int (pos a.inc))
        ∷ (codes "decInput", int (pos a.dec))
        ∷ (codes "resetInput", int (pos a.reset))
        ∷ (codes "minCount", int (pos a.lo))
        ∷ (codes "maxCount", int (pos a.hi))
        ∷ (codes "incEdge", int (pos a.inc_edge))
        ∷ (codes "decEdge", int (pos a.dec_edge))
        ∷ (codes "resetEdge", int (pos edge_rising))
        ∷ (codes "wrapAround", bool a.wrap)
        ∷ (codes "holdToReset", bool a.hold)
        ∷ (codes "resetTime", int (pos a.hold_ms))
        ∷ []))

  unfoldable pub flasher : (n : ℕ) → Flash → Json W
  unfolding dict
  flasher n a = object (
      dict (
        (codes "name", text a.name)
        ∷ (codes "number", int (pos n))
        ∷ (codes "enabled", bool a.enabled)
        ∷ (codes "single", bool false)
        ∷ (codes "input", int (pos a.inp))
        ∷ (codes "onTime", int (pos a.on))
        ∷ (codes "offTime", int (pos a.off))
        ∷ []))

  -- Slots with the numbers from `n` on.
  unfoldable pub built : {A : Type 0} (build : ℕ → A → Json W) (n : ℕ) → List A → List (Json W)
  built build n [] = []
  built build n (a ∷ slots) = build n a ∷ built build (suc n) slots

  -- A group of mkadversarial.device, of at most `count` given slots.
  unfoldable pub group :
      {A : Type 0} (build : ℕ → A → Json W) (count : ℕ) (unused : A) → List A → Json W
  unfolding elements built padded
  group build count unused slots = array (elements (built build 1 (padded count unused slots)))

  -- The device of the document, for the counts of NUM.
  unfoldable pub pdm : Name → Given → Json W
  unfolding dict group
  pdm name g = object (
      dict (
        (codes "pdmType", int (pos 0))
        ∷ (codes "name", text name)
        ∷ (codes "baseId", int (pos 512))
        ∷ (codes "sleepEnabled", bool false)
        ∷ (codes "filtersEnabled", bool false)
        ∷ (codes "connectUsbToCan", bool true)
        ∷ (codes "bitrate", int (pos 1))
        ∷ (codes "inputs", group dig_in 2 no_dig_in g.dig_ins)
        ∷ (codes "outputs", group output 8 no_output g.outputs)
        ∷ (codes "canInputs", group can_in 32 no_can_in g.can_ins)
        ∷ (codes "canOutputs", group can_out 32 no_can_out g.can_outs)
        ∷ (codes "virtualInputs", group virt 16 no_virt g.virts)
        ∷ (codes "conditions", group cond 32 no_cond g.conds)
        ∷ (codes "counters", group counter 4 no_counter g.counters)
        ∷ (codes "flashers", group flasher 4 no_flasher g.flashers)
        ∷ []))

  -- mkadversarial.device
  unfoldable pub device : Name → Given → Json W
  unfolding pdm elements
  device name g = object (
      dict (
        (codes "PdmDevices", array (elements (pdm name g ∷ [])))
        ∷ (codes "CanboardDevices", array nil)
        ∷ (codes "DbcDevices", array nil)
        ∷ (codes "BlinkMarineKeypads", array nil)
        ∷ (codes "GrayhillKeypads", array nil)
        ∷ []))
