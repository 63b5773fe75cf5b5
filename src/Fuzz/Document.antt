-- ===== src/Fuzz/Document.antt =====
-- The document of gen_config of fwhost/fuzz.py: the dict of each slot, and the device.
use dingo_cli.Prelude.{true, false, [], ◌∷◌, map}
use dingo_cli.Prelude.Int.{pos, negsuc}
use dingo_cli.Double.{Double, of_ℕ}
use dingo_cli.Board.Names.{Name, codes}
use dingo_cli.Json.{Json, bool, int, real, text, array, object, elements, dict}
use dingo_cli.Output.{OutputConfig}
use dingo_cli.DigitalInput.{InputConfig}
use dingo_cli.CanInput.{CanInputConfig}
use dingo_cli.CanOutput.{CanOutputConfig}
use dingo_cli.VirtualInput.{VirtualInputConfig}
use dingo_cli.Condition.{ConditionConfig}
use dingo_cli.Counter.{CounterConfig}
use dingo_cli.Flasher.{FlasherConfig}
use dingo_cli.Config.{DeviceConfig}
use dingo_cli.Fuzz.Random.{Source, Gen, done, ◌>>=◌}
use dingo_cli.Fuzz.Generate.{gen_slots}

module _ {W : Type 0} where
  unfoldable pub can_in_dict : CanInputConfig W → Json W
  unfolding dict
  can_in_dict c = object (
      dict (
        (codes "enabled", bool c.enabled)
        ∷ (codes "timeoutEnabled", bool c.timeout_enabled)
        ∷ (codes "timeout", int (pos c.timeout))
        ∷ (codes "ide", int (pos c.ide))
        ∷ (codes "id", int (pos c.id))
        ∷ (codes "startBit", int (pos c.start_bit))
        ∷ (codes "bitLength", int (pos c.bit_length))
        ∷ (codes "factor", real c.factor)
        ∷ (codes "offset", real c.offset)
        ∷ (codes "byteOrder", int (pos c.byte_order))
        ∷ (codes "signed", bool c.signed)
        ∷ (codes "operator", int (pos c.operator))
        ∷ (codes "operand", real c.operand)
        ∷ (codes "mode", int (pos c.mode))
        ∷ []))

  unfoldable pub virt_dict : VirtualInputConfig → Json W
  unfolding dict
  virt_dict c = object (
      dict (
        (codes "enabled", bool c.enabled)
        ∷ (codes "not0", bool c.not0)
        ∷ (codes "var0", int (pos c.var0))
        ∷ (codes "cond0", int (pos c.cond0))
        ∷ (codes "not1", bool c.not1)
        ∷ (codes "var1", int (pos c.var1))
        ∷ (codes "cond1", int (pos c.cond1))
        ∷ (codes "not2", bool c.not2)
        ∷ (codes "var2", int (pos c.var2))
        ∷ (codes "mode", int (pos c.mode))
        ∷ []))

  unfoldable pub cond_dict : ConditionConfig W → Json W
  unfolding dict
  cond_dict c = object (
      dict (
        (codes "enabled", bool c.enabled)
        ∷ (codes "input", int (pos c.input))
        ∷ (codes "operator", int (pos c.operator))
        ∷ (codes "arg", real c.arg)
        ∷ []))

  unfoldable pub counter_dict : CounterConfig → Json W
  unfolding dict
  counter_dict c = object (
      dict (
        (codes "enabled", bool c.enabled)
        ∷ (codes "incInput", int (pos c.inc_input))
        ∷ (codes "decInput", int (pos c.dec_input))
        ∷ (codes "resetInput", int (pos c.reset_input))
        ∷ (codes "minCount", int (pos c.min_count))
        ∷ (codes "maxCount", int (pos c.max_count))
        ∷ (codes "incEdge", int (pos c.inc_edge))
        ∷ (codes "decEdge", int (pos c.dec_edge))
        ∷ (codes "resetEdge", int (pos c.reset_edge))
        ∷ (codes "wrapAround", bool c.wrap_around)
        ∷ (codes "holdToReset", bool c.hold_to_reset)
        ∷ (codes "resetTime", int (pos c.reset_time))
        ∷ []))

  unfoldable pub flasher_dict : FlasherConfig → Json W
  unfolding dict
  flasher_dict c = object (
      dict (
        (codes "enabled", bool c.enabled)
        ∷ (codes "input", int (pos c.input))
        ∷ (codes "onTime", int (pos c.on_time))
        ∷ (codes "offTime", int (pos c.off_time))
        ∷ (codes "single", bool c.single)
        ∷ []))

  unfoldable pub can_out_dict : CanOutputConfig W → Json W
  unfolding dict
  can_out_dict c = object (
      dict (
        (codes "enabled", bool c.enabled)
        ∷ (codes "input", int (pos c.input))
        ∷ (codes "ide", int (pos c.ide))
        ∷ (codes "id", int (pos c.id))
        ∷ (codes "startBit", int (pos c.start_bit))
        ∷ (codes "bitLength", int (pos c.bit_length))
        ∷ (codes "factor", real c.factor)
        ∷ (codes "offset", real c.offset)
        ∷ (codes "byteOrder", int (pos c.byte_order))
        ∷ (codes "signed", bool true)
        ∷ (codes "interval", int (pos c.interval))
        ∷ []))

  unfoldable pub dig_in_dict : InputConfig → Json W
  unfolding dict
  dig_in_dict c = object (
      dict (
        (codes "enabled", bool c.enabled)
        ∷ (codes "mode", int (pos c.mode))
        ∷ (codes "invert", bool c.invert)
        ∷ (codes "debounceTime", int (pos c.debounce_time))
        ∷ (codes "pull", int (pos 0))
        ∷ []))

module _ {W : Type 0} (d : Double W) where
  unfoldable pub output_dict : OutputConfig → Json W
  unfolding dict
  output_dict c = object (
      dict (
        (codes "enabled", bool c.enabled)
        ∷ (codes "input", int (pos c.input))
        ∷ (codes "currentLimit", real (of_ℕ d 20))
        ∷ (codes "inrushCurrentLimit", real (of_ℕ d 50))
        ∷ (codes "inrushTime", int (pos 1000))
        ∷ (codes "resetMode", int (pos 0))
        ∷ (codes "resetTime", int (pos 1000))
        ∷ (codes "resetCountLimit", int (pos 3))
        ∷ (codes "pwmEnabled", bool false)
        ∷ (codes "softStartEnabled", bool false)
        ∷ (codes "variableDutyCycle", bool false)
        ∷ (codes "dutyCycleInput", int (pos 0))
        ∷ (codes "fixedDutyCycle", int (pos 100))
        ∷ (codes "frequency", int (pos 100))
        ∷ (codes "softStartRampTime", int (pos 0))
        ∷ (codes "dutyCycleDenominator", int (pos 100))
        ∷ (codes "minDutyCycle", int (pos 0))
        ∷ (codes "primaryOutput", int (negsuc 0))
        ∷ []))

  -- The device of some slots.
  unfoldable pub slots_device : Name → DeviceConfig W → Json W
  unfolding dict elements can_in_dict virt_dict cond_dict counter_dict flasher_dict can_out_dict
      dig_in_dict output_dict
  slots_device name c = object (
      dict (
        (codes "pdmType", int (pos 0))
        ∷ (codes "name", text name)
        ∷ (codes "baseId", int (pos 512))
        ∷ (codes "sleepEnabled", bool false)
        ∷ (codes "filtersEnabled", bool false)
        ∷ (codes "connectUsbToCan", bool true)
        ∷ (codes "bitrate", int (pos 1))
        ∷ (codes "inputs", array (elements (map dig_in_dict c.inputs)))
        ∷ (codes "outputs", array (elements (map output_dict c.outputs)))
        ∷ (codes "canInputs", array (elements (map can_in_dict c.can_inputs)))
        ∷ (codes "canOutputs", array (elements (map can_out_dict c.can_outputs)))
        ∷ (codes "virtualInputs", array (elements (map virt_dict c.virtual_inputs)))
        ∷ (codes "conditions", array (elements (map cond_dict c.conditions)))
        ∷ (codes "counters", array (elements (map counter_dict c.counters)))
        ∷ (codes "flashers", array (elements (map flasher_dict c.flashers)))
        ∷ []))

  unfoldable pub slots_document : Name → DeviceConfig W → Json W
  unfolding dict elements slots_device
  slots_document name c =
      object (dict ((codes "PdmDevices", array (elements (slots_device name c ∷ []))) ∷ []))

  unfoldable pub gen_config : {R : Type 0} → Source R → Name → Gen R (Json W)
  unfolding gen_slots slots_document
  gen_config src name = do c ← gen_slots d src; done (slots_document name c)
