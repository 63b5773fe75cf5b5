-- ===== src/Config.antt =====
-- `DeviceConfig` of fwmodel/model/dingosim.py, and `Sim._validate_refs`, which turns down a config that
-- reads outside the var map, or a variable that the simulator does not compute.
pub mod Accepted
pub mod Reads
use dingo_cli.Prelude.{
  ℕ, zero, suc, ◌<◌, Bool, true, false, ◌&&◌, ◌||◌, not, List, [], ◌∷◌, ◌++◌, ltb, leb, ◌==◌,
  if◌then◌else◌,
}
use dingo_cli.Prelude.Results.{Result, ok, raise, unsupported, key_error, or_raise, ◌>>=◌}
use dingo_cli.Board.{Board, size, index}
use dingo_cli.Board.Names.{Name, codes, decimal, per_number}
use dingo_cli.Output.{OutputConfig}
use dingo_cli.DigitalInput.{InputConfig}
use dingo_cli.CanInput.{CanInputConfig}
use dingo_cli.CanOutput.{CanOutputConfig}
use dingo_cli.VirtualInput.{VirtualInputConfig}
use dingo_cli.Condition.{ConditionConfig}
use dingo_cli.Counter.{CounterConfig}
use dingo_cli.Flasher.{FlasherConfig}

-- The groups, each with its slots in order. The fields name, base_id and raw are not read by `Sim`.
pub record DeviceConfig (W : Type 0) : Type 0 where
  pub board : Board
  pub outputs : List OutputConfig
  pub inputs : List InputConfig
  pub can_inputs : List (CanInputConfig W)
  pub can_outputs : List (CanOutputConfig W)
  pub virtual_inputs : List VirtualInputConfig
  pub conditions : List (ConditionConfig W)
  pub counters : List CounterConfig
  pub flashers : List FlasherConfig

-- The fields of the enabled slots of one group, in order.
unfoldable pub slot_refs : {S : Type 0} (enabled : S → Bool) (fields : S → List ℕ) → List S → List ℕ
slot_refs enabled fields [] = []
slot_refs enabled fields (s ∷ ss) =
    if enabled s then fields s ++ slot_refs enabled fields ss else slot_refs enabled fields ss

module _ {W : Type 0} where
  abbrev pub output_refs : DeviceConfig W → List ℕ
  output_refs c = slot_refs (λ s. s.enabled) (λ s. s.input ∷ []) c.outputs

  abbrev pub can_output_refs : DeviceConfig W → List ℕ
  can_output_refs c = slot_refs (λ s. s.enabled) (λ s. s.input ∷ []) c.can_outputs

  abbrev pub virtual_input_refs : DeviceConfig W → List ℕ
  virtual_input_refs c =
      slot_refs (λ s. s.enabled) (λ s. s.var0 ∷ s.var1 ∷ s.var2 ∷ []) c.virtual_inputs

  abbrev pub condition_refs : DeviceConfig W → List ℕ
  condition_refs c = slot_refs (λ s. s.enabled) (λ s. s.input ∷ []) c.conditions

  abbrev pub counter_refs : DeviceConfig W → List ℕ
  counter_refs c =
      slot_refs (λ s. s.enabled) (λ s. s.inc_input ∷ s.dec_input ∷ s.reset_input ∷ []) c.counters

  abbrev pub flasher_refs : DeviceConfig W → List ℕ
  flasher_refs c = slot_refs (λ s. s.enabled) (λ s. s.input ∷ []) c.flashers

  -- The variables that the enabled slots read, group by group.
  unfoldable pub refs : DeviceConfig W → List ℕ
  unfolding slot_refs
  refs c =
      output_refs c
      ++ (can_output_refs c
          ++ (virtual_input_refs c ++ (condition_refs c ++ (counter_refs c ++ flasher_refs c))))

-- The variables that stay 0 here, by name.
unfoldable pub pinned_names : Board → List Name
pinned_names b =
    per_number
      (λ i.
        let name = codes "Out" ++ decimal i in
        (name ++ codes "Current") ∷ (name ++ codes "Overcurrent") ∷ (name ++ codes "Fault") ∷ [])
      1 b.num_outputs
    ++ (per_number
          (λ i.
            let name = codes "Analog" ++ decimal i in
            (name ++ codes "Val")
            ∷ (name ++ codes "mV")
            ∷ (name ++ codes "Rotary")
            ∷ (name ++ codes "Switch")
            ∷ [])
          1 b.num_analog_inputs
        ++ (if leb 5 b.sys_vars then codes "BoardTemp" ∷ codes "BattVolt" ∷ [] else []))

-- The indices of names, the first missing one being a KeyError.
unfoldable pub indices : Board → List Name → Result (List ℕ)
unfolding index
indices b [] = ok []
indices b (name ∷ rest) = do
  i ← or_raise key_error (index b name)
  more ← indices b rest
  ok (i ∷ more)

unfoldable pub pinned : Board → Result (List ℕ)
unfolding indices pinned_names
pinned b = indices b (pinned_names b)

unfoldable pub all_below : ℕ → List ℕ → Bool
all_below n [] = true
all_below n (x ∷ xs) = ltb x n && all_below n xs

unfoldable pub is_among : ℕ → List ℕ → Bool
is_among x [] = false
is_among x (y ∷ ys) = x == y || is_among x ys

unfoldable pub any_among : List ℕ → List ℕ → Bool
unfolding is_among
any_among [] ys = false
any_among (x ∷ xs) ys = is_among x ys || any_among xs ys

-- Sim._validate_refs
unfoldable pub validate_refs : {W : Type 0} → DeviceConfig W → Result (Unit {0})
unfolding refs pinned all_below any_among
validate_refs c =
    if all_below (size c.board) (refs c)
    then (do pins ← pinned c.board; (if any_among (refs c) pins then raise unsupported else ok tt))
    else raise unsupported
