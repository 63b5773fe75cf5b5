-- ===== src/Load/Device.antt =====
-- `load_device`, end to end, and the `DeviceConfig` that it returns.
use dingo_cli.Prelude.{Option, none, some, List}
use dingo_cli.Prelude.Int.{ℤ}
use dingo_cli.Prelude.Results.{Result, ok, ◌>>=◌}
use dingo_cli.Double.{Double}
use dingo_cli.Board.{Board}
use dingo_cli.Board.Names.{Name, codes}
use dingo_cli.Json.{Json, get, field_value}
use dingo_cli.Load.{
  Group, outputs, inputs, can_inputs, can_outputs, virtual_inputs, conditions, counters, flashers,
  Policy, group_key, limit,
}
use dingo_cli.Load.Slots.{Slot, group_slots}
use dingo_cli.Load.Defaults.{defaults_of, device_defaults}
use dingo_cli.Load.Choice.{devices, choose_device, choose_board, check_supported, unsupported_keys}

-- The groups of a DeviceConfig.
pub record Groups (W : Type 0) : Type 0 where
  pub outputs : List (Slot W)
  pub inputs : List (Slot W)
  pub can_inputs : List (Slot W)
  pub can_outputs : List (Slot W)
  pub virtual_inputs : List (Slot W)
  pub conditions : List (Slot W)
  pub counters : List (Slot W)
  pub flashers : List (Slot W)

-- A DeviceConfig. The document itself, `raw`, is left out, and so is `name`, which only messages show.
pub record Loaded (W : Type 0) : Type 0 where
  pub board : Board
  pub base_id : Option (Json W)
  pub groups : Groups W

module _ {W : Type 0} where
  -- groups[key]
  abbrev pub slots_in : Groups W → Group → List (Slot W)
  slots_in g outputs = g.outputs
  slots_in g inputs = g.inputs
  slots_in g can_inputs = g.can_inputs
  slots_in g can_outputs = g.can_outputs
  slots_in g virtual_inputs = g.virtual_inputs
  slots_in g conditions = g.conditions
  slots_in g counters = g.counters
  slots_in g flashers = g.flashers

module _ {W : Type 0} (d : Double W) (policy : Policy) where
  unfoldable pub load_group : (dev : Json W) → Board → Group → Result (List (Slot W))
  unfolding group_slots group_key limit
  load_group dev b g = group_slots d policy dev (group_key g) (limit g b) (defaults_of d policy g)

  -- The loop over GROUP_LIMITS.
  unfoldable pub load_groups : (dev : Json W) → Board → Result (Groups W)
  unfolding load_group
  load_groups dev b = do
    g1 ← load_group dev b outputs
    g2 ← load_group dev b inputs
    g3 ← load_group dev b can_inputs
    g4 ← load_group dev b can_outputs
    g5 ← load_group dev b virtual_inputs
    g6 ← load_group dev b conditions
    g7 ← load_group dev b counters
    g8 ← load_group dev b flashers
    ok (record {
      outputs = g1;
      inputs = g2;
      can_inputs = g3;
      can_outputs = g4;
      virtual_inputs = g5;
      conditions = g6;
      counters = g7;
      flashers = g8;
    })

  -- dev.get(key, default)
  abbrev pub or_default : Option (Json W) → Option (Json W) → Option (Json W)
  or_default none v = v
  or_default (some v) w = some v

  unfoldable pub load_device :
      (doc : Json W) (board_name : Option Name) (base_id : Option ℤ) → Result (Loaded W)
  unfolding devices choose_device choose_board check_supported load_groups get device_defaults
  load_device doc board_name base_id = do
    devs ← devices d doc
    dev ← choose_device d base_id devs
    board ← choose_board d board_name dev
    ok_keys ← check_supported d unsupported_keys dev
    groups ← load_groups dev board
    base ← get (codes "baseId") dev
    ok (record {
      board = board;
      base_id = or_default base (field_value (codes "baseId") (device_defaults d policy));
      groups = groups;
    })
