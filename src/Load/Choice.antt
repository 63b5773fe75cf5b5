-- ===== src/Load/Choice.antt =====
-- `load_device`: the device of the document, its board, and the keys that are refused.
use dingo_cli.Prelude.{Bool, true, false, Option, none, some, List, [], ◌∷◌, ◌++◌, if◌then◌else◌}
use dingo_cli.Prelude.Int.{ℤ}
use dingo_cli.Prelude.Results.{Result, ok, raise, unsupported, key_error, type_error, ◌>>=◌}
use dingo_cli.Double.{Double}
use dingo_cli.Board.{Board}
use dingo_cli.Board.Known.{dingopdm_v7, dingopdmmax_v1, pt_dpdm4_1, canboard_v2}
use dingo_cli.Board.Names.{Name, codes, same_name}
use dingo_cli.Json.{Json, array, object, listed, get, as_list, truthy, present, equals_int}
use dingo_cli.Load.Slots.{enabled_key}

-- BOARDS[board_name]
unfoldable pub board_named : Name → List Board → Result Board
unfolding same_name
board_named name [] = raise key_error
board_named name (b ∷ bs) =
    let rest = board_named name bs in if same_name b.name name then ok b else rest

-- The values of BOARDS, and those of BY_PDM_TYPE.
abbrev pub boards : List Board
boards = dingopdm_v7 ∷ dingopdmmax_v1 ∷ pt_dpdm4_1 ∷ canboard_v2 ∷ []

abbrev pub typed_boards : List Board
typed_boards = dingopdm_v7 ∷ dingopdmmax_v1 ∷ pt_dpdm4_1 ∷ []

module _ {W : Type 0} (d : Double W) where
  -- doc.get(key) or []
  unfoldable pub or_empty : Option (Json W) → Result (List (Json W))
  unfolding present as_list
  or_empty none = ok []
  or_empty (some v) = if truthy d v then as_list v else ok []

  -- The devices of the document.
  unfoldable pub devices : Json W → Result (List (Json W))
  unfolding get or_empty
  devices doc = do
    pdms ← get (codes "PdmDevices") doc
    devs ← or_empty pdms
    maxs ← get (codes "PdmMaxDevices") doc
    more ← or_empty maxs
    ok (devs ++ more)

  abbrev pub equals_base : ℤ → Option (Json W) → Bool
  equals_base id none = false
  equals_base id (some v) = equals_int d v id

  -- [d for d in devs if d.get("baseId") == base_id]
  unfoldable pub matches : (base_id : ℤ) → List (Json W) → Result (List (Json W))
  unfolding get equals_int
  matches id [] = ok []
  matches id (dev ∷ devs) = do
    v ← get (codes "baseId") dev
    more ← matches id devs
    ok (if equals_base id v then dev ∷ more else more)

  -- match[0]
  abbrev pub first_match : List (Json W) → Result (Json W)
  first_match [] = raise unsupported
  first_match (dev ∷ devs) = ok dev

  unfoldable pub choose_device : (base_id : Option ℤ) → List (Json W) → Result (Json W)
  unfolding matches
  choose_device base_id [] = raise unsupported
  choose_device (some id) (dev ∷ devs) = do found ← matches id (dev ∷ devs); first_match found
  choose_device none (dev ∷ []) = ok dev
  choose_device none (dev ∷ _ ∷ _) = raise unsupported

  -- BY_PDM_TYPE.get(pdm_type, BOARDS["dingopdm_v7"])
  unfoldable pub board_of_type : Json W → List Board → Board
  unfolding equals_int
  board_of_type t [] = dingopdm_v7
  board_of_type t (b ∷ bs) =
      let rest = board_of_type t bs in if equals_int d t b.pdm_type then b else rest

  -- A list or a dict is no key of a dict.
  unfoldable pub board_by_type : Option (Json W) → Result Board
  unfolding board_of_type
  board_by_type none = ok dingopdm_v7
  board_by_type (some (array xs)) = raise type_error
  board_by_type (some (object fs)) = raise type_error
  board_by_type (some t) = ok (board_of_type t typed_boards)

  -- An empty name counts as none.
  unfoldable pub choose_board : (board_name : Option Name) → Json W → Result Board
  unfolding board_named board_by_type get
  choose_board (some (c ∷ name)) dev = board_named (c ∷ name) boards
  choose_board (some []) dev = do t ← get (codes "pdmType") dev; board_by_type t
  choose_board none dev = do t ← get (codes "pdmType") dev; board_by_type t

  -- any((x or {}).get("enabled") for x in v)
  unfoldable pub any_enabled : List (Json W) → Result Bool
  unfolding truthy get present
  any_enabled [] = ok false
  any_enabled (x ∷ xs) =
      let rest = any_enabled xs in
      if truthy d x
      then (do e ← get enabled_key x; (if present d e then ok true else rest))
      else rest

  -- Whether the value of an unsupported key is enabled.
  unfoldable pub is_refused : Option (Json W) → Result Bool
  unfolding any_enabled listed
  is_refused (some (object fs)) = do e ← get enabled_key (object fs); ok (present d e)
  is_refused (some (array xs)) = any_enabled (listed xs)
  is_refused _ = ok false

  -- The loop over UNSUPPORTED_KEYS.
  unfoldable pub check_supported : List Name → Json W → Result (Unit {0})
  unfolding is_refused get
  check_supported [] dev = ok tt
  check_supported (k ∷ ks) dev = do
    v ← get k dev
    refused ← is_refused v
    (if refused then raise unsupported else check_supported ks dev)

abbrev pub unsupported_keys : List Name
unsupported_keys = codes "wipers" ∷ codes "starterDisable" ∷ codes "keypads" ∷ []
