-- ===== src/Load/Slots.antt =====
-- `_slots`: a group of a device document becomes its slots, each with a value for every field.
use dingo_cli.Prelude.{
  ℕ, zero, suc, Bool, true, false, not, ◌&&◌, ◌||◌, Option, none, some, List, [], ◌∷◌, length, ltb,
  if◌then◌else◌,
}
use dingo_cli.Prelude.Results.{Result, ok, raise, unsupported, type_error, ◌>>=◌}
use dingo_cli.Double.{Double}
use dingo_cli.Board.Names.{Name, codes, same_name}
use dingo_cli.Json.{Json, null, bool, array, object, listed, entries, get, truthy}
use dingo_cli.Load.{Policy, adversarial, firmware, gui}

abbrev pub Slot : Type 0 → Type 0
Slot W = List (Name × Json W)

abbrev pub enabled_key : Name
enabled_key = codes "enabled"

-- The keys that a slot keeps under another name.
unfoldable pub is_label : Name → Bool
unfolding same_name
is_label k = same_name k (codes "name") || same_name k (codes "number")

unfoldable pub is_adversarial : Policy → Bool
is_adversarial adversarial = true
is_adversarial firmware = false
is_adversarial gui = false

module _ {W : Type 0} where
  -- slot[k] = v
  unfoldable pub set_field : Name → Json W → Slot W → Slot W
  unfolding same_name
  set_field k v [] = (k, v) ∷ []
  set_field k v ((l, w) ∷ rest) =
      if same_name l k then (l, v) ∷ rest else (l, w) ∷ set_field k v rest

  -- The entries of an item on top of the fields of the slot; a null changes nothing.
  unfoldable pub fill : Slot W → Slot W → Slot W
  unfolding set_field is_label
  fill [] fields = fields
  fill ((k, null) ∷ rest) fields = fill rest fields
  fill ((k, v) ∷ rest) fields = fill rest (if is_label k then fields else set_field k v fields)

  -- k in item
  unfoldable pub mentions : Name → Slot W → Bool
  unfolding same_name
  mentions k [] = false
  mentions k ((l, v) ∷ rest) = same_name l k || mentions k rest

  -- The slot of an item of the document.
  unfoldable pub filled_slot : Policy → (defaults : Slot W) → (item : Slot W) → Slot W
  unfolding fill mentions is_adversarial
  filled_slot policy defaults item = fill item (
      if is_adversarial policy && not (mentions enabled_key item)
      then set_field enabled_key (bool true) defaults
      else defaults)

module _ {W : Type 0} (d : Double W) where
  -- arr[i] or {}
  unfoldable pub item_fields : Json W → Result (Slot W)
  unfolding truthy entries
  item_fields (object fs) = ok (entries fs)
  item_fields v = if truthy d v then raise type_error else ok []

  -- The `count` slots: those of the array, then slots of defaults.
  unfoldable pub slots_of :
      Policy → (count : ℕ) (defaults : Slot W) → List (Json W) → Result (List (Slot W))
  unfolding filled_slot item_fields
  slots_of policy zero defaults arr = ok []
  slots_of policy (suc count) defaults [] = do
    more ← slots_of policy count defaults []
    ok (defaults ∷ more)
  slots_of policy (suc count) defaults (x ∷ arr) = do
    item ← item_fields x
    more ← slots_of policy count defaults arr
    ok (filled_slot policy defaults item ∷ more)

  unfoldable pub expand_slots :
      Policy → (count : ℕ) (defaults : Slot W) → List (Json W) → Result (List (Slot W))
  unfolding slots_of
  expand_slots policy count defaults arr =
      if ltb count (length arr) then raise unsupported else slots_of policy count defaults arr

  -- raw_dev.get(key) or []
  unfoldable pub group_array : Option (Json W) → Result (List (Json W))
  unfolding truthy listed
  group_array none = ok []
  group_array (some (array xs)) = ok (listed xs)
  group_array (some v) = if truthy d v then raise unsupported else ok []

  -- _slots. The marks that only the linter and the messages read, `_slot` and so on, are left out.
  unfoldable pub group_slots :
      Policy → (dev : Json W) (key : Name) (count : ℕ) (defaults : Slot W) → Result (List (Slot W))
  unfolding get group_array expand_slots
  group_slots policy dev key count defaults = do
    v ← get key dev
    arr ← group_array v
    expand_slots policy count defaults arr
