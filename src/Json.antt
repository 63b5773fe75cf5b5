-- ===== src/Json.antt =====
-- Values of a JSON document as `json.load` reads them, with Python's tests and conversions on them.
use dingo_cli.Prelude.{ℕ, Bool, true, false, not, Option, none, some, List, [], ◌∷◌, if◌then◌else◌}
use dingo_cli.Prelude.Int.{ℤ, pos, eqb_ℤ}
use dingo_cli.Prelude.Results.{Result, ok, raise, type_error}
use dingo_cli.Double.{Double, of_ℕ, truth}
use dingo_cli.Board.Names.{Name, same_name}

-- A float is a `real`, and everything else of a number is an `int`.
mutual
  pub data Json (W : Type 0) : Type 0 where
    null : Json W
    bool : Bool → Json W
    int : ℤ → Json W
    real : W → Json W
    text : Name → Json W
    array : Items W → Json W
    object : Fields W → Json W

  pub data Items (W : Type 0) : Type 0 where
    nil : Items W
    cons : Json W → Items W → Items W

  pub data Fields (W : Type 0) : Type 0 where
    end : Fields W
    field : Name → Json W → Fields W → Fields W

module _ {W : Type 0} where
  unfoldable pub listed : Items W → List (Json W)
  listed nil = []
  listed (cons x xs) = x ∷ listed xs

  -- An object is a dict: its keys are different.
  unfoldable pub entries : Fields W → List (Name × Json W)
  entries end = []
  entries (field k v rest) = (k, v) ∷ entries rest

  -- A dict display.
  unfoldable pub dict : List (Name × Json W) → Fields W
  dict [] = end
  dict ((k, v) ∷ rest) = field k v (dict rest)

  -- A list display.
  unfoldable pub elements : List (Json W) → Items W
  elements [] = nil
  elements (x ∷ xs) = cons x (elements xs)

  -- d[key], where it is there.
  unfoldable pub field_value : Name → List (Name × Json W) → Option (Json W)
  unfolding same_name
  field_value k [] = none
  field_value k ((l, v) ∷ rest) = if same_name l k then some v else field_value k rest

  -- d.get(key); what is no dict has no such method.
  unfoldable pub get : Name → Json W → Result (Option (Json W))
  unfolding entries field_value
  get key (object fs) = ok (field_value key (entries fs))
  get key _ = raise type_error

  -- The characters of a text.
  unfoldable pub chars : Name → List (Json W)
  chars [] = []
  chars (c ∷ cs) = text (c ∷ []) ∷ chars cs

  unfoldable pub keys : Fields W → List (Json W)
  keys end = []
  keys (field k v rest) = text k ∷ keys rest

  -- list(x)
  unfoldable pub as_list : Json W → Result (List (Json W))
  unfolding listed chars keys
  as_list (array xs) = ok (listed xs)
  as_list (object fs) = ok (keys fs)
  as_list (text t) = ok (chars t)
  as_list _ = raise type_error

module _ {W : Type 0} (d : Double W) where
  -- bool(x)
  unfoldable pub truthy : Json W → Bool
  truthy null = false
  truthy (bool b) = b
  truthy (int i) = not (eqb_ℤ i (pos 0))
  truthy (real x) = truth d x
  truthy (text []) = false
  truthy (text (c ∷ cs)) = true
  truthy (array nil) = false
  truthy (array (cons x xs)) = true
  truthy (object end) = false
  truthy (object (field k v rest)) = true

  -- What is missing is None.
  unfoldable pub present : Option (Json W) → Bool
  unfolding truthy
  present none = false
  present (some x) = truthy x

  -- x == n, for an int n.
  unfoldable pub equals_int : Json W → ℤ → Bool
  equals_int (int i) n = eqb_ℤ i n
  equals_int (bool b) n = eqb_ℤ (if b then pos 1 else pos 0) n
  equals_int (real x) n = d.eq x (d.of_int n)
  equals_int _ n = false

  -- int(x) of a number that is not negative; `none` of all else.
  unfoldable pub as_nat : Json W → Option ℕ
  as_nat (bool b) = some (if b then 1 else 0)
  as_nat (int (pos n)) = some n
  as_nat (real x) = elim (d.to_int x) [ some (pos n) ↦ some n | _ ↦ none ]
  as_nat _ = none

  -- float(x) of a number; `none` of all else.
  unfoldable pub as_float : Json W → Option W
  as_float (bool b) = some (of_ℕ d (if b then 1 else 0))
  as_float (int i) = some (d.of_int i)
  as_float (real x) = some x
  as_float _ = none
