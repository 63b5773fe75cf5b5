-- ===== src/Load/Fields.antt =====
-- What the slots of a loaded group hold: the value that the document gives, or the default.
use dingo_cli.Prelude.{
  ℕ, zero, suc, ◌≤◌, ◌≡◌, refl, sym, ap, ◌∙◌, inl, inr, Bool, true, false, not, ◌&&◌, ◌||◌,
  Bool-cases, some, List, [], ◌∷◌, arith, length, get_elem?, ltb, if◌then◌else◌,
}
use dingo_cli.Prelude.Results.{ok, Returns, returns, Returns-bind, Returns-eq, >>=-eq-ok}
use dingo_cli.Double.{Double}
use dingo_cli.Board.Names.{Name, same_name}
use dingo_cli.Json.{Json, null, field_value}
use dingo_cli.Load.{Policy, firmware}
use dingo_cli.Load.Slots.{
  Slot, is_label, is_adversarial, set_field, fill, filled_slot, item_fields, slots_of, expand_slots,
}

pub same_name-eq : (a b : Name) → same_name a b ≡ true → a ≡ b
unfolding same_name
same_name-eq [] [] h = refl
same_name-eq [] (y ∷ b) h = cc
same_name-eq (x ∷ a) [] h = cc
same_name-eq (x ∷ a) (y ∷ b) h = ground (arith, same_name-eq a b)

pub same_name_refl : (a : Name) → same_name a a ≡ true
unfolding same_name
same_name_refl [] = refl
same_name_refl (x ∷ a) = ground (arith, same_name_refl a)

same_name_comm : (a b : Name) → same_name a b ≡ same_name b a
unfolding same_name
same_name_comm [] [] = refl
same_name_comm [] (y ∷ b) = refl
same_name_comm (x ∷ a) [] = refl
same_name_comm (x ∷ a) (y ∷ b) = ground (arith, same_name_comm a b)

module _ {W : Type 0} where
  abbrev is_null : Json W → Bool
  is_null null = true
  is_null _ = false

  -- Whether an item has a value, not a null, for the field.
  unfoldable pub gives : Name → Slot W → Bool
  gives k [] = false
  gives k ((l, v) ∷ rest) = same_name l k && not (is_null v) || gives k rest

  field_value-set_field :
      (k l : Name) (v : Json W) (s : Slot W)
      → field_value l (set_field k v s) ≡ (if same_name k l then some v else field_value l s)
  unfolding field_value set_field
  field_value-set_field k l v [] = ground arith
  field_value-set_field k l v ((m, w) ∷ s) = elim (Bool-cases (same_name m k)) [
    | inl f ↦
        (let e : same_name m l ≡ same_name k l = ap (λ n. same_name n l) (same_name-eq m k f) in
          rw (f, e) (ground arith))
    | inr f ↦ elim (Bool-cases (same_name m l)) [
      | inl g ↦
          (let e : same_name k l ≡ false =
              same_name_comm k l ∙ ap (λ n. same_name n k) (sym (same_name-eq m l g)) ∙ f in
            rw (f, g, e) refl)
      | inr g ↦ rw (f, g) (field_value-set_field k l v s)
    ]
  ]

  field_value-set_same :
      (k l : Name) (v : Json W) (s : Slot W)
      → same_name k l ≡ true
      → field_value l (set_field k v s) ≡ some v
  field_value-set_same k l v s e = field_value-set_field k l v s ∙ rw e refl

  -- A field that an item does not give keeps its value.
  field_value-fill :
      (k : Name) (item s : Slot W)
      → gives k item ≡ false
      → field_value k (fill item s) ≡ field_value k s
  unfolding fill gives
  field_value-fill k [] s h = refl
  field_value-fill k ((l, null) ∷ rest) s h = field_value-fill k rest s (ground arith)
  field_value-fill k ((l, v) ∷ rest) s h =
      field_value-fill k rest (if is_label l then s else set_field l v s) (ground arith)
      ∙ elim (Bool-cases (is_label l)) [
        | inl f ↦ rw f refl
        | inr f ↦ rw f (
            field_value-set_field l k v s
            ∙ (let e : same_name l k ≡ false = ground arith in rw e refl))
      ]

  -- A field that an item gives has a value that the defaults do not change.
  fill-gives :
      (k : Name) (item s t : Slot W)
      → is_label k ≡ false
      → gives k item ≡ true
      → field_value k (fill item s) ≡ field_value k (fill item t)
  unfolding fill gives
  fill-gives k [] s t n h = cc
  fill-gives k ((l, null) ∷ rest) s t n h = fill-gives k rest s t n (ground arith)
  fill-gives k ((l, v) ∷ rest) s t n h = elim (Bool-cases (gives k rest)) [
    | inl f ↦ fill-gives k rest _ _ n f
    | inr f ↦
        (let e : same_name l k ≡ true = ground arith in
          let label : is_label l ≡ false = ap is_label (same_name-eq l k e) ∙ n in
          field_value-fill k rest _ f
          ∙ rw label (field_value-set_same l k v s e ∙ sym (field_value-set_same l k v t e))
          ∙ sym (field_value-fill k rest _ f))
  ]

  -- An item under two policies and two tables of defaults.
  pub filled_slot-gives :
      (p q : Policy) (k : Name) (item s t : Slot W)
      → is_label k ≡ false
      → gives k item ≡ true
      → field_value k (filled_slot p s item) ≡ field_value k (filled_slot q t item)
  unfolding filled_slot
  filled_slot-gives p q k item s t n h = fill-gives k item _ _ n h

module _ {W : Type 0} (d : Double W) where
  -- Each entry of the array is an object, or false and so an empty one.
  abbrev pub AreItems : List (Json W) → Type 0
  AreItems [] = Unit {0}
  AreItems (x ∷ arr) = ((item : Slot W) × (item_fields d x ≡ ok item)) × AreItems arr

  slots_of-Returns :
      (p : Policy) (count : ℕ) (defaults : Slot W) (arr : List (Json W))
      → AreItems arr
      → Returns (λ slots. length slots ≡ count) (slots_of d p count defaults arr)
  unfolding slots_of
  slots_of-Returns p zero defaults arr h = returns [] refl
  slots_of-Returns p (suc count) defaults [] h =
      Returns-bind (slots_of-Returns p count defaults [] tt) λ more e. returns _ (ap suc e)
  slots_of-Returns p (suc count) defaults (x ∷ arr) ((item, e), h) =
      rw e (Returns-bind (slots_of-Returns p count defaults arr h) λ more f. returns _ (ap suc f))

  pub slots_of_cons :
      (p : Policy) (count : ℕ) (defaults : Slot W) (x : Json W) (arr : List (Json W))
      (slots : List (Slot W))
      → slots_of d p (suc count) defaults (x ∷ arr) ≡ ok slots
      → (item : Slot W) × (more : List (Slot W)) × (item_fields d x ≡ ok item)
        × (slots_of d p count defaults arr ≡ ok more)
        × (slots ≡ filled_slot p defaults item ∷ more)
  unfolding slots_of
  slots_of_cons p count defaults x arr slots r =
      let (item, f, g) = >>=-eq-ok (item_fields d x) _ r in
      let (more, f', g') = >>=-eq-ok (slots_of d p count defaults arr) _ g in
      (item, more, f, f', ground arith)

  -- The slot of an item.
  slots_of_item :
      (p : Policy) (count : ℕ) (defaults : Slot W) (arr : List (Json W)) (slots : List (Slot W))
      (i : ℕ) (x : Json W) (item : Slot W)
      → length arr ≤ count
      → slots_of d p count defaults arr ≡ ok slots
      → get_elem? arr i ≡ some x
      → item_fields d x ≡ ok item
      → get_elem? slots i ≡ some (filled_slot p defaults item)
  slots_of_item p zero defaults [] slots i x item fits r e k = cc
  slots_of_item p zero defaults (y ∷ arr) slots i x item fits r e k = absurd (omega arith)
  slots_of_item p (suc count) defaults [] slots i x item fits r e k = cc
  slots_of_item p (suc count) defaults (y ∷ arr) slots zero x item fits r e k =
      let (item', more, f, g, same) = slots_of_cons p count defaults y arr slots r in
      let z : item' ≡ item = ground arith in rw (same, z) refl
  slots_of_item p (suc count) defaults (y ∷ arr) slots (suc i) x item fits r e k =
      let (item', more, f, g, same) = slots_of_cons p count defaults y arr slots r in
      rw same (slots_of_item p count defaults arr more i x item (omega arith) g e k)

  -- Under the firmware policy, an array of at most `count` items expands into `count` slots, and in
  -- the slot of an item a field of which the item has no value, or a null, has its default.
  pub expand_slots-default :
      (count : ℕ) (defaults : Slot W) (arr : List (Json W)) (i : ℕ) (x : Json W) (item : Slot W)
      (k : Name)
      → AreItems arr
      → length arr ≤ count
      → get_elem? arr i ≡ some x
      → item_fields d x ≡ ok item
      → gives k item ≡ false
      → Returns
          (λ slots.
            (length slots ≡ count)
            × ((slot : Slot W) × (get_elem? slots i ≡ some slot)
                × (field_value k slot ≡ field_value k defaults)))
          (expand_slots d firmware count defaults arr)
  unfolding expand_slots filled_slot is_adversarial
  expand_slots-default count defaults arr i x item k items fits e f silent =
      let z : ltb count (length arr) ≡ false = ground arith in
      rw z (
        Returns-eq (slots_of-Returns firmware count defaults arr items) λ slots r full. (
          full,
          (
            fill item defaults,
            slots_of_item firmware count defaults arr slots i x item fits r e f,
            field_value-fill k item defaults silent,
          ),
        ))
