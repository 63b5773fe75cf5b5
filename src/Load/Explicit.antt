-- ===== src/Load/Explicit.antt =====
-- Documents that give every field of every slot: the defaults, and so what the device held before,
-- do not matter.
use dingo_cli.Prelude.{
  ℕ, zero, suc, ◌≡◌, refl, true, false, Option, List, [], ◌∷◌, arith, length, ltb,
}
use dingo_cli.Prelude.Results.{ok}
use dingo_cli.Double.{Double}
use dingo_cli.Board.Names.{Name}
use dingo_cli.Json.{Json, field_value, get}
use dingo_cli.Load.{Policy}
use dingo_cli.Load.Slots.{
  Slot, is_label, filled_slot, item_fields, slots_of, expand_slots, group_array, group_slots,
}
use dingo_cli.Load.Fields.{gives, filled_slot-gives, slots_of_cons}
use dingo_cli.Prelude.Options.{each}

-- Keys that a slot keeps under their own name.
abbrev pub AreFields : List Name → Type 0
AreFields [] = Unit {0}
AreFields (k ∷ ks) = (is_label k ≡ false) × AreFields ks

module _ {W : Type 0} where
  abbrev pub GivesAll : List Name → Slot W → Type 0
  GivesAll [] item = Unit {0}
  GivesAll (k ∷ ks) item = (gives k item ≡ true) × GivesAll ks item

  -- Two slots have the same values of the fields.
  abbrev pub Agree : List Name → Slot W → Slot W → Type 0
  Agree [] s t = Unit {0}
  Agree (k ∷ ks) s t = (field_value k s ≡ field_value k t) × Agree ks s t

  abbrev pub AgreeAll : List Name → List (Slot W) → List (Slot W) → Type 0
  AgreeAll ks [] [] = Unit {0}
  AgreeAll ks (s ∷ ss) (t ∷ ts) = Agree ks s t × AgreeAll ks ss ts
  AgreeAll ks _ _ = ⊥

  pub filled_slot-Agree :
      (p q : Policy) (ks : List Name) (item s t : Slot W)
      → AreFields ks
      → GivesAll ks item
      → Agree ks (filled_slot p s item) (filled_slot q t item)
  filled_slot-Agree p q [] item s t n h = tt
  filled_slot-Agree p q (k ∷ ks) item s t (f, n) (g, h) =
      (filled_slot-gives p q k item s t f g, filled_slot-Agree p q ks item s t n h)

  -- A conversion that reads the fields only.
  pub each-Agree :
      {C : Type 0} (ks : List Name) (convert : Slot W → Option C) (ss ts : List (Slot W))
      → ((s t : Slot W) → Agree ks s t → convert s ≡ convert t)
      → AgreeAll ks ss ts
      → each convert ss ≡ each convert ts
  unfolding each
  each-Agree ks convert [] [] reads h = refl
  each-Agree ks convert [] (t ∷ ts) reads h = elim h [ ]
  each-Agree ks convert (s ∷ ss) [] reads h = elim h [ ]
  each-Agree ks convert (s ∷ ss) (t ∷ ts) reads (h, h') =
      rw (reads s t h, each-Agree ks convert ss ts reads h') refl

module _ {W : Type 0} (d : Double W) where
  -- Each entry of the array is an object that gives all the fields.
  abbrev pub AreExplicit : List Name → List (Json W) → Type 0
  AreExplicit ks [] = Unit {0}
  AreExplicit ks (x ∷ arr) =
      ((item : Slot W) × (item_fields d x ≡ ok item) × GivesAll ks item) × AreExplicit ks arr

  slots_of-AgreeAll :
      (p q : Policy) (ks : List Name) (count : ℕ) (s t : Slot W) (arr : List (Json W))
      (ss ts : List (Slot W))
      → AreFields ks
      → length arr ≡ count
      → AreExplicit ks arr
      → slots_of d p count s arr ≡ ok ss
      → slots_of d q count t arr ≡ ok ts
      → AgreeAll ks ss ts
  slots_of-AgreeAll p q ks zero s t [] ss ts n full h e f =
      unfold slots_of in
      (let a : ss ≡ [] = ground arith in let b : ts ≡ [] = ground arith in rw (a, b) tt)
  slots_of-AgreeAll p q ks (suc count) s t [] ss ts n full h e f = absurd (omega arith)
  slots_of-AgreeAll p q ks zero s t (x ∷ arr) ss ts n full h e f = absurd (omega arith)
  slots_of-AgreeAll p q ks (suc count) s t (x ∷ arr) ss ts n full ((item, r, g), h) e f =
      let (i1, more1, r1, e1, same1) = slots_of_cons d p count s x arr ss e in
      let (i2, more2, r2, e2, same2) = slots_of_cons d q count t x arr ts f in
      let z1 : i1 ≡ item = ground arith in
      let z2 : i2 ≡ item = ground arith in
      rw (same1, same2, z1, z2)
        (
          filled_slot-Agree p q ks item s t n g,
          slots_of-AgreeAll p q ks count s t arr more1 more2 n (omega arith) h e1 e2,
        )

  -- The array of a group in the document.
  pub record IsExplicit (ks : List Name) (dev : Json W) (key : Name) (count : ℕ) : Type 0 where
    pub value : Option (Json W)
    pub arr : List (Json W)
    pub value_eq : get key dev ≡ ok value
    pub arr_eq : group_array d value ≡ ok arr
    pub full : length arr ≡ count
    pub explicit : AreExplicit ks arr

  pub group_slots-AgreeAll :
      (p q : Policy) (ks : List Name) (dev : Json W) (key : Name) (count : ℕ) (s t : Slot W)
      (ss ts : List (Slot W))
      → AreFields ks
      → IsExplicit ks dev key count
      → group_slots d p dev key count s ≡ ok ss
      → group_slots d q dev key count t ≡ ok ts
      → AgreeAll ks ss ts
  unfolding group_slots expand_slots
  group_slots-AgreeAll p q ks dev key count s t ss ts n h e f =
      let in_range : ltb count (length h.arr) ≡ false = (let full = h.full in ground arith) in
      let e' = rw (h.value_eq, h.arr_eq, in_range) at e in
      let f' = rw (h.value_eq, h.arr_eq, in_range) at f in
      slots_of-AgreeAll p q ks count s t h.arr ss ts n h.full h.explicit e' f'
