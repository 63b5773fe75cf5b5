-- ===== src/Load/SelfContained.antt =====
-- What `equiv.py --self-contained` tests on traces: a document that gives every field of every slot
-- is the same config under the firmware's and the adversarial defaults.
use dingo_cli.Prelude.{◌≡◌, refl, sym, ◌∙◌, Option, List, [], ◌∷◌}
use dingo_cli.Prelude.Int.{ℤ}
use dingo_cli.Prelude.Results.{ok}
use dingo_cli.Double.{Double}
use dingo_cli.Board.Names.{Name, codes}
use dingo_cli.Board.{Board}
use dingo_cli.Json.{Json}
use dingo_cli.Load.{
  Group, outputs, inputs, can_inputs, can_outputs, virtual_inputs, conditions, counters, flashers,
  Policy, group_key, limit,
}
use dingo_cli.Load.Slots.{Slot, is_label}
use dingo_cli.Load.Defaults.{defaults_of}
use dingo_cli.Load.Choice.{devices, choose_device, choose_board}
use dingo_cli.Load.Device.{Groups, Loaded, slots_in, load_group, load_device}
use dingo_cli.Load.Groups.{load_device-Parts, Parts-device, load_groups_lem}
use dingo_cli.Load.Explicit.{
  AreFields, Agree, AgreeAll, each-Agree, IsExplicit, group_slots-AgreeAll,
}
use dingo_cli.Load.Typed.{
  flag, number, decimal_value, output_config, input_config, can_input_config, can_output_config,
  virtual_input_config, condition_config, counter_config, flasher_config, config_of,
}

-- The fields that `Sim` reads.
unfoldable pub read_fields : Group → List Name
read_fields outputs = codes "enabled" ∷ codes "input" ∷ []
read_fields inputs = codes "enabled" ∷ codes "mode" ∷ codes "invert" ∷ codes "debounceTime" ∷ []
read_fields can_inputs =
    codes "enabled"
    ∷ codes "timeoutEnabled"
    ∷ codes "timeout"
    ∷ codes "ide"
    ∷ codes "id"
    ∷ codes "startBit"
    ∷ codes "bitLength"
    ∷ codes "factor"
    ∷ codes "offset"
    ∷ codes "byteOrder"
    ∷ codes "signed"
    ∷ codes "operator"
    ∷ codes "operand"
    ∷ codes "mode"
    ∷ []
read_fields can_outputs =
    codes "enabled"
    ∷ codes "input"
    ∷ codes "ide"
    ∷ codes "id"
    ∷ codes "startBit"
    ∷ codes "bitLength"
    ∷ codes "factor"
    ∷ codes "offset"
    ∷ codes "byteOrder"
    ∷ codes "interval"
    ∷ []
read_fields virtual_inputs =
    codes "enabled"
    ∷ codes "not0"
    ∷ codes "var0"
    ∷ codes "cond0"
    ∷ codes "not1"
    ∷ codes "var1"
    ∷ codes "cond1"
    ∷ codes "not2"
    ∷ codes "var2"
    ∷ codes "mode"
    ∷ []
read_fields conditions = codes "enabled" ∷ codes "input" ∷ codes "operator" ∷ codes "arg" ∷ []
read_fields counters =
    codes "enabled"
    ∷ codes "incInput"
    ∷ codes "decInput"
    ∷ codes "resetInput"
    ∷ codes "minCount"
    ∷ codes "maxCount"
    ∷ codes "incEdge"
    ∷ codes "decEdge"
    ∷ codes "resetEdge"
    ∷ codes "wrapAround"
    ∷ codes "holdToReset"
    ∷ codes "resetTime"
    ∷ []
read_fields flashers =
    codes "enabled" ∷ codes "input" ∷ codes "onTime" ∷ codes "offTime" ∷ codes "single" ∷ []

pub read_fields-AreFields : (g : Group) → AreFields (read_fields g)
unfolding read_fields is_label
read_fields-AreFields outputs = (refl, (refl, tt))
read_fields-AreFields inputs = (refl, (refl, (refl, (refl, tt))))
read_fields-AreFields can_inputs = (
  refl,
  (
    refl,
    (
      refl,
      (refl, (refl, (refl, (refl, (refl, (refl, (refl, (refl, (refl, (refl, (refl, tt))))))))))),
    ),
  ),
)
read_fields-AreFields can_outputs =
    (refl, (refl, (refl, (refl, (refl, (refl, (refl, (refl, (refl, (refl, tt))))))))))
read_fields-AreFields virtual_inputs =
    (refl, (refl, (refl, (refl, (refl, (refl, (refl, (refl, (refl, (refl, tt))))))))))
read_fields-AreFields conditions = (refl, (refl, (refl, (refl, tt))))
read_fields-AreFields counters = (
  refl,
  (refl, (refl, (refl, (refl, (refl, (refl, (refl, (refl, (refl, (refl, (refl, tt))))))))))),
)
read_fields-AreFields flashers = (refl, (refl, (refl, (refl, (refl, tt)))))

module _ {W : Type 0} (d : Double W) where
  pub output_config-Agree :
      (s t : Slot W) → Agree (read_fields outputs) s t → output_config d s ≡ output_config d t
  unfolding output_config read_fields flag number
  output_config-Agree s t (h0, (h1, h)) = rw (h0, h1) refl

  pub input_config-Agree :
      (s t : Slot W) → Agree (read_fields inputs) s t → input_config d s ≡ input_config d t
  unfolding input_config read_fields flag number
  input_config-Agree s t (h0, (h1, (h2, (h3, h)))) = rw (h0, h1, h2, h3) refl

  pub can_input_config-Agree :
      (s t : Slot W)
      → Agree (read_fields can_inputs) s t
      → can_input_config d s ≡ can_input_config d t
  unfolding can_input_config read_fields flag number decimal_value
  can_input_config-Agree s t
        (h0, (h1, (h2, (h3, (h4, (h5, (h6, (h7, (h8, (h9, (h10, (h11, (h12, (h13, h)))))))))))))) =
      rw (h0, h1, h2, h3, h4, h5, h6, h7, h8, h9, h10, h11, h12, h13) refl

  pub can_output_config-Agree :
      (s t : Slot W)
      → Agree (read_fields can_outputs) s t
      → can_output_config d s ≡ can_output_config d t
  unfolding can_output_config read_fields flag number decimal_value
  can_output_config-Agree s t (h0, (h1, (h2, (h3, (h4, (h5, (h6, (h7, (h8, (h9, h)))))))))) =
      rw (h0, h1, h2, h3, h4, h5, h6, h7, h8, h9) refl

  pub virtual_input_config-Agree :
      (s t : Slot W)
      → Agree (read_fields virtual_inputs) s t
      → virtual_input_config d s ≡ virtual_input_config d t
  unfolding virtual_input_config read_fields flag number
  virtual_input_config-Agree s t (h0, (h1, (h2, (h3, (h4, (h5, (h6, (h7, (h8, (h9, h)))))))))) =
      rw (h0, h1, h2, h3, h4, h5, h6, h7, h8, h9) refl

  pub condition_config-Agree :
      (s t : Slot W)
      → Agree (read_fields conditions) s t
      → condition_config d s ≡ condition_config d t
  unfolding condition_config read_fields flag number decimal_value
  condition_config-Agree s t (h0, (h1, (h2, (h3, h)))) = rw (h0, h1, h2, h3) refl

  pub counter_config-Agree :
      (s t : Slot W) → Agree (read_fields counters) s t → counter_config d s ≡ counter_config d t
  unfolding counter_config read_fields flag number
  counter_config-Agree s t
        (h0, (h1, (h2, (h3, (h4, (h5, (h6, (h7, (h8, (h9, (h10, (h11, h)))))))))))) =
      rw (h0, h1, h2, h3, h4, h5, h6, h7, h8, h9, h10, h11) refl

  pub flasher_config-Agree :
      (s t : Slot W) → Agree (read_fields flashers) s t → flasher_config d s ≡ flasher_config d t
  unfolding flasher_config read_fields flag number
  flasher_config-Agree s t (h0, (h1, (h2, (h3, (h4, h))))) = rw (h0, h1, h2, h3, h4) refl

  -- Each group has an item for each slot, and each item a value for each field that `Sim` reads.
  abbrev pub IsSelfContained : (dev : Json W) → Board → Type 0
  IsSelfContained dev b = (g : Group) → IsExplicit d (read_fields g) dev (group_key g) (limit g b)

  groups-AgreeAll :
      (p q : Policy) (dev : Json W) (b : Board) (gs hs : Groups W)
      → IsSelfContained dev b
      → ((g : Group) → load_group d p dev b g ≡ ok (slots_in gs g))
      → ((g : Group) → load_group d q dev b g ≡ ok (slots_in hs g))
      → (g : Group) → AgreeAll (read_fields g) (slots_in gs g) (slots_in hs g)
  unfolding load_group
  groups-AgreeAll p q dev b gs hs self e f g =
      group_slots-AgreeAll d p q (read_fields g) dev (group_key g) (limit g b) (defaults_of d p g)
        (defaults_of d q g) (slots_in gs g) (slots_in hs g) (read_fields-AreFields g) (self g) (e g)
        (f g)

  config_of-Agree :
      (l m : Loaded W)
      → l.board ≡ m.board
      → ((g : Group) → AgreeAll (read_fields g) (slots_in l.groups g) (slots_in m.groups g))
      → config_of d l ≡ config_of d m
  unfolding config_of
  config_of-Agree l m same h =
      rw
        (
          each-Agree _ (output_config d) _ _ output_config-Agree (h outputs),
          each-Agree _ (input_config d) _ _ input_config-Agree (h inputs),
          each-Agree _ (can_input_config d) _ _ can_input_config-Agree (h can_inputs),
          each-Agree _ (can_output_config d) _ _ can_output_config-Agree (h can_outputs),
          each-Agree _ (virtual_input_config d) _ _ virtual_input_config-Agree (h virtual_inputs),
          each-Agree _ (condition_config d) _ _ condition_config-Agree (h conditions),
          each-Agree _ (counter_config d) _ _ counter_config-Agree (h counters),
          each-Agree _ (flasher_config d) _ _ flasher_config-Agree (h flashers),
          same,
        )
        refl

  -- Two policies load a document whose device is self-contained to the same config for `Sim`.
  pub load_device-self_contained :
      (p q : Policy) (doc : Json W) (name : Option Name) (base_id : Option ℤ) (devs : List (Json W))
      (dev : Json W) (b : Board) (l m : Loaded W)
      → devices d doc ≡ ok devs
      → choose_device d base_id devs ≡ ok dev
      → choose_board d name dev ≡ ok b
      → IsSelfContained dev b
      → load_device d p doc name base_id ≡ ok l
      → load_device d q doc name base_id ≡ ok m
      → config_of d l ≡ config_of d m
  load_device-self_contained p q doc name base_id devs dev b l m found chosen board self e f =
      let k = load_device-Parts d p doc name base_id l e in
      let n = load_device-Parts d q doc name base_id m f in
      let (k1, k2) = Parts-device d p doc name base_id devs dev b l found chosen board k in
      let (n1, n2) = Parts-device d q doc name base_id devs dev b m found chosen board n in
      config_of-Agree l m (k1 ∙ sym n1) (
        groups-AgreeAll p q dev b l.groups m.groups self (load_groups_lem d p dev b l.groups k2)
          (load_groups_lem d q dev b m.groups n2))
