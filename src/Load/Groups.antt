-- ===== src/Load/Groups.antt =====
-- What a loaded config has: the slots of each group, and one of the registered boards.
use dingo_cli.Prelude.{
  ℕ, zero, suc, ◌≡◌, sym, ap, inl, inr, Bool-cases, Option, none, some, List, [], ◌∷◌, arith,
  length, ltb,
}
use dingo_cli.Prelude.Int.{ℤ}
use dingo_cli.Prelude.Results.{ok, >>=-eq-ok}
use dingo_cli.Prelude.Partial.{IfOk-ok, IfOk-bind}
use dingo_cli.Double.{Double}
use dingo_cli.Board.{Board}
use dingo_cli.Board.Names.{Name, same_name}
use dingo_cli.Board.Known.{Registered, v7, max_v1, dpdm4_1, canboard, dingopdm_v7}
use dingo_cli.Json.{Json, array, object, get, equals_int}
use dingo_cli.Load.{
  Group, outputs, inputs, can_inputs, can_outputs, virtual_inputs, conditions, counters, flashers,
  Policy, limit,
}
use dingo_cli.Load.Slots.{Slot, group_slots, group_array, slots_of, expand_slots}
use dingo_cli.Load.Fields.{slots_of_cons}
use dingo_cli.Load.Choice.{
  board_named, board_of_type, board_by_type, boards, typed_boards, choose_board, choose_device,
  devices, check_supported, unsupported_keys,
}
use dingo_cli.Load.Device.{Groups, Loaded, slots_in, load_group, load_groups, load_device}

pub per_group :
    (P : Group → Type 0)
    → P outputs
    → P inputs
    → P can_inputs
    → P can_outputs
    → P virtual_inputs
    → P conditions
    → P counters
    → P flashers
    → (g : Group) → P g
per_group P x1 x2 x3 x4 x5 x6 x7 x8 outputs = x1
per_group P x1 x2 x3 x4 x5 x6 x7 x8 inputs = x2
per_group P x1 x2 x3 x4 x5 x6 x7 x8 can_inputs = x3
per_group P x1 x2 x3 x4 x5 x6 x7 x8 can_outputs = x4
per_group P x1 x2 x3 x4 x5 x6 x7 x8 virtual_inputs = x5
per_group P x1 x2 x3 x4 x5 x6 x7 x8 conditions = x6
per_group P x1 x2 x3 x4 x5 x6 x7 x8 counters = x7
per_group P x1 x2 x3 x4 x5 x6 x7 x8 flashers = x8

-- A list of registered boards.
abbrev AreRegistered : List Board → Type 0
AreRegistered [] = Unit {0}
AreRegistered (b ∷ bs) = Registered b × AreRegistered bs

board_named-Registered :
    (name : Name) (bs : List Board) (b : Board)
    → AreRegistered bs
    → board_named name bs ≡ ok b
    → Registered b
unfolding board_named
board_named-Registered name [] b h e = cc
board_named-Registered name (a ∷ bs) b (r, h) e = elim (Bool-cases (same_name a.name name)) [
  | inl f ↦ (let e' = rw f at e in let z : a ≡ b = ground arith in rw (sym z) r)
  | inr f ↦ (let e' = rw f at e in board_named-Registered name bs b h e')
]

module _ {W : Type 0} (d : Double W) where
  board_of_type-Registered :
      (t : Json W) (bs : List Board) → AreRegistered bs → Registered (board_of_type d t bs)
  unfolding board_of_type
  board_of_type-Registered t [] h = v7
  board_of_type-Registered t (a ∷ bs) (r, h) = elim (Bool-cases (equals_int d t a.pdm_type)) [
    | inl f ↦ rw f r
    | inr f ↦ rw f (board_of_type-Registered t bs h)
  ]

  board_by_type-Registered :
      (t : Option (Json W)) (b : Board) → board_by_type d t ≡ ok b → Registered b
  unfolding board_by_type
  board_by_type-Registered none b e = let z : dingopdm_v7 ≡ b = ground arith in rw (sym z) v7
  board_by_type-Registered (some (array xs)) b e = cc
  board_by_type-Registered (some (object fs)) b e = cc
  board_by_type-Registered (some t) b e =
      let z : board_of_type d t typed_boards ≡ b = ground arith in
      rw (sym z) (board_of_type-Registered t typed_boards (v7, (max_v1, (dpdm4_1, tt))))

  choose_board-Registered :
      (name : Option Name) (dev : Json W) (b : Board)
      → choose_board d name dev ≡ ok b
      → Registered b
  unfolding choose_board
  choose_board-Registered none dev b e =
      let (t, f, g) = >>=-eq-ok (get _ dev) _ e in board_by_type-Registered t b g
  choose_board-Registered (some []) dev b e =
      let (t, f, g) = >>=-eq-ok (get _ dev) _ e in board_by_type-Registered t b g
  choose_board-Registered (some (c ∷ name)) dev b e =
      board_named-Registered (c ∷ name) boards b (v7, (max_v1, (dpdm4_1, (canboard, tt)))) e

  length-slots_of :
      (p : Policy) (count : ℕ) (defaults : Slot W) (arr : List (Json W)) (slots : List (Slot W))
      → slots_of d p count defaults arr ≡ ok slots
      → length slots ≡ count
  unfolding slots_of
  length-slots_of p zero defaults arr slots e = ground arith
  length-slots_of p (suc count) defaults [] slots e =
      let (more, f, g) = >>=-eq-ok (slots_of d p count defaults []) _ e in
      let z : slots ≡ defaults ∷ more = ground arith in
      rw z (ap suc (length-slots_of p count defaults [] more f))
  length-slots_of p (suc count) defaults (x ∷ arr) slots e =
      let (item, more, f, g, same) = slots_of_cons d p count defaults x arr slots e in
      rw same (ap suc (length-slots_of p count defaults arr more g))

  length-load_group :
      (p : Policy) (dev : Json W) (b : Board) (g : Group) (slots : List (Slot W))
      → load_group d p dev b g ≡ ok slots
      → length slots ≡ limit g b
  unfolding load_group group_slots expand_slots
  length-load_group p dev b g slots e =
      let (v, e1, f1) = >>=-eq-ok (get _ dev) _ e in
      let (arr, e2, f2) = >>=-eq-ok (group_array d v) _ f1 in
      elim (Bool-cases (ltb (limit g b) (length arr))) [
        | inl t ↦ (let f3 = rw t at f2 in absurd (cc))
        | inr t ↦ (let f3 = rw t at f2 in length-slots_of p (limit g b) _ arr slots f3)
      ]

  pub load_groups_lem :
      (p : Policy) (dev : Json W) (b : Board) (gs : Groups W)
      → load_groups d p dev b ≡ ok gs
      → (g : Group) → load_group d p dev b g ≡ ok (slots_in gs g)
  unfolding load_groups
  load_groups_lem p dev b =
      let load = load_group d p dev b in
      let P : Groups W → Type 0 = λ gs. (g : Group) → load g ≡ ok (slots_in gs g) in
      IfOk-bind P (load outputs) _ λ g1 e1. IfOk-bind P (load inputs) _ λ g2 e2.
        IfOk-bind P (load can_inputs) _ λ g3 e3. IfOk-bind P (load can_outputs) _ λ g4 e4.
          IfOk-bind P (load virtual_inputs) _ λ g5 e5. IfOk-bind P (load conditions) _ λ g6 e6.
            IfOk-bind P (load counters) _ λ g7 e7. IfOk-bind P (load flashers) _ λ g8 e8.
              IfOk-ok P _ (
                per_group
                  (λ g.
                    load g
                    ≡ ok (
                        slots_in {W = W}
                          (record {
                            outputs = g1;
                            inputs = g2;
                            can_inputs = g3;
                            can_outputs = g4;
                            virtual_inputs = g5;
                            conditions = g6;
                            counters = g7;
                            flashers = g8;
                          })
                          g))
                  e1 e2 e3 e4 e5 e6 e7 e8)

  -- The parts of a load, in order.
  pub record Parts (p : Policy) (doc : Json W) (name : Option Name) (base_id : Option ℤ)
      (l : Loaded W) : Type 0 where
    pub devs : List (Json W)
    pub dev : Json W
    pub found : devices d doc ≡ ok devs
    pub chosen : choose_device d base_id devs ≡ ok dev
    pub board_eq : choose_board d name dev ≡ ok l.board
    pub groups_eq : load_groups d p dev l.board ≡ ok l.groups

  pub load_device-Parts :
      (p : Policy) (doc : Json W) (name : Option Name) (base_id : Option ℤ) (l : Loaded W)
      → load_device d p doc name base_id ≡ ok l
      → Parts p doc name base_id l
  unfolding load_device
  load_device-Parts p doc name base_id =
      let P : Loaded W → Type 0 = λ l. Parts p doc name base_id l in
      IfOk-bind P (devices d doc) _ λ devs e1.
        IfOk-bind P (choose_device d base_id devs) _ λ dev e2.
          IfOk-bind P (choose_board d name dev) _ λ b e3.
            IfOk-bind P (check_supported d unsupported_keys dev) _ λ u e4.
              IfOk-bind P (load_groups d p dev b) _ λ gs e5. IfOk-bind P (get _ dev) _ λ base e6.
                IfOk-ok P _ (record {
                  devs = devs;
                  dev = dev;
                  found = e1;
                  chosen = e2;
                  board_eq = e3;
                  groups_eq = e5;
                })

  -- A loaded config is of a registered board, and has as many slots of each group as the board.
  pub load_device-full :
      (p : Policy) (doc : Json W) (name : Option Name) (base_id : Option ℤ) (l : Loaded W)
      → load_device d p doc name base_id ≡ ok l
      → Registered l.board × ((g : Group) → length (slots_in l.groups g) ≡ limit g l.board)
  load_device-full p doc name base_id l e =
      let parts = load_device-Parts p doc name base_id l e in
      (
        choose_board-Registered name parts.dev l.board parts.board_eq,
        λ g.
            length-load_group p parts.dev l.board g _
              (load_groups_lem p parts.dev l.board l.groups parts.groups_eq g),
      )

  -- The parts of a load of which the device and the board are known.
  pub Parts-device :
      (p : Policy) (doc : Json W) (name : Option Name) (base_id : Option ℤ) (devs : List (Json W))
      (dev : Json W) (b : Board) (l : Loaded W)
      → devices d doc ≡ ok devs
      → choose_device d base_id devs ≡ ok dev
      → choose_board d name dev ≡ ok b
      → Parts p doc name base_id l
      → (l.board ≡ b) × (load_groups d p dev b ≡ ok l.groups)
  Parts-device p doc name base_id devs dev b l found chosen board k =
      let k_found = k.found in
      let k_chosen = k.chosen in
      let k_board = k.board_eq in
      let same_devs : k.devs ≡ devs = ground arith in
      let k_chosen' = rw same_devs at k_chosen in
      let same_dev : k.dev ≡ dev = ground (arith, k_chosen') in
      let k_board' = rw same_dev at k_board in
      let same_board : l.board ≡ b = ground (arith, k_board') in
      (same_board, rw (sym same_board) (rw (sym same_dev) k.groups_eq))
