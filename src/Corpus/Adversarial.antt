-- ===== src/Corpus/Adversarial.antt =====
-- The pairs of configs of fwmodel/tools/mkadversarial.py.
use dingo_cli.Prelude.{ℕ, ◌+◌, true, false, List, [], ◌∷◌}
use dingo_cli.Enums.{bool_and, bool_or, bool_nor, op_ge, mode_latching}
use dingo_cli.Board.Names.{codes}
use dingo_cli.Corpus.{Output, CanIn, Virt, Count, Given, no_slots, no_output, no_virt, no_counter}
use dingo_cli.Corpus.Reference.{always_true, virt_in_base, cond_base, counter_base, bit_in}

-- The switches A, B and C, in byte 4 of frame 0x642.
abbrev pub a_in : ℕ
a_in = 7

abbrev pub b_in : ℕ
b_in = 9

abbrev pub c_in : ℕ
c_in = 11

abbrev pub switches : List CanIn
switches = bit_in (codes "A") 1602 32 ∷ bit_in (codes "B") 1602 33 ∷ bit_in (codes "C") 1602 34 ∷ []

abbrev pub lamp : (name : List ℕ) (inp : ℕ) → Output
lamp name inp = record no_output { name = name; enabled = true; inp = inp }

abbrev pub logic : (name : List ℕ) (var0 cond0 var1 : ℕ) → Virt
logic name var0 cond0 var1 = record no_virt {
  name = name;
  enabled = true;
  var0 = var0;
  cond0 = cond0;
  var1 = var1;
}

-- Three switches, some virtual inputs, and a lamp.
abbrev pub logic_case : List Virt → (inp : ℕ) → Given
logic_case virts inp = record no_slots {
  can_ins = switches;
  virts = virts;
  outputs = lamp (codes "lamp") inp ∷ [];
}

abbrev pub nand_of_all : Virt
nand_of_all = record (logic (codes "OUT") a_in bool_and b_in) { cond1 = bool_nor; var2 = c_in }

unfoldable pub a1_wrong : Given
a1_wrong = logic_case (nand_of_all ∷ []) (virt_in_base + 0)

abbrev pub then_c : Virt
then_c = logic (codes "OUT") (virt_in_base + 0) bool_and c_in

abbrev pub not_ab : Virt
not_ab = logic (codes "NOT_AB") a_in bool_nor b_in

abbrev pub not_a_or_not_b : Virt
not_a_or_not_b = record (logic (codes "NOT_A_OR_NOT_B") a_in bool_or b_in) {
  not0 = true;
  not1 = true;
}

unfoldable pub a1_right : Given
a1_right = logic_case (not_ab ∷ then_c ∷ []) (virt_in_base + 1)

unfoldable pub a1_reference : Given
a1_reference = logic_case (not_a_or_not_b ∷ then_c ∷ []) (virt_in_base + 1)

unfoldable pub a3_right : Given
a3_right =
    logic_case
      (logic (codes "AB") a_in bool_and b_in
        ∷ logic (codes "ABC") (virt_in_base + 0) bool_and c_in
        ∷ [])
      (virt_in_base + 1)

unfoldable pub a3_wrong : Given
a3_wrong =
    logic_case
      (logic (codes "ABC") (virt_in_base + 1) bool_and c_in
        ∷ logic (codes "AB") a_in bool_and b_in
        ∷ [])
      (virt_in_base + 0)

-- A counter from 0 to 1, behind a condition, and a lamp.
abbrev latch_case : Count → Given
latch_case counter = record no_slots {
  can_ins = switches;
  counters = counter ∷ [];
  conds =
      record { name = codes "LATCHED"; enabled = true; inp = counter_base + 0; op = op_ge; arg = 1 }
      ∷ [];
  outputs = lamp (codes "lamp") (cond_base + 0) ∷ [];
}

unfoldable pub a4_counter : Given
a4_counter = latch_case (record no_counter {
  name = codes "latch";
  enabled = true;
  inc = a_in;
  dec = b_in;
  lo = 0;
  hi = 1;
  wrap = false;
})

unfoldable pub a4_wrap : Given
a4_wrap = latch_case (record no_counter {
  name = codes "toggle";
  enabled = true;
  inc = a_in;
  lo = 0;
  hi = 1;
  wrap = true;
})

unfoldable pub a4_vi_mode : Given
a4_vi_mode =
    logic_case
      (record (logic (codes "TOGGLE") a_in bool_and always_true) { mode = mode_latching } ∷ [])
      (virt_in_base + 0)

abbrev bounded : (name : List ℕ) → Count
bounded name = record no_counter {
  name = name;
  enabled = true;
  inc = a_in;
  dec = b_in;
  lo = 3;
  hi = 5;
}

unfoldable pub a5_bounds : Given
a5_bounds = record no_slots {
  can_ins = switches;
  counters =
      bounded (codes "min3max5") ∷ record (bounded (codes "wrap-min3max5")) { wrap = true } ∷ [];
  conds =
      record { name = codes "c1ge3"; enabled = true; inp = counter_base + 0; op = op_ge; arg = 3 }
      ∷ record { name = codes "c2ge3"; enabled = true; inp = counter_base + 1; op = op_ge; arg = 3 }
      ∷ [];
  outputs = lamp (codes "lamp1") (cond_base + 0) ∷ lamp (codes "lamp2") (cond_base + 1) ∷ [];
}
