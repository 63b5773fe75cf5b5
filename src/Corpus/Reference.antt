-- ===== src/Corpus/Reference.antt =====
-- The document of fwmodel/tools/mkreference.py, engine-repin-reference.json: the variables and the slots.
use dingo_cli.Prelude.{ℕ, ◌+◌, ◌*◌, true, List, [], ◌∷◌}
use dingo_cli.Enums.{bool_and, bool_or, edge_rising, edge_falling, op_ge}
use dingo_cli.Board.Names.{codes}
use dingo_cli.Corpus.{
  DigIn, Output, CanIn, CanOut, Virt, Cond, Count, Given, no_dig_in, no_virt, no_counter,
}

-- The var map of dingopdm_v7.
abbrev pub always_false : ℕ
always_false = 0

abbrev pub always_true : ℕ
always_true = 1

abbrev pub dig_in_base : ℕ
dig_in_base = 5

abbrev pub can_in_base : ℕ
can_in_base = 7

abbrev pub virt_in_base : ℕ
virt_in_base = 71

abbrev pub cond_base : ℕ
cond_base = 123

abbrev pub counter_base : ℕ
counter_base = 155

-- The named signals.
abbrev washer : ℕ
washer = can_in_base + 2 * 0

abbrev horn : ℕ
horn = can_in_base + 2 * 1

abbrev brake : ℕ
brake = can_in_base + 2 * 2

abbrev heater_sw : ℕ
heater_sw = dig_in_base + 0

abbrev park_brake_req : ℕ
park_brake_req = dig_in_base + 1

abbrev not_run : ℕ
not_run = virt_in_base + 0

abbrev chord : ℕ
chord = virt_in_base + 1

abbrev start_req : ℕ
start_req = virt_in_base + 2

abbrev armed : ℕ
armed = virt_in_base + 3

abbrev ign : ℕ
ign = virt_in_base + 4

abbrev washer_pump : ℕ
washer_pump = virt_in_base + 5

abbrev horn_gate : ℕ
horn_gate = virt_in_base + 6

abbrev heater_press : ℕ
heater_press = virt_in_base + 7

abbrev heater_req : ℕ
heater_req = virt_in_base + 8

abbrev park_lamp : ℕ
park_lamp = virt_in_base + 9

abbrev engine_run : ℕ
engine_run = cond_base + 0

abbrev cranked : ℕ
cranked = cond_base + 1

abbrev heater_latched : ℕ
heater_latched = cond_base + 2

abbrev switch : (name : List ℕ) → DigIn
switch name = record no_dig_in {
  name = name;
  enabled = true;
  invert = true;
  debounce = 20;
  pull = 1;
}

abbrev circuit : (name : List ℕ) (inp limit inrush inrush_ms reset_mode reset_ms : ℕ) → Output
circuit name inp limit inrush inrush_ms reset_mode reset_ms = record {
  name = name;
  enabled = true;
  inp = inp;
  limit = limit;
  inrush = inrush;
  inrush_ms = inrush_ms;
  reset_mode = reset_mode;
  reset_ms = reset_ms;
  reset_count = 5;
}

-- A bit of a frame, with a timeout of 500 ms.
abbrev pub bit_in : (name : List ℕ) (cid start : ℕ) → CanIn
bit_in name cid start = record {
  name = name;
  enabled = true;
  cid = cid;
  start = start;
  length = 1;
  op = 0;
  operand = 1;
  timeout_en = true;
  timeout = 500;
}

abbrev bit_out : (name : List ℕ) (inp cid start : ℕ) → CanOut
bit_out name inp cid start = record {
  name = name;
  enabled = true;
  inp = inp;
  cid = cid;
  start = start;
  length = 1;
  interval = 100;
}

abbrev both : (name : List ℕ) (var0 var1 : ℕ) → Virt
both name var0 var1 = record no_virt {
  name = name;
  enabled = true;
  var0 = var0;
  cond0 = bool_and;
  var1 = var1;
}

abbrev at_least_one : (name : List ℕ) (inp : ℕ) → Cond
at_least_one name inp = record { name = name; enabled = true; inp = inp; op = op_ge; arg = 1 }

abbrev latch : (name : List ℕ) → Count
latch name = record no_counter { name = name; enabled = true; lo = 0; hi = 1 }

unfoldable pub reference : Given
reference = record {
  dig_ins = switch (codes "HEATER_SW") ∷ switch (codes "PARK_BRAKE_REQ") ∷ [];
  outputs =
      circuit (codes "starter-solenoid") start_req 13 40 500 1 1000
      ∷ circuit (codes "coil-ballast-run") ign 10 20 300 1 1000
      ∷ circuit (codes "washer-pump") washer_pump 8 15 300 1 1000
      ∷ circuit (codes "alt-field+ecu") ign 8 15 300 1 1000
      ∷ circuit (codes "wiper") engine_run 8 40 1000 2 500
      ∷ circuit (codes "coil-direct-start") start_req 8 15 300 1 1000
      ∷ circuit (codes "horn") horn_gate 8 12 300 1 1000
      ∷ circuit (codes "canbus-12v") always_true 5 8 300 1 1000
      ∷ [];
  can_ins =
      bit_in (codes "washer(DI1)") 1602 32
      ∷ bit_in (codes "horn(DI8)") 1602 39
      ∷ bit_in (codes "brake(lights)") 768 0
      ∷ [];
  can_outs =
      bit_out (codes "ENGINE_RUNNING") engine_run 769 0
      ∷ bit_out (codes "HEATER_REQ") heater_req 769 1
      ∷ bit_out (codes "IC_PARK") park_lamp 1603 8
      ∷ bit_out (codes "dlc-pad") always_false 1603 24
      ∷ [];
  virts =
      record (both (codes "NOT_ENGINE_RUN") engine_run always_true) { not0 = true }
      ∷ both (codes "CHORD") brake washer
      ∷ both (codes "START_REQ") chord horn
      ∷ both (codes "ARMED") chord cranked
      ∷ record (both (codes "IGN") engine_run start_req) { cond0 = bool_or }
      ∷ record (both (codes "WASHER_PUMP") washer brake) {
        not1 = true;
        cond1 = bool_and;
        var2 = engine_run;
      }
      ∷ record (both (codes "HORN_GATE") horn chord) { not1 = true }
      ∷ both (codes "HEATER_PRESS") heater_sw engine_run
      ∷ both (codes "HEATER_REQ") heater_latched engine_run
      ∷ both (codes "PARK_BRAKE_LAMP") park_brake_req engine_run
      ∷ [];
  conds =
      at_least_one (codes "ENGINE_RUN") (counter_base + 0)
      ∷ at_least_one (codes "CRANKED") (counter_base + 1)
      ∷ at_least_one (codes "HEATER_LATCHED") (counter_base + 2)
      ∷ [];
  counters =
      record (latch (codes "run-latch")) {
        inc = armed;
        inc_edge = edge_falling;
        dec = chord;
        dec_edge = edge_rising;
      }
      ∷ record (latch (codes "crank-latch")) {
        inc = start_req;
        inc_edge = edge_rising;
        dec = chord;
        dec_edge = edge_falling;
      }
      ∷ record (latch (codes "heater-latch")) {
        inc = heater_press;
        inc_edge = edge_rising;
        reset = not_run;
        wrap = true;
      }
      ∷ [];
  flashers = [];
}
