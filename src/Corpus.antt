-- ===== src/Corpus.antt =====
-- The documents of fwmodel/tools/mkreference.py and mkadversarial.py: the arguments of the slots.
pub mod Document
pub mod Slots
pub mod Reads
pub mod Loads
pub mod Runs
pub mod Reference
pub mod Adversarial
pub mod Lowering
use dingo_cli.Prelude.{ℕ, zero, suc, Bool, true, false, List, [], ◌∷◌}
use dingo_cli.Enums.{bool_and, edge_rising, mode_momentary}
use dingo_cli.Board.Names.{Name}

-- The arguments of the builders. The
-- currents are whole numbers; `Sim` does not read them.
pub record DigIn : Type 0 where
  pub name : Name
  pub enabled : Bool
  pub invert : Bool
  pub mode : ℕ
  pub debounce : ℕ
  pub pull : ℕ

pub record Output : Type 0 where
  pub name : Name
  pub enabled : Bool
  pub inp : ℕ
  pub limit : ℕ
  pub inrush : ℕ
  pub inrush_ms : ℕ
  pub reset_mode : ℕ
  pub reset_ms : ℕ
  pub reset_count : ℕ

pub record CanIn : Type 0 where
  pub name : Name
  pub enabled : Bool
  pub cid : ℕ
  pub start : ℕ
  pub length : ℕ
  pub op : ℕ
  pub operand : ℕ
  pub timeout_en : Bool
  pub timeout : ℕ

pub record CanOut : Type 0 where
  pub name : Name
  pub enabled : Bool
  pub inp : ℕ
  pub cid : ℕ
  pub start : ℕ
  pub length : ℕ
  pub interval : ℕ

pub record Virt : Type 0 where
  pub name : Name
  pub enabled : Bool
  pub not0 : Bool
  pub var0 : ℕ
  pub cond0 : ℕ
  pub not1 : Bool
  pub var1 : ℕ
  pub cond1 : ℕ
  pub not2 : Bool
  pub var2 : ℕ
  pub mode : ℕ

pub record Cond : Type 0 where
  pub name : Name
  pub enabled : Bool
  pub inp : ℕ
  pub op : ℕ
  pub arg : ℕ

pub record Count : Type 0 where
  pub name : Name
  pub enabled : Bool
  pub inc : ℕ
  pub inc_edge : ℕ
  pub dec : ℕ
  pub dec_edge : ℕ
  pub reset : ℕ
  pub lo : ℕ
  pub hi : ℕ
  pub wrap : Bool
  pub hold : Bool
  pub hold_ms : ℕ

pub record Flash : Type 0 where
  pub name : Name
  pub enabled : Bool
  pub inp : ℕ
  pub on : ℕ
  pub off : ℕ

-- The defaults of the arguments: a slot that is not used.
abbrev pub no_dig_in : DigIn
no_dig_in = record {
  name = [];
  enabled = false;
  invert = false;
  mode = mode_momentary;
  debounce = 20;
  pull = 0;
}

abbrev pub no_output : Output
no_output = record {
  name = [];
  enabled = false;
  inp = 0;
  limit = 20;
  inrush = 50;
  inrush_ms = 1000;
  reset_mode = 0;
  reset_ms = 1000;
  reset_count = 3;
}

abbrev pub no_can_in : CanIn
no_can_in = record {
  name = [];
  enabled = false;
  cid = 0;
  start = 0;
  length = 1;
  op = 0;
  operand = 1;
  timeout_en = false;
  timeout = 500;
}

abbrev pub no_can_out : CanOut
no_can_out = record {
  name = [];
  enabled = false;
  inp = 0;
  cid = 0;
  start = 0;
  length = 1;
  interval = 100;
}

abbrev pub no_virt : Virt
no_virt = record {
  name = [];
  enabled = false;
  not0 = false;
  var0 = 0;
  cond0 = bool_and;
  not1 = false;
  var1 = 0;
  cond1 = bool_and;
  not2 = false;
  var2 = 0;
  mode = mode_momentary;
}

abbrev pub no_cond : Cond
no_cond = record { name = []; enabled = false; inp = 0; op = 0; arg = 0 }

abbrev pub no_counter : Count
no_counter = record {
  name = [];
  enabled = false;
  inc = 0;
  inc_edge = edge_rising;
  dec = 0;
  dec_edge = edge_rising;
  reset = 0;
  lo = 0;
  hi = 10;
  wrap = false;
  hold = false;
  hold_ms = 2000;
}

abbrev pub no_flasher : Flash
no_flasher = record { name = []; enabled = false; inp = 0; on = 500; off = 500 }

-- The slots that a document gives, those in front of each group.
pub record Given : Type 0 where
  pub dig_ins : List DigIn
  pub outputs : List Output
  pub can_ins : List CanIn
  pub can_outs : List CanOut
  pub virts : List Virt
  pub conds : List Cond
  pub counters : List Count
  pub flashers : List Flash

abbrev pub no_slots : Given
no_slots = record {
  dig_ins = [];
  outputs = [];
  can_ins = [];
  can_outs = [];
  virts = [];
  conds = [];
  counters = [];
  flashers = [];
}

-- The given slots, and unused ones up to `count`.
unfoldable pub padded : {A : Type 0} (count : ℕ) (unused : A) → List A → List A
padded zero unused slots = slots
padded (suc count) unused [] = unused ∷ padded count unused []
padded (suc count) unused (a ∷ slots) = a ∷ padded count unused slots
