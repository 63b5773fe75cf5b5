-- ===== src/Enums.antt =====
-- The enumerations of core/enums.h, as the constants of fwmodel/model/dingosim.py.
use dingo_cli.Prelude.{ℕ}

abbrev pub cycle_ms : ℕ
cycle_ms = 2

abbrev pub op_eq : ℕ
op_eq = 0

abbrev pub op_ne : ℕ
op_ne = 1

abbrev pub op_gt : ℕ
op_gt = 2

abbrev pub op_lt : ℕ
op_lt = 3

abbrev pub op_ge : ℕ
op_ge = 4

abbrev pub op_le : ℕ
op_le = 5

abbrev pub op_bitand : ℕ
op_bitand = 6

abbrev pub op_bitnand : ℕ
op_bitnand = 7

abbrev pub bool_and : ℕ
bool_and = 0

abbrev pub bool_or : ℕ
bool_or = 1

-- Called Nor, and it is NAND.
abbrev pub bool_nor : ℕ
bool_nor = 2

abbrev pub edge_rising : ℕ
edge_rising = 0

abbrev pub edge_falling : ℕ
edge_falling = 1

abbrev pub edge_both : ℕ
edge_both = 2

abbrev pub mode_momentary : ℕ
mode_momentary = 0

abbrev pub mode_latching : ℕ
mode_latching = 1

abbrev pub byteorder_le : ℕ
byteorder_le = 0

abbrev pub byteorder_be : ℕ
byteorder_be = 1
