-- ===== src/Model/Position.antt =====
-- The positions of a point's values, as struct MbTypes (include/modbus_model.h) numbers them. The
-- conditions of a coil stand where a register has its start bit and its number of bits.
use modbus_ssa_project.Prelude.{ℕ}

abbrev pub number : ℕ
number = 0

abbrev pub alarm : ℕ
alarm = 1

abbrev pub event : ℕ
event = 2

abbrev pub status : ℕ
status = 3

abbrev pub alarm_condition : ℕ
alarm_condition = 4

abbrev pub event_condition : ℕ
event_condition = 5

abbrev pub start_bits : ℕ
start_bits = 4

abbrev pub no_bits : ℕ
no_bits = 5

abbrev pub factor : ℕ
factor = 6

abbrev pub measurement : ℕ
measurement = 7

abbrev pub sign : ℕ
sign = 8

abbrev pub is_float_type : ℕ
is_float_type = 9

abbrev pub is_forward : ℕ
is_forward = 10

abbrev pub weight : ℕ
weight = 11

abbrev pub bias : ℕ
bias = 12

abbrev pub point : ℕ
point = 13

abbrev pub analytical_type : ℕ
analytical_type = 14

-- The places in a vector of TYPENUM.
abbrev pub co_pos : ℕ
co_pos = 0

abbrev pub di_pos : ℕ
di_pos = 1

abbrev pub hr_pos : ℕ
hr_pos = 2

abbrev pub ir_pos : ℕ
ir_pos = 3
