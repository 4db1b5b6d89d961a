-- ===== src/Model.antt =====
-- include/modbus_model.h: the point tables of the device types (MBTYPES) and the child devices
-- (MBDEVICES), and the records of the platform from which src/modbus_model.cpp fills them.
pub mod Position
pub mod Ranges
pub mod Types
pub mod Devices
pub mod Dispatch
pub mod WellFormed
pub mod Rows
pub mod Safety
pub mod Defined
use modbus_ssa_project.Prelude.{ℕ, List, [], Bool, get_or}
use modbus_ssa_project.Prelude.Int.{ℤ}
use modbus_ssa_project.Prelude.Text.{Text}
use modbus_ssa_project.Prelude.Map.{Map}

-- A line of a SmartREST answer, as the agent library hands it over: its number of values, and
-- the values. `value(0)` is the id of the message.
pub record SrRecord : Type 0 where
  pub size : ℕ
  pub value : ℕ → Text

-- `double` and what the source does with it.
pub record Floats : Type 1 where
  pub Double : Type 0
  pub of_int : ℤ → Double
  pub add : Double → Double → Double
  pub mul : Double → Double → Double
  pub div : Double → Double → Double
  -- The number `n * 2^-150`, or its negative.
  pub of_dyadic : Bool → ℕ → Double
  pub pow_ten : ℤ → Double
  pub atof : Text → Double
  pub print : Double → Text
  pub print_fixed : Double → ℤ → Text
  -- `d > 0.000001`
  pub positive : Double → Bool

-- A point: `vector<string>`, read at the positions of Model/Position.antt.
abbrev pub Row : Type 0
Row = List Text

abbrev pub field : Row → ℕ → Text
field v i = get_or v i []

-- struct MbTypes. The positions never change, and are constants.
pub record MbTypes : Type 0 where
  pub co : List Row
  pub di : List Row
  pub hr : List Row
  pub ir : List Row
  pub is_server_time : Text

abbrev pub new_mbtypes : MbTypes
new_mbtypes = record { co = []; di = []; hr = []; ir = []; is_server_time = [] }

-- Ranges of addresses that are polled together: first address, number of addresses.
abbrev pub RangeMap : Type 0
RangeMap = Map ℤ ℤ

-- class MBTYPES: `_m`, `TYPENUM` and `_current_type`.
pub record MbTypeTable : Type 0 where
  pub types : Map Text MbTypes
  pub typenum : Map Text (List RangeMap)
  pub current_type : Text

-- Message id to the values that follow it.
abbrev pub MsgMap : Type 0
MsgMap = Map Text (List Text)

-- struct MbDevices.
pub record MbDevices : Type 0 where
  pub template_msg : MsgMap
  pub forward_msg : MsgMap
  pub co : MsgMap
  pub di : MsgMap
  pub hr : MsgMap
  pub ir : MsgMap
  pub name : Text
  pub addr : Text
  pub slave : Text
  pub type : Text
  pub ops_id : Text
  pub co_num : ℕ
  pub di_num : ℕ
  pub hr_num : ℕ
  pub ir_num : ℕ

abbrev pub new_mbdevices : MbDevices
new_mbdevices = record {
  template_msg = [];
  forward_msg = [];
  co = [];
  di = [];
  hr = [];
  ir = [];
  name = [];
  addr = [];
  slave = [];
  type = [];
  ops_id = [];
  co_num = 0;
  di_num = 0;
  hr_num = 0;
  ir_num = 0;
}

-- `_m` of class MBDEVICES.
abbrev pub DeviceTable : Type 0
DeviceTable = Map Text MbDevices
