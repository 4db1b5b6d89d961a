-- ===== src/Session/Record.antt =====
-- The members of class ClientSession (include/client_session.h), with those of its ModbusP and its
-- Timer. Pointers to other objects are not among them.
use modbus_ssa_project.Prelude.{ℕ, ◌*◌, List, [], Bool, false}
use modbus_ssa_project.Prelude.Int.{ℤ, pos}
use modbus_ssa_project.Prelude.Text.{Text}
use modbus_ssa_project.Prelude.Map.{Map}
use modbus_ssa_project.Model.{MbTypeTable, DeviceTable}

pub record Session : Type 0 where
  pub did : Text
  pub sid : Text
  pub timer_interval : ℤ
  pub timer_active : Bool
  pub mbtypes : MbTypeTable
  pub mbdevices : DeviceTable
  pub tcp_slave_to_sid : Map Text Text
  pub rtu_slave_to_sid : Map Text (List Text)
  pub current_num : Text
  pub current_type : Text
  pub current_sid : Text
  pub msg : Text
  pub forward_msg : Text
  pub buffer : List ℕ
  -- `_data_pos - _data`
  pub len : ℕ
  pub tcp_flag : Bool
  pub polling_rate : ℤ
  pub rece_heart_beat : Bool
  pub is_close : Bool
  pub count : ℕ
  pub flag : ℕ
  pub is_disconnect : Bool
  -- `_mutex` is held.
  pub locked : Bool
  pub sock_open : Bool

-- The constructor; the buffer is what the memory holds.
unfoldable pub new_session : List ℕ → Session
new_session memory = record {
  did = [];
  sid = [];
  timer_interval = pos (5 * 1000);
  timer_active = false;
  mbtypes = record { types = []; typenum = []; current_type = [] };
  mbdevices = [];
  tcp_slave_to_sid = [];
  rtu_slave_to_sid = [];
  current_num = [];
  current_type = [];
  current_sid = [];
  msg = [];
  forward_msg = [];
  buffer = memory;
  len = 0;
  tcp_flag = false;
  polling_rate = pos 5;
  rece_heart_beat = false;
  is_close = false;
  count = 0;
  flag = 0;
  is_disconnect = false;
  locked = false;
  sock_open = false;
}
