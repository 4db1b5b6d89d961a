-- ===== src/Libmodbus.antt =====
-- src/libmodbus.cpp: class Modbus, which makes requests with the tables of functions (back-ends) of
-- the modbus library. The library is a parameter.
pub mod Request
use modbus_ssa_project.Prelude.{
  ℕ, Bool, true, false, not, List, [], Option, none, some, if◌then◌else◌,
}
use modbus_ssa_project.Prelude.Int.{ℤ, pos, negsuc, ◌-ℤ◌, eq_ℤ}
use modbus_ssa_project.Prelude.Text.{Text, text, same}
use modbus_ssa_project.Session.Polling.{ModbusLibrary}

-- `_modbus_tcp_backend` and `_modbus_rtu_backend`.
pub data Backend : Type 0 where
  tcp : Backend
  rtu : Backend

-- What the wrapper uses of the library and of `malloc`.
pub record Library : Type 0 where
  -- A context can be allocated.
  pub malloc : Backend → Bool
  -- The slave that `_modbus_init_common` leaves.
  pub fresh_slave : ℤ
  -- `modbus_set_slave` of a context with this back-end: 0 or -1.
  pub set_slave : Backend → ℤ → ℤ
  -- `build_request_basis`: slave, function, address, number; the bytes of the request.
  pub build_request_basis : Backend → ℤ → ℕ → ℤ → ℤ → List ℕ
  -- `send_msg_pre`: what is added before the bytes are sent.
  pub send_msg_pre : Backend → List ℕ → List ℕ

-- `_mode`, `_slave` and `_ctx`, of which the back-end and the slave are used.
pub record Modbus : Type 0 where
  pub mode : Text
  pub slave : ℤ
  pub ctx : Option (Backend × ℤ)

abbrev pub new_modbus : Modbus
new_modbus = record { mode = []; slave = pos 0; ctx = none }

-- MODBUS_TCP_SLAVE
abbrev pub tcp_slave : ℤ
tcp_slave = pos 0xFF

abbrev pub bytes_or_none : Option (List ℕ) → List ℕ
bytes_or_none none = []
bytes_or_none (some bytes) = bytes

module _ (lib : Library) where
  -- tcpMode and rtuMode
  unfoldable pub tcp_mode : Option (Backend × ℤ)
  tcp_mode = if lib.malloc tcp then some (tcp, tcp_slave) else none

  unfoldable pub rtu_mode : Option (Backend × ℤ)
  rtu_mode = if lib.malloc rtu then some (rtu, lib.fresh_slave) else none

  -- init
  unfoldable pub init : Text → ℤ → Modbus → ℤ × Modbus
  unfolding tcp_mode rtu_mode
  init mode slave m =
      let ctx =
        if same mode (text "TCP")
        then tcp_mode
        else if same mode (text "RTU")
        then rtu_mode
        else m.ctx in
      elim ctx [
        | none ↦ (negsuc 0, record { mode = mode; slave = slave; ctx = none })
        | some (backend, old) ↦
            let ret = lib.set_slave backend slave in
            let set = if eq_ℤ ret (pos 0) then slave else old in
            (ret, record { mode = mode; slave = slave; ctx = some (backend, set) })
      ]

  -- A request of a function for an address and a number; `none` is a null context.
  unfoldable pub build : ℕ → ℤ → ℤ → Modbus → Option (List ℕ)
  build func_code addr nb m = elim m.ctx [
    | none ↦ none
    | some (backend, slave) ↦
        some (lib.send_msg_pre backend (lib.build_request_basis backend slave func_code addr nb))
  ]

  -- readBat
  unfoldable pub read_bat : ℤ → ℤ → ℕ → Modbus → Option (List ℕ)
  unfolding build
  read_bat addr nb func_code m = build func_code (addr -ℤ pos 1) nb m

  -- writeCo
  unfoldable pub write_co : ℤ → ℤ → Modbus → Option (List ℕ)
  unfolding build
  write_co num nb m = build 5 (num -ℤ pos 1) (if eq_ℤ nb (pos 0) then pos 0 else pos 0xFF00) m

  -- writeHr
  unfoldable pub write_hr : ℤ → ℤ → Modbus → Option (List ℕ)
  unfolding build
  write_hr num nb m = build 6 (num -ℤ pos 1) nb m

  -- What the sessions and the platform's operations use: a new object for each slave.
  unfoldable pub modbus_library : ModbusLibrary
  unfolding init read_bat write_co write_hr
  modbus_library = record {
    init_ok = λ mode slave. not (eq_ℤ (init mode slave new_modbus).0 (negsuc 0));
    read_bat = λ mode slave first count func_code.
        bytes_or_none (read_bat first count func_code (init mode slave new_modbus).1);
    write_co = λ mode slave num nb. bytes_or_none (write_co num nb (init mode slave new_modbus).1);
    write_hr = λ mode slave num nb. bytes_or_none (write_hr num nb (init mode slave new_modbus).1);
  }
