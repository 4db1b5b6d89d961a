-- ===== src/Session/Polling.antt =====
-- src/client_session.cpp: operator(), the round of requests that a session's timer thread makes. It
-- waits for the mutex between requests, so it is a step function over the place where it stands.
pub mod Lock
pub mod Handlers
pub mod History
pub mod Registering
pub mod Still
pub mod Stall
pub mod Complete
pub mod Address
use modbus_ssa_project.Prelude.{
  ℕ, ◌+◌, Bool, true, false, not, ◌&&◌, List, [], ◌∷◌, none, some, if◌then◌else◌, ◌==◌, get_elem?,
}
use modbus_ssa_project.Prelude.Int.{ℤ, eq_ℤ}
use modbus_ssa_project.Prelude.Text.{Text, text, empty, atoi, to_string, before}
use modbus_ssa_project.Prelude.Map.{text_key, get}
use modbus_ssa_project.Model.{RangeMap, DeviceTable, new_mbdevices}
use modbus_ssa_project.Model.Devices.{clear}
use modbus_ssa_project.Session.Machine.{Machine, sets_slave_timer, act, on_cs, write}

-- What class Modbus (src/libmodbus.cpp) makes of the modbus library: whether a context for a mode
-- and slave can be set up, and the bytes of a request.
pub record ModbusLibrary : Type 0 where
  pub init_ok : Text → ℤ → Bool
  -- slave and mode, first address, number, function code
  pub read_bat : Text → ℤ → ℤ → ℤ → ℕ → List ℕ
  -- slave and mode, address, value
  pub write_co : Text → ℤ → ℤ → ℤ → List ℕ
  pub write_hr : Text → ℤ → ℤ → ℤ → List ℕ

-- The device that is polled, and the mode and address of its slave.
pub record Polled : Type 0 where
  pub type : Text
  pub mode : Text
  pub slave : ℤ

-- Where the thread stands: before a device; behind one, of which it seeks the next; before a register
-- kind of a device; before the ranges of a kind that are left, with the vector of range maps that its
-- reference points into; or at the end of the round.
pub data Place : Type 0 where
  at_device : Text → Place
  at_next : Text → Place
  at_kind : Text → Polled → ℕ → Place
  at_range : Text → Polled → ℕ → List RangeMap → RangeMap → Place
  at_end : Place

-- A step. `blocked`: another thread holds the mutex. `undefined`: the type has no range maps.
-- `changed`: the vector that the thread walks through by reference is not what it was, so it may have
-- been moved, which is undefined too.
pub data Outcome : Type 0 where
  goes : Place → Machine → Outcome
  blocked : Outcome
  changed : Outcome
  undefined : Outcome

unfoldable pub same_ranges : RangeMap → RangeMap → Bool
same_ranges [] [] = true
same_ranges ((a, b) ∷ xs) ((c, d) ∷ ys) = eq_ℤ a c && (eq_ℤ b d && same_ranges xs ys)
same_ranges _ _ = false

unfoldable pub same_vector : List RangeMap → List RangeMap → Bool
unfolding same_ranges
same_vector [] [] = true
same_vector (x ∷ xs) (y ∷ ys) = same_ranges x y && same_vector xs ys
same_vector _ _ = false

-- The device that comes next in the order of the keys, if there is one, in the map as it is now.
unfoldable pub next_device : Text → DeviceTable → Place
next_device sid [] = at_end
next_device sid ((key, d) ∷ devices) =
    let later = next_device sid devices in if before sid key then at_device key else later

-- The first device.
unfoldable pub first_device : DeviceTable → Place
first_device [] = at_end
first_device ((key, d) ∷ devices) = at_device key

module _ (mb : ModbusLibrary) where
  -- The beginning of a device.
  unfoldable pub begin_device : Text → Machine → Outcome
  unfolding on_cs act
  begin_device sid m =
      let fresh = act sets_slave_timer (on_cs (λ c. record c { flag = 0 }) m) in
      let device = get new_mbdevices sid (clear sid (m.cs).mbdevices) in
      let slave = atoi device.slave in
      let mode = if empty device.addr then text "RTU" else text "TCP" in
      let current =
        on_cs
          (λ c. record c {
            mbdevices = clear sid c.mbdevices;
            current_sid = sid;
            current_type = device.type;
          })
          fresh in
      if (m.cs).is_close
      then goes at_end m
      else if empty device.slave
      then goes (at_next sid) current
      else if mb.init_ok mode slave
      then goes (at_kind sid (record { type = device.type; mode = mode; slave = slave }) 0) current
      else goes (at_next sid) current

  -- A request for a range, made with the mutex held.
  unfoldable pub request : Text → Polled → ℕ → List RangeMap → ℤ → ℤ → RangeMap → Machine → Outcome
  unfolding on_cs write same_vector
  request sid d kind vector first count ranges m =
      let locked = on_cs (λ c. record c { locked = true }) m in
      let req = mb.read_bat d.mode d.slave first count (kind + 1) in
      let numbered = on_cs (λ c. record c { current_num = to_string first }) locked in
      if (m.cs).flag == 1
      then goes (at_kind sid d (kind + 1)) m
      else if not (same_vector vector (get [] d.type ((m.cs).mbtypes).typenum))
      then changed
      else if (m.cs).is_close
      then goes at_end numbered
      else goes (at_range sid d kind vector ranges) (write req numbered)

  unfoldable pub poll_step : Place → Machine → Outcome
  unfolding begin_device request next_device
  poll_step (at_device sid) m = if (m.cs).locked then blocked else begin_device sid m
  poll_step (at_next sid) m = goes (next_device sid (m.cs).mbdevices) m
  poll_step (at_kind sid d kind) m =
      if kind == 4
      then goes (at_next sid) m
      else elim (get_elem? (get [] d.type ((m.cs).mbtypes).typenum) kind) [
        | none ↦ undefined
        | some ranges ↦ goes (at_range sid d kind (get [] d.type ((m.cs).mbtypes).typenum) ranges) m
      ]
  poll_step (at_range sid d kind vector []) m = goes (at_kind sid d (kind + 1)) m
  poll_step (at_range sid d kind vector ((first, count) ∷ ranges)) m =
      if (m.cs).locked then blocked else request sid d kind vector first count ranges m
  poll_step at_end m = goes at_end m
