-- ===== src/C8y/Load.antt =====
-- src/c8y.cpp: the models and child devices of a session.
pub mod Mutex
use modbus_ssa_project.Prelude.{List, [], ◌∷◌, ◌++◌, if◌then◌else◌}
use modbus_ssa_project.Prelude.Text.{Text, text, same}
use modbus_ssa_project.Prelude.Map.{text_key, get, modify, assign}
use modbus_ssa_project.Model.{SrRecord, Floats, MbTypeTable, new_mbdevices}
use modbus_ssa_project.Model.Devices.{add_device}
use modbus_ssa_project.Model.Dispatch.{Handled, handled, bad_call, undefined, handle_all}
use modbus_ssa_project.Platform.{Platform}
use modbus_ssa_project.Session.Record.{Session}

module _ (pf : Platform) (fl : Floats) where
  open pf use {World, post, response, clear}

  -- getModel. An exception leaves the answer uncleared.
  unfoldable pub get_model : Text → MbTypeTable → World → Handled MbTypeTable × World
  get_model type s w =
      let asked = (post (text "309," ++ type) (clear w)).1 in
      elim (handle_all fl (response asked) s) [
        | handled s' ↦ (handled s', clear asked)
        | bad_call s' ↦ (bad_call s', asked)
        | undefined ↦ (undefined, asked)
      ]

  -- addDevices: one device, its model, and its place under its slave address.
  unfoldable pub add_devices : SrRecord → Session → World → Handled Session × World
  unfolding get_model
  add_devices r cs w =
      let sid = r.value 4 in
      let added = add_device r (cs.mbdevices, cs.mbtypes) in
      let device = get new_mbdevices sid added.0 in
      let with_types = λ (s : MbTypeTable). record cs { mbdevices = added.0; mbtypes = s } in
      let slave = device.slave in
      let placed = λ (c : Session).
        if same (r.value 2) (text "TCP")
        then record c { tcp_slave_to_sid = assign slave sid c.tcp_slave_to_sid }
        else record c {
          rtu_slave_to_sid = modify [] slave (λ sids. sids ++ sid ∷ []) c.rtu_slave_to_sid;
        } in
      let (model, w') = get_model device.type added.1 w in
      elim model [
        | handled s ↦ (handled (placed (with_types s)), w')
        | bad_call s ↦ (bad_call (with_types s), w')
        | undefined ↦ (undefined, w')
      ]

  unfoldable pub add_children : List SrRecord → Session → World → Handled Session × World
  unfolding add_devices
  add_children [] cs w = (handled cs, clear w)
  add_children (r ∷ rs) cs w =
      let (one, w') = add_devices r cs w in
      elim one [
        | handled cs' ↦ add_children rs cs' w'
        | bad_call cs' ↦ (bad_call cs', w')
        | undefined ↦ (undefined, w')
      ]

  -- getChildDevices
  unfoldable pub get_child_devices : Text → Session → World → Handled Session × World
  unfolding add_children
  get_child_devices sid cs w =
      let asked = (post (text "323," ++ sid) (clear w)).1 in add_children (response asked) cs asked
