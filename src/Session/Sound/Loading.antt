-- ===== src/Session/Sound/Loading.antt =====
-- The child devices and models of the platform (src/c8y.cpp) leave a session sound.
use modbus_ssa_project.Prelude.{List, [], ◌∷◌, ◌++◌, if◌then◌else◌, if-intro}
use modbus_ssa_project.Prelude.Text.{Text, text, same}
use modbus_ssa_project.Prelude.Map.{text_key, get, modify, assign}
use modbus_ssa_project.Model.{SrRecord, Floats, MbTypeTable, MbDevices, DeviceTable, new_mbdevices}
use modbus_ssa_project.Model.Devices.{add_device}
use modbus_ssa_project.Model.Dispatch.{Handled, handled, bad_call, undefined, handle_all}
use modbus_ssa_project.Model.WellFormed.{IsWellFormed, Yields}
use modbus_ssa_project.Model.Safety.{add_device-IsWellFormed}
use modbus_ssa_project.Platform.{Platform}
use modbus_ssa_project.C8y.Load.{get_model, add_devices, add_children, get_child_devices}
use modbus_ssa_project.Session.Record.{Session}
use modbus_ssa_project.Session.Sound.{IsSound, IsServed-Grows, Kept, Kept-trans}
use modbus_ssa_project.Session.Sound.Types.{
  TablesKeep, handle_all-Keeps, add_device-Grows, add_device-IsServed,
}

module _ (pf : Platform) (fl : Floats) where
  open pf use {World}

  get_model-Keeps :
      (type : Text) (s : MbTypeTable) (w : World)
      → IsWellFormed s
      → Yields (TablesKeep s) (get_model pf fl type s w).0
  unfolding get_model
  get_model-Keeps type s w h =
      answered (handle_all fl (pf.response asked) s) (handle_all-Keeps fl (pf.response asked) s h)
    where
      asked : World
      asked = (pf.post (text "309," ++ type) (pf.clear w)).1

      answered :
          (o : Handled MbTypeTable)
          → Yields (TablesKeep s) o
          → Yields (TablesKeep s) (
              (elim o as (λ _. Handled MbTypeTable × World) [
                | handled s' ↦ (handled s', pf.clear asked)
                | bad_call s' ↦ (bad_call s', asked)
                | undefined ↦ (undefined, asked)
              ]).0)
      answered (handled s') v = v
      answered (bad_call s') v = v
      answered undefined v = tt

  -- One device, whether its model can be read or not.
  pub add_devices-Kept :
      (r : SrRecord) (cs : Session) (w : World)
      → IsSound cs
      → Yields (Kept cs) (add_devices pf fl r cs w).0
  unfolding add_devices
  add_devices-Kept r cs w h =
      filled (get_model pf fl device.type added.1 w) (get_model-Keeps device.type added.1 w tabled)
    where
      added : DeviceTable × MbTypeTable
      added = add_device r (cs.mbdevices, cs.mbtypes)

      device : MbDevices
      device = get new_mbdevices (r.value 4) added.0

      tabled : IsWellFormed added.1
      tabled = add_device-IsWellFormed r cs.mbdevices cs.mbtypes h.tables

      with_types : MbTypeTable → Session
      with_types s = record cs { mbdevices = added.0; mbtypes = s }

      placed : Session → Session
      placed c =
          if same (r.value 2) (text "TCP")
          then record c { tcp_slave_to_sid = assign device.slave (r.value 4) c.tcp_slave_to_sid }
          else record c {
            rtu_slave_to_sid =
                modify [] device.slave (λ sids. sids ++ r.value 4 ∷ []) c.rtu_slave_to_sid;
          }

      sound : (s : MbTypeTable) → TablesKeep added.1 s → Kept cs (with_types s)
      sound s v = (
        record {
          tables = v.0;
          devices =
              IsServed-Grows (added.1).typenum s.typenum added.0 v.1
                (add_device-IsServed r cs.mbdevices cs.mbtypes h.devices);
        },
        λ k known. v.1 k (add_device-Grows r cs.mbdevices cs.mbtypes k known),
      )

      filled :
          (x : Handled MbTypeTable × World)
          → Yields (TablesKeep added.1) x.0
          → Yields (Kept cs) (
              (elim x.0 as (λ _. Handled Session × World) [
                | handled s ↦ (handled (placed (with_types s)), x.1)
                | bad_call s ↦ (bad_call (with_types s), x.1)
                | undefined ↦ (undefined, x.1)
              ]).0)
      filled (handled s, w') v =
          if-intro (Kept cs) (same (r.value 2) (text "TCP")) _ _
            (
              record { tables = ((sound s v).0).tables; devices = ((sound s v).0).devices },
              (sound s v).1,
            )
            (
              record { tables = ((sound s v).0).tables; devices = ((sound s v).0).devices },
              (sound s v).1,
            )
      filled (bad_call s, w') v = sound s v
      filled (undefined, w') v = tt

  Yields-Kept :
      (a b : Session) (o : Handled Session) → Kept a b → Yields (Kept b) o → Yields (Kept a) o
  Yields-Kept a b (handled c) h k = Kept-trans a b c h k
  Yields-Kept a b (bad_call c) h k = Kept-trans a b c h k
  Yields-Kept a b undefined h k = tt

  add_children-Kept :
      (rs : List SrRecord) (cs : Session) (w : World)
      → IsSound cs
      → Yields (Kept cs) (add_children pf fl rs cs w).0
  unfolding add_children
  add_children-Kept [] cs w h = (h, λ k known. known)
  add_children-Kept (r ∷ rs) cs w h =
      next (add_devices pf fl r cs w) (add_devices-Kept r cs w h)
        (λ cs' w' s. add_children-Kept rs cs' w' s)
    where
      next :
          (x : Handled Session × World)
          → Yields (Kept cs) x.0
          → ((cs' : Session) (w' : World)
              → IsSound cs'
              → Yields (Kept cs') (add_children pf fl rs cs' w').0)
          → Yields (Kept cs) (
              (elim x.0 as (λ _. Handled Session × World) [
                | handled cs' ↦ add_children pf fl rs cs' x.1
                | bad_call cs' ↦ (bad_call cs', x.1)
                | undefined ↦ (undefined, x.1)
              ]).0)
      next (handled cs', w') v rest =
          Yields-Kept cs cs' (add_children pf fl rs cs' w').0 v (rest cs' w' v.0)
      next (bad_call cs', w') v rest = v
      next (undefined, w') v rest = tt

  -- The child devices that the platform names, with their models, leave the session sound, with every
  -- type that it has had; also where a message throws.
  pub get_child_devices-Kept :
      (sid : Text) (cs : Session) (w : World)
      → IsSound cs
      → Yields (Kept cs) (get_child_devices pf fl sid cs w).0
  unfolding get_child_devices
  get_child_devices-Kept sid cs w h = add_children-Kept _ cs _ h
