-- ===== src/C8y/Load/Mutex.antt =====
-- The child devices and models of the platform (src/c8y.cpp) leave the mutex of the session as it is.
use modbus_ssa_project.Prelude.{List, [], ◌∷◌, ◌++◌, if◌then◌else◌, ◌≡◌, refl, ◌∙◌, if-intro}
use modbus_ssa_project.Prelude.Text.{Text, text, same}
use modbus_ssa_project.Prelude.Map.{text_key, get, modify, assign}
use modbus_ssa_project.Model.{SrRecord, Floats, MbTypeTable, MbDevices, DeviceTable, new_mbdevices}
use modbus_ssa_project.Model.Devices.{add_device}
use modbus_ssa_project.Model.Dispatch.{Handled, handled, bad_call, undefined}
use modbus_ssa_project.Model.WellFormed.{Yields}
use modbus_ssa_project.Platform.{Platform}
use modbus_ssa_project.C8y.Load.{get_model, add_devices, add_children, get_child_devices}
use modbus_ssa_project.Session.Record.{Session}

-- The mutex as it was.
abbrev pub SameLock : Session → Session → Type 0
SameLock cs cs' = cs'.locked ≡ cs.locked

module _ (pf : Platform) (fl : Floats) where
  open pf use {World}

  pub add_devices-SameLock :
      (r : SrRecord) (cs : Session) (w : World) → Yields (SameLock cs) (add_devices pf fl r cs w).0
  unfolding add_devices
  add_devices-SameLock r cs w = filled (get_model pf fl device.type added.1 w)
    where
      added : DeviceTable × MbTypeTable
      added = add_device r (cs.mbdevices, cs.mbtypes)

      device : MbDevices
      device = get new_mbdevices (r.value 4) added.0

      with_types : MbTypeTable → Session
      with_types s = record cs { mbdevices = added.0; mbtypes = s }

      placed : Session → Session
      placed c =
          if same (r.value 2) (text "TCP")
          then record c { tcp_slave_to_sid = assign device.slave (r.value 4) c.tcp_slave_to_sid }
          else record c {
            rtu_slave_to_sid =
                modify [] device.slave (λ sids. sids ++ r.value 4 ∷ []) c.rtu_slave_to_sid;
          }

      filled :
          (x : Handled MbTypeTable × World)
          → Yields (SameLock cs) (
              (elim x.0 as (λ _. Handled Session × World) [
                | handled s ↦ (handled (placed (with_types s)), x.1)
                | bad_call s ↦ (bad_call (with_types s), x.1)
                | undefined ↦ (undefined, x.1)
              ]).0)
      filled (handled s, w') = if-intro (SameLock cs) (same (r.value 2) (text "TCP")) _ _ refl refl
      filled (bad_call s, w') = refl
      filled (undefined, w') = tt

  add_children-SameLock :
      (rs : List SrRecord) (cs : Session) (w : World)
      → Yields (SameLock cs) (add_children pf fl rs cs w).0
  unfolding add_children
  add_children-SameLock [] cs w = refl
  add_children-SameLock (r ∷ rs) cs w =
      next (add_devices pf fl r cs w) (add_devices-SameLock r cs w)
        (λ cs' w'. add_children-SameLock rs cs' w')
    where
      after :
          (cs' : Session) (o : Handled Session)
          → SameLock cs cs'
          → Yields (SameLock cs') o
          → Yields (SameLock cs) o
      after cs' (handled c) h k = k ∙ h
      after cs' (bad_call c) h k = k ∙ h
      after cs' undefined h k = tt

      next :
          (x : Handled Session × World)
          → Yields (SameLock cs) x.0
          → ((cs' : Session) (w' : World) → Yields (SameLock cs') (add_children pf fl rs cs' w').0)
          → Yields (SameLock cs) (
              (elim x.0 as (λ _. Handled Session × World) [
                | handled cs' ↦ add_children pf fl rs cs' x.1
                | bad_call cs' ↦ (bad_call cs', x.1)
                | undefined ↦ (undefined, x.1)
              ]).0)
      next (handled cs', w') h rest = after cs' (add_children pf fl rs cs' w').0 h (rest cs' w')
      next (bad_call cs', w') h rest = h
      next (undefined, w') h rest = tt

  pub get_child_devices-SameLock :
      (sid : Text) (cs : Session) (w : World)
      → Yields (SameLock cs) (get_child_devices pf fl sid cs w).0
  unfolding get_child_devices
  get_child_devices-SameLock sid cs w = add_children-SameLock _ cs _
