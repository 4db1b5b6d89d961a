-- ===== src/Session/Sound/Thread.antt =====
-- The polling thread of a sound session (operator() of src/client_session.cpp) reads no vector out of
-- its range.
use mathlib.Core.Path.{subst}
use modbus_ssa_project.Prelude.{
  ℕ, ◌+◌, ◌≤◌, ◌<◌, ◌==◌, Bool, true, not, List, [], ◌∷◌, ◌≡◌, ◌≢◌, refl, if◌then◌else◌, if-intro,
  Bool-cases, inl, inr, arith,
}
use modbus_ssa_project.Prelude.Text.{Text, text, empty, atoi, to_string, before}
use modbus_ssa_project.Prelude.Int.{ℤ}
use modbus_ssa_project.Prelude.Map.{
  Map, text_key, get, contains, AllValues, modify-AllValues, get-AllValues,
  get-AllValues_of_contains,
}
use modbus_ssa_project.Model.{Floats, RangeMap, MbDevices, DeviceTable, new_mbdevices}
use modbus_ssa_project.Model.Devices.{clear}
use modbus_ssa_project.Model.WellFormed.{FourMaps, get_elem?_of_FourMaps}
use modbus_ssa_project.Platform.{Platform}
use modbus_ssa_project.Session.Record.{Session}
use modbus_ssa_project.Session.Machine.{Machine, act, on_cs, write}
use modbus_ssa_project.Session.Polling.{
  ModbusLibrary, Polled, Place, at_device, at_next, at_kind, at_range, at_end, Outcome, goes,
  blocked, changed, undefined, same_vector, next_device, first_device, begin_device, request,
  poll_step,
}
use modbus_ssa_project.Session.Polling.History.{
  Event, polls, written, heartbeat_due, slave_due, closes, receives, History, begins, goes_on,
}
use modbus_ssa_project.Session.Sound.{
  Ranges, Grows, IsServed, IsSound, Keeps, Keeps-of_same, new_mbdevices-IsServed,
}
use modbus_ssa_project.Session.Sound.Handlers.{
  close-Keeps, check_deadline-Keeps, check_slave_deadline-Keeps, on_write-Keeps, on_read-some-Keeps,
}

-- The thread is at the beginning of a device, or at a kind or a range of one whose type has ranges.
unfoldable pub IsInside : Ranges → Place → Type 0
IsInside t (at_device sid) = Unit
IsInside t (at_next sid) = Unit
IsInside t (at_kind sid d kind) = (contains d.type t ≡ true) × (kind ≤ 4)
IsInside t (at_range sid d kind vector ranges) = (contains d.type t ≡ true) × (kind < 4)
IsInside t at_end = Unit

pub IsInside-Grows : (t t' : Ranges) (p : Place) → Grows t t' → IsInside t p → IsInside t' p
unfolding IsInside
IsInside-Grows t t' (at_device sid) g h = tt
IsInside-Grows t t' (at_next sid) g h = tt
IsInside-Grows t t' (at_kind sid d kind) g h = (g d.type h.0, h.1)
IsInside-Grows t t' (at_range sid d kind vector ranges) g h = (g d.type h.0, h.1)
IsInside-Grows t t' at_end g h = tt

next_device-IsInside :
    (sid : Text) (devices : DeviceTable) (t : Ranges) → IsInside t (next_device sid devices)
unfolding IsInside next_device
next_device-IsInside sid [] t = tt
next_device-IsInside sid ((key, d) ∷ devices) t =
    if-intro (IsInside t) (before sid key) _ _ tt (next_device-IsInside sid devices t)

pub first_device-IsInside : (devices : DeviceTable) (t : Ranges) → IsInside t (first_device devices)
unfolding IsInside first_device
first_device-IsInside [] t = tt
first_device-IsInside ((key, d) ∷ devices) t = tt

pub at_end-IsInside : (t : Ranges) → IsInside t at_end
unfolding IsInside
at_end-IsInside t = tt

-- What a step of the thread leaves.
Leaves : Session → Outcome → Type 0
Leaves cs (goes q n) =
    (IsSound (n.cs) × Grows (cs.mbtypes).typenum ((n.cs).mbtypes).typenum)
    × IsInside ((n.cs).mbtypes).typenum q
Leaves cs blocked = Unit
Leaves cs changed = Unit
Leaves cs undefined = ⊥

leaves :
    (cs : Session) (q : Place) (n : Machine)
    → Keeps cs n.cs
    → IsSound cs
    → IsInside (cs.mbtypes).typenum q
    → Leaves cs (goes q n)
unfolding Leaves
leaves cs q n keeps s inside =
    (keeps s, IsInside-Grows (cs.mbtypes).typenum ((n.cs).mbtypes).typenum q (keeps s).1 inside)

blocks : (cs : Session) → Leaves cs blocked
unfolding Leaves
blocks cs = tt

breaks : (cs : Session) → Leaves cs changed
unfolding Leaves
breaks cs = tt

clear-IsServed :
    (t : Ranges) (sid : Text) (devices : Map Text MbDevices)
    → AllValues (IsServed t) devices
    → AllValues (IsServed t) (clear sid devices)
unfolding clear
clear-IsServed t sid devices h =
    modify-AllValues (IsServed t) new_mbdevices sid _ devices (new_mbdevices-IsServed t) (λ d s. s)
      h

cleared-Keeps :
    (sid current_sid current_type : Text) (flag : ℕ) (cs : Session)
    → Keeps cs (record cs {
      mbdevices = clear sid cs.mbdevices;
      flag = flag;
      current_sid = current_sid;
      current_type = current_type;
    })
cleared-Keeps sid current_sid current_type flag cs s = (
  record {
    tables = s.tables;
    devices = clear-IsServed (cs.mbtypes).typenum sid cs.mbdevices s.devices;
  },
  λ k h. h,
)

module _ (mb : ModbusLibrary) where
  begin_device-Leaves :
      (sid : Text) (m : Machine) → IsSound m.cs → Leaves m.cs (begin_device mb sid m)
  unfolding begin_device on_cs act IsInside
  begin_device-Leaves sid m s =
      if-intro (Leaves m.cs) (m.cs).is_close _ _
        (leaves m.cs at_end m (Keeps-of_same m.cs m.cs refl refl) s tt)
        (elim (Bool-cases (empty d.slave)) [
          | inl e ↦ rw e (leaves m.cs (at_next sid) _ kept s tt)
          | inr e ↦ rw e (
              if-intro (Leaves m.cs)
                (mb.init_ok (if empty d.addr then text "RTU" else text "TCP") (atoi d.slave)) _ _
                (leaves m.cs (at_kind sid _ 0) _ kept s (served e, omega arith))
                (leaves m.cs (at_next sid) _ kept s tt))
        ])
    where
      d : MbDevices
      d = get new_mbdevices sid (clear sid (m.cs).mbdevices)

      served : IsServed ((m.cs).mbtypes).typenum d
      served =
          get-AllValues (IsServed ((m.cs).mbtypes).typenum) new_mbdevices sid
            (clear sid (m.cs).mbdevices) (new_mbdevices-IsServed ((m.cs).mbtypes).typenum)
            (clear-IsServed ((m.cs).mbtypes).typenum sid (m.cs).mbdevices s.devices)

      kept : Keeps m.cs (record (m.cs) {
        mbdevices = clear sid (m.cs).mbdevices;
        flag = 0;
        current_sid = sid;
        current_type = d.type;
      })
      kept = cleared-Keeps sid sid d.type 0 m.cs

  request-Leaves :
      (sid : Text) (d : Polled) (kind : ℕ) (vector : List RangeMap) (first count : ℤ)
      (ranges : RangeMap) (m : Machine)
      → IsSound m.cs
      → contains d.type ((m.cs).mbtypes).typenum ≡ true
      → kind < 4
      → Leaves m.cs (request mb sid d kind vector first count ranges m)
  unfolding request IsInside
  request-Leaves sid d kind vector first count ranges m s known below =
      if-intro (Leaves m.cs) ((m.cs).flag == 1) _ _
        (leaves m.cs (at_kind sid d (kind + 1)) m (Keeps-of_same m.cs m.cs refl refl) s
          (known, omega arith))
        (if-intro (Leaves m.cs) (not (same_vector vector (get [] d.type ((m.cs).mbtypes).typenum)))
          _ _ (breaks m.cs)
          (if-intro (Leaves m.cs) (m.cs).is_close _ _
            (leaves m.cs at_end numbered numbered_keeps s tt)
            (leaves m.cs (at_range sid d kind vector ranges) (write req numbered) written_keeps s
              (known, below))))
    where
      req : List ℕ
      req = mb.read_bat d.mode d.slave first count (kind + 1)

      numbered : Machine
      numbered =
          on_cs (λ c. record c { current_num = to_string first })
            (on_cs (λ c. record c { locked = true }) m)

      numbered_keeps : Keeps m.cs numbered.cs
      numbered_keeps = unfold on_cs in Keeps-of_same m.cs numbered.cs refl refl

      written_keeps : Keeps m.cs (write req numbered).cs
      written_keeps =
          unfold on_cs write act in
          Keeps-of_same m.cs (write req numbered).cs (ground arith) (ground arith)

  -- A step of the thread leaves the session sound, and the thread where it reads no vector out of its
  -- range; nor does the step itself.
  poll_step-Leaves :
      (p : Place) (m : Machine)
      → IsSound m.cs
      → IsInside ((m.cs).mbtypes).typenum p
      → Leaves m.cs (poll_step mb p m)
  unfolding poll_step IsInside
  poll_step-Leaves (at_device sid) m s h =
      if-intro (Leaves m.cs) (m.cs).locked _ _ (blocks m.cs) (begin_device-Leaves sid m s)
  poll_step-Leaves (at_next sid) m s h =
      leaves m.cs (next_device sid (m.cs).mbdevices) m (Keeps-of_same m.cs m.cs refl refl) s
        (unfold IsInside in next_device-IsInside sid (m.cs).mbdevices ((m.cs).mbtypes).typenum)
  poll_step-Leaves (at_kind sid d kind) m s h = elim (Bool-cases (kind == 4)) [
    | inl e ↦ rw e (leaves m.cs (at_next sid) m (Keeps-of_same m.cs m.cs refl refl) s tt)
    | inr e ↦
        let found =
          get_elem?_of_FourMaps (get [] d.type ((m.cs).mbtypes).typenum) kind
            (get-AllValues_of_contains FourMaps [] d.type ((m.cs).mbtypes).typenum h.0
              (s.tables).vectors)
            (ground arith) in
        rw (e, found.1)
          (leaves m.cs (at_range sid d kind (get [] d.type ((m.cs).mbtypes).typenum) found.0) m
            (Keeps-of_same m.cs m.cs refl refl) s (h.0, ground arith))
  ]
  poll_step-Leaves (at_range sid d kind vector []) m s h =
      leaves m.cs (at_kind sid d (kind + 1)) m (Keeps-of_same m.cs m.cs refl refl) s
        (h.0, omega (arith, h.1))
  poll_step-Leaves (at_range sid d kind vector ((first, count) ∷ ranges)) m s h =
      if-intro (Leaves m.cs) (m.cs).locked _ _ (blocks m.cs)
        (request-Leaves sid d kind vector first count ranges m s h.0 h.1)
  poll_step-Leaves at_end m s h = leaves m.cs at_end m (Keeps-of_same m.cs m.cs refl refl) s tt

  defined : (cs : Session) (o : Outcome) → Leaves cs o → o ≢ undefined
  unfolding Leaves
  defined cs o h e = subst (Leaves cs) e h

  pub poll_step-defined :
      (p : Place) (m : Machine)
      → IsSound m.cs
      → IsInside ((m.cs).mbtypes).typenum p
      → poll_step mb p m ≢ undefined
  poll_step-defined p m s h = defined m.cs (poll_step mb p m) (poll_step-Leaves p m s h)

  module _ (pf : Platform) (fl : Floats) (ends_equal : Bool) where
    Keeps-place :
        (m n : Machine) (p : Place)
        → Keeps m.cs n.cs
        → IsSound m.cs
        → IsInside ((m.cs).mbtypes).typenum p
        → IsSound n.cs × IsInside ((n.cs).mbtypes).typenum p
    Keeps-place m n p keeps s h = (
      (keeps s).0,
      IsInside-Grows ((m.cs).mbtypes).typenum ((n.cs).mbtypes).typenum p (keeps s).1 h,
    )

    pub Event-IsSound :
        (p q : Place) (m n : Machine) (j : ℕ)
        → Event mb pf fl ends_equal p m j q n
        → IsSound m.cs
        → IsInside ((m.cs).mbtypes).typenum p
        → IsSound n.cs × IsInside ((n.cs).mbtypes).typenum q
    unfolding Leaves
    Event-IsSound p q m n j (polls e) s h =
        let left = subst (Leaves m.cs) e (poll_step-Leaves p m s h) in ((left.0).0, left.1)
    Event-IsSound p q m n j (written error) s h = Keeps-place m n p (on_write-Keeps error m) s h
    Event-IsSound p q m n j (heartbeat_due error) s h =
        Keeps-place m n p (check_deadline-Keeps error m) s h
    Event-IsSound p q m n j (slave_due error) s h =
        Keeps-place m n p (check_slave_deadline-Keeps error m) s h
    Event-IsSound p q m n j (closes cancelled) s h = Keeps-place m n p (close-Keeps cancelled m) s h
    Event-IsSound p q m n j (receives error has_http buffer bytes w w' e) s h =
        Keeps-place m n p
          (on_read-some-Keeps pf fl ends_equal error has_http buffer bytes m n w w' e) s h

    -- In every history of the thread and the handlers of a sound session, from the beginning of a
    -- round or any place in it at which the device's type has range maps, the session stays sound,
    -- and the thread's next step never reads a vector of range maps out of its range.
    History-IsSound :
        (p q : Place) (m n : Machine) (k : ℕ)
        → History mb pf fl ends_equal p m k q n
        → IsSound m.cs
        → IsInside ((m.cs).mbtypes).typenum p
        → IsSound n.cs × IsInside ((n.cs).mbtypes).typenum q × (poll_step mb q n ≢ undefined)
    History-IsSound p q m n k begins s h = (s, h, poll_step-defined p m s h)
    History-IsSound p r m o k (goes_on {q = q} {n = n} {j = j} {k = k'} e rest) s h =
        let next = Event-IsSound p q m n j e s h in History-IsSound q r n o k' rest next.0 next.1
