-- ===== src/Session/Sound/Types.antt =====
-- The messages of the platform (src/modbus_model.cpp) keep every type that a session knows.
use modbus_ssa_project.Prelude.{
  ℕ, true, Option, none, some, ◌>>=◌, List, [], ◌∷◌, get_elem?, ◌≡◌, sym, if-intro, Bool-cases,
  Option-cases, inl, inr, arith,
}
use modbus_ssa_project.Prelude.Text.{Text, text, same, same_iff}
use modbus_ssa_project.Prelude.Map.{
  text_key, get, contains, contains-assign, contains-modify, contains-modify_self, contains-erase,
  assign, erase, AllValues, modify-AllValues, insert-AllValues,
}
use modbus_ssa_project.Model.{
  SrRecord, Floats, Row, MbTypes, RangeMap, MbTypeTable, DeviceTable, new_mbdevices,
}
use modbus_ssa_project.Model.Types.{
  on_current, on_ranges, on_rows, on_coil, on_register, add_coil, add_coil_alarm, add_coil_event,
  add_coil_status, add_register, add_register_alarm, add_register_measurement, add_register_event,
  add_register_status, set_mbtype, set_server_time,
}
use modbus_ssa_project.Model.Devices.{type_of_link, push_ranges, add_device}
use modbus_ssa_project.Model.Dispatch.{
  Handled, handled, bad_call, undefined, of_option, handle, handle_all,
}
use modbus_ssa_project.Model.WellFormed.{IsWellFormed, Yields}
use modbus_ssa_project.Model.Safety.{handle_all-IsWellFormed}
use modbus_ssa_project.Session.Sound.{
  Ranges, Grows, IsServed, new_mbdevices-IsServed, IsServed-Grows,
}

-- A type that is known stays known.
abbrev Has : Text → MbTypeTable → Type 0
Has k s = contains k s.typenum ≡ true

on_ranges-Has :
    (k : Text) (place : ℕ) (f : RangeMap → RangeMap) (s : MbTypeTable)
    → Has k s
    → Yields (Has k) (of_option (on_ranges place f s))
unfolding on_ranges
on_ranges-Has k place f s h =
    elim (Option-cases (get_elem? (get [] s.current_type s.typenum) place)) [
      | inl e ↦ rw (e, on_ranges) tt
      | inr (m, e) ↦ rw (e, on_ranges) (contains-assign s.current_type k _ s.typenum h)
    ]

add_coil-Has :
    (k : Text) (r : SrRecord) (s : MbTypeTable)
    → Has k s
    → Yields (Has k) (of_option (add_coil r s))
unfolding add_coil on_current
add_coil-Has k r s h =
    if-intro (λ o. Yields (Has k) (of_option o)) (same (r.value 3) (text "false")) _ _
      (on_ranges-Has k 0 _ _ h) (on_ranges-Has k 1 _ _ h)

add_register-Has :
    (k : Text) (fl : Floats) (r : SrRecord) (s : MbTypeTable)
    → Has k s
    → Yields (Has k) (of_option (add_register fl r s))
unfolding add_register on_current
add_register-Has k fl r s h =
    if-intro (λ o. Yields (Has k) (of_option o)) (same (r.value 8) (text "false")) _ _
      (on_ranges-Has k 2 _ _ h) (on_ranges-Has k 3 _ _ h)

stored-Has :
    (k : Text) (s : MbTypeTable) (o : Option MbTypes)
    → Has k s
    → Yields
        (Has k)
        (of_option (o >>= λ t. some (record s { types = assign s.current_type t s.types })))
stored-Has k s none h = tt
stored-Has k s (some t) h = h

on_coil-Has :
    (k : Text) (r : SrRecord) (f : Row → Option Row) (s : MbTypeTable)
    → Has k s
    → Yields (Has k) (of_option (on_coil r f s))
unfolding on_coil on_rows
on_coil-Has k r f s h =
    if-intro (λ o. Yields (Has k) (of_option o)) (same (r.value 4) (text "false")) _ _
      (stored-Has k s _ h) (stored-Has k s _ h)

on_register-Has :
    (k : Text) (r : SrRecord) (f : Row → Option Row) (s : MbTypeTable)
    → Has k s
    → Yields (Has k) (of_option (on_register r f s))
unfolding on_register on_rows
on_register-Has k r f s h =
    if-intro (λ o. Yields (Has k) (of_option o)) (same (r.value 5) (text "false")) _ _
      (stored-Has k s _ h) (stored-Has k s _ h)

-- A change of a row.
module _ (k : Text) (r : SrRecord) (s : MbTypeTable) (h : Has k s) where
  add_coil_alarm-Has : Yields (Has k) (of_option (add_coil_alarm r s))
  unfolding add_coil_alarm
  add_coil_alarm-Has = on_coil-Has k r _ s h

  add_coil_event-Has : Yields (Has k) (of_option (add_coil_event r s))
  unfolding add_coil_event
  add_coil_event-Has = on_coil-Has k r _ s h

  add_coil_status-Has : Yields (Has k) (of_option (add_coil_status r s))
  unfolding add_coil_status
  add_coil_status-Has = on_coil-Has k r _ s h

  add_register_alarm-Has : Yields (Has k) (of_option (add_register_alarm r s))
  unfolding add_register_alarm
  add_register_alarm-Has = on_register-Has k r _ s h

  add_register_measurement-Has : Yields (Has k) (of_option (add_register_measurement r s))
  unfolding add_register_measurement
  add_register_measurement-Has = on_register-Has k r _ s h

  add_register_event-Has : Yields (Has k) (of_option (add_register_event r s))
  unfolding add_register_event
  add_register_event-Has = on_register-Has k r _ s h

  add_register_status-Has : Yields (Has k) (of_option (add_register_status r s))
  unfolding add_register_status
  add_register_status-Has = on_register-Has k r _ s h

handle-Has :
    (k : Text) (fl : Floats) (r : SrRecord) (s : MbTypeTable)
    → Has k s
    → Yields (Has k) (handle fl r s)
unfolding handle set_mbtype set_server_time on_current
handle-Has k fl r s h = ground (
  arith,
  add_coil-Has k r s h,
  add_register-Has k fl r s h,
  add_coil_alarm-Has k r s h,
  add_coil_event-Has k r s h,
  add_coil_status-Has k r s h,
  add_register_alarm-Has k r s h,
  add_register_measurement-Has k r s h,
  add_register_event-Has k r s h,
  add_register_status-Has k r s h,
)

handle_all-Has :
    (k : Text) (fl : Floats) (rs : List SrRecord) (s : MbTypeTable)
    → Has k s
    → Yields (Has k) (handle_all fl rs s)
unfolding handle_all
handle_all-Has k fl [] s h = h
handle_all-Has k fl (r ∷ rs) s h =
    next (handle fl r s) (handle-Has k fl r s h) (λ s' v. handle_all-Has k fl rs s' v)
  where
    next :
        (o : Handled MbTypeTable)
        → Yields (Has k) o
        → ((s' : MbTypeTable) → Has k s' → Yields (Has k) (handle_all fl rs s'))
        → Yields (Has k) (elim o [
          | handled s' ↦ handle_all fl rs s'
          | bad_call s' ↦ bad_call s'
          | undefined ↦ undefined
        ])
    next (handled s') v rest = rest s' v
    next (bad_call s') v rest = v
    next undefined v rest = tt

-- The point tables stay well formed, and every type known.
abbrev pub TablesKeep : MbTypeTable → MbTypeTable → Type 0
TablesKeep s s' = IsWellFormed s' × Grows s.typenum s'.typenum

pub handle_all-Keeps :
    (fl : Floats) (rs : List SrRecord) (s : MbTypeTable)
    → IsWellFormed s
    → Yields (TablesKeep s) (handle_all fl rs s)
handle_all-Keeps fl rs s h =
    both (handle_all fl rs s) (handle_all-IsWellFormed fl rs s h)
      (λ k known. handle_all-Has k fl rs s known)
  where
    both :
        (o : Handled MbTypeTable)
        → Yields IsWellFormed o
        → ((k : Text) → Has k s → Yields (Has k) o)
        → Yields (TablesKeep s) o
    both (handled s') v g = (v, g)
    both (bad_call s') v g = (v, g)
    both undefined v g = tt

push_ranges-Has :
    (k type : Text) (m : Ranges) → contains k m ≡ true → contains k (push_ranges type m) ≡ true
unfolding push_ranges
push_ranges-Has k type m h = contains-modify [] type k _ m h

pushed-Has :
    (k type : Text) (m : Ranges)
    → contains k m ≡ true
    → contains k (push_ranges type (erase type m)) ≡ true
pushed-Has k type m h = elim (Bool-cases (same type k)) [
  | inl e ↦ rw (sym ((same_iff type k).0 e)) (there type (erase type m))
  | inr e ↦ push_ranges-Has k type (erase type m) (contains-erase type k m h e)
]
  where
    there : (t : Text) (n : Ranges) → contains t (push_ranges t n) ≡ true
    there t n = unfold push_ranges in contains-modify_self [] t _ n

-- A new device: its type is known, and all the others still are.
pub add_device-Grows :
    (r : SrRecord) (devices : DeviceTable) (s : MbTypeTable)
    → Grows s.typenum ((add_device r (devices, s)).1).typenum
unfolding add_device
add_device-Grows r devices s k h =
    if-intro (λ t. contains k (push_ranges (type_of_link (r.value 5)) t) ≡ true) _ _ _
      (pushed-Has k (type_of_link (r.value 5)) s.typenum h)
      (push_ranges-Has k (type_of_link (r.value 5)) s.typenum h)

pub add_device-IsServed :
    (r : SrRecord) (devices : DeviceTable) (s : MbTypeTable)
    → AllValues (IsServed s.typenum) devices
    → AllValues (IsServed ((add_device r (devices, s)).1).typenum) (add_device r (devices, s)).0
add_device-IsServed r devices s h =
    unfold add_device in
    modify-AllValues (IsServed t) new_mbdevices (r.value 4) _ _ (λ e. known) (λ d v e. known)
      (insert-AllValues (IsServed t) (r.value 4) new_mbdevices devices (new_mbdevices-IsServed t)
        (IsServed-Grows s.typenum t devices (add_device-Grows r devices s) h))
  where
    t : Ranges
    t = ((add_device r (devices, s)).1).typenum

    known : contains (type_of_link (r.value 5)) t ≡ true
    known = unfold add_device push_ranges in contains-modify_self [] (type_of_link (r.value 5)) _ _
