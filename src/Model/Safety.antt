-- ===== src/Model/Safety.antt =====
-- Every message of the platform keeps the point tables well formed, and none reads a vector out of
-- its range as long as the types that it names have been brought in by a device.
use modbus_ssa_project.Prelude.{
  refl, List, [], ◌∷◌, arith, if-intro, length-append, All-append, Option,
}
use modbus_ssa_project.Prelude.Text.{Text, text, same}
use modbus_ssa_project.Prelude.Map.{
  Map, text_key, AllValues, modify-AllValues, assign-AllValues, erase-AllValues,
}
use modbus_ssa_project.Model.{SrRecord, Floats, new_mbtypes, RangeMap, MbTypeTable, DeviceTable}
use modbus_ssa_project.Model.Types.{
  add_coil, add_coil_alarm, add_coil_event, add_coil_status, add_register, add_register_alarm,
  add_register_measurement, add_register_event, add_register_status, set_mbtype, set_server_time,
}
use modbus_ssa_project.Model.Devices.{push_ranges, add_device}
use modbus_ssa_project.Model.Dispatch.{
  Handled, handled, bad_call, undefined, of_option, is, handle, handle_all,
}
use modbus_ssa_project.Model.WellFormed.{
  IsTyped, FourMaps, IsWellFormed, Yields, new-IsTyped, on_current-IsWellFormed,
  on_ranges-IsWellFormed,
}
use modbus_ssa_project.Model.Rows.{
  on_coil-Makes, on_register-Makes, put-Makes, put-put-Makes, Makes, of_option-Yields,
}

add_coil-IsWellFormed :
    (r : SrRecord) (s : MbTypeTable)
    → IsWellFormed s
    → Yields IsWellFormed (of_option (add_coil r s))
unfolding add_coil
add_coil-IsWellFormed r s v =
    if-intro (λ o. Yields IsWellFormed (of_option o)) (same (r.value 3) (text "false")) _ _
      (on_ranges-IsWellFormed _ _ _ (
        on_current-IsWellFormed _ s
          (λ t h. record {
            co-rows = All-append _ t.co _ h.co-rows (refl, tt);
            di-rows = h.di-rows;
            hr-rows = h.hr-rows;
            ir-rows = h.ir-rows;
          })
          v))
      (on_ranges-IsWellFormed _ _ _ (
        on_current-IsWellFormed _ s
          (λ t h. record {
            co-rows = h.co-rows;
            di-rows = All-append _ t.di _ h.di-rows (refl, tt);
            hr-rows = h.hr-rows;
            ir-rows = h.ir-rows;
          })
          v))

add_register-IsWellFormed :
    (fl : Floats) (r : SrRecord) (s : MbTypeTable)
    → IsWellFormed s
    → Yields IsWellFormed (of_option (add_register fl r s))
unfolding add_register
add_register-IsWellFormed fl r s v =
    if-intro (λ o. Yields IsWellFormed (of_option o)) (same (r.value 8) (text "false")) _ _
      (on_ranges-IsWellFormed _ _ _ (
        on_current-IsWellFormed _ s
          (λ t h. record {
            co-rows = h.co-rows;
            di-rows = h.di-rows;
            hr-rows = All-append _ t.hr _ h.hr-rows (refl, tt);
            ir-rows = h.ir-rows;
          })
          v))
      (on_ranges-IsWellFormed _ _ _ (
        on_current-IsWellFormed _ s
          (λ t h. record {
            co-rows = h.co-rows;
            di-rows = h.di-rows;
            hr-rows = h.hr-rows;
            ir-rows = All-append _ t.ir _ h.ir-rows (refl, tt);
          })
          v))

set_server_time-IsWellFormed :
    (r : SrRecord) (s : MbTypeTable) → IsWellFormed s → IsWellFormed (set_server_time r s)
unfolding set_server_time
set_server_time-IsWellFormed r s v =
    on_current-IsWellFormed _ s
      (λ t h. record {
        co-rows = h.co-rows;
        di-rows = h.di-rows;
        hr-rows = h.hr-rows;
        ir-rows = h.ir-rows;
      })
      v

set_mbtype-IsWellFormed :
    (r : SrRecord) (s : MbTypeTable) → IsWellFormed s → IsWellFormed (set_mbtype r s)
unfolding set_mbtype
set_mbtype-IsWellFormed r s v =
    on_current-IsWellFormed _ _
      (λ t h. record {
        co-rows = h.co-rows;
        di-rows = h.di-rows;
        hr-rows = h.hr-rows;
        ir-rows = h.ir-rows;
      })
      (if-intro IsWellFormed (same (r.value 0) (text "839")) _ _
        (on_current-IsWellFormed _ named
          (λ t h. record { co-rows = tt; di-rows = tt; hr-rows = h.hr-rows; ir-rows = h.ir-rows })
          named-IsWellFormed)
        (on_current-IsWellFormed _ named
          (λ t h. record { co-rows = h.co-rows; di-rows = h.di-rows; hr-rows = tt; ir-rows = tt })
          named-IsWellFormed))
  where
    named : MbTypeTable
    named = record s { current_type = r.value 2 }

    named-IsWellFormed : IsWellFormed named
    named-IsWellFormed = record { typed = v.typed; vectors = v.vectors }

-- Each change of a row reads and writes it within its length, and keeps the tables well formed.
module _ (r : SrRecord) (s : MbTypeTable) (v : IsWellFormed s) where
  pub add_coil_alarm-Makes : Makes IsWellFormed (add_coil_alarm r s)
  unfolding add_coil_alarm
  add_coil_alarm-Makes =
      on_coil-Makes r _ s
        (λ w h. put-put-Makes 6 1 4 (r.value 3) (r.value 5) w (omega arith) (omega arith) h) v

  pub add_coil_event-Makes : Makes IsWellFormed (add_coil_event r s)
  unfolding add_coil_event
  add_coil_event-Makes =
      on_coil-Makes r _ s
        (λ w h. put-put-Makes 6 2 5 (r.value 3) (r.value 5) w (omega arith) (omega arith) h) v

  pub add_coil_status-Makes : Makes IsWellFormed (add_coil_status r s)
  unfolding add_coil_status
  add_coil_status-Makes =
      on_coil-Makes r _ s (λ w h. put-Makes 6 3 (text "100") w (omega arith) h) v

  pub add_register_alarm-Makes : Makes IsWellFormed (add_register_alarm r s)
  unfolding add_register_alarm
  add_register_alarm-Makes =
      on_register-Makes r _ s (λ w h. put-Makes 15 1 (r.value 4) w (omega arith) h) v

  pub add_register_measurement-Makes : Makes IsWellFormed (add_register_measurement r s)
  unfolding add_register_measurement
  add_register_measurement-Makes =
      on_register-Makes r _ s
        (λ w h. put-put-Makes 15 7 10 (r.value 4) (r.value 6) w (omega arith) (omega arith) h) v

  pub add_register_event-Makes : Makes IsWellFormed (add_register_event r s)
  unfolding add_register_event
  add_register_event-Makes =
      on_register-Makes r _ s (λ w h. put-Makes 15 2 (r.value 4) w (omega arith) h) v

  pub add_register_status-Makes : Makes IsWellFormed (add_register_status r s)
  unfolding add_register_status
  add_register_status-Makes =
      on_register-Makes r _ s (λ w h. put-Makes 15 3 (text "101") w (omega arith) h) v

-- Each message of the platform keeps the point tables well formed: every row has the length at
-- which it is read, and every known type its four range maps.
pub handle-IsWellFormed :
    (fl : Floats) (r : SrRecord) (s : MbTypeTable)
    → IsWellFormed s
    → Yields IsWellFormed (handle fl r s)
unfolding handle
handle-IsWellFormed fl r s v =
    if-intro (Yields IsWellFormed) (is r (text "821")) _ _ (add_coil-IsWellFormed r s v) (
      if-intro (Yields IsWellFormed) (is r (text "822")) _ _ (made _ (add_coil_alarm-Makes r s v)) (
        if-intro (Yields IsWellFormed) (is r (text "824")) _ _ (made _ (add_coil_event-Makes r s v))
          (if-intro (Yields IsWellFormed) (is r (text "825")) _ _
            (add_register-IsWellFormed fl r s v)
            (if-intro (Yields IsWellFormed) (is r (text "826")) _ _
              (made _ (add_register_alarm-Makes r s v))
              (if-intro (Yields IsWellFormed) (is r (text "827")) _ _
                (made _ (add_register_measurement-Makes r s v))
                (if-intro (Yields IsWellFormed) (is r (text "828")) _ _
                  (made _ (add_register_event-Makes r s v))
                  (if-intro (Yields IsWellFormed) (is r (text "829")) _ _
                    (set_server_time-IsWellFormed r s v)
                    (if-intro (Yields IsWellFormed) (is r (text "830")) _ _
                      (made _ (add_coil_status-Makes r s v))
                      (if-intro (Yields IsWellFormed) (is r (text "831")) _ _
                        (made _ (add_register_status-Makes r s v))
                        (if-intro (Yields IsWellFormed) (is r (text "833")) _ _ v (
                          if-intro (Yields IsWellFormed) (is r (text "834")) _ _ v (
                            if-intro (Yields IsWellFormed) (is r (text "839")) _ _
                              (set_mbtype-IsWellFormed r s v)
                              (if-intro (Yields IsWellFormed) (is r (text "840")) _ _
                                (set_mbtype-IsWellFormed r s v) v)))))))))))))
  where
    made : (o : Option MbTypeTable) → Makes IsWellFormed o → Yields IsWellFormed (of_option o)
    made o h = of_option-Yields IsWellFormed o h

-- So do all the messages of an answer, one after the other.
pub handle_all-IsWellFormed :
    (fl : Floats) (rs : List SrRecord) (s : MbTypeTable)
    → IsWellFormed s
    → Yields IsWellFormed (handle_all fl rs s)
unfolding handle_all
handle_all-IsWellFormed fl [] s v = v
handle_all-IsWellFormed fl (r ∷ rs) s v =
    next (handle fl r s) (handle-IsWellFormed fl r s v) (λ s' w. handle_all-IsWellFormed fl rs s' w)
  where
    next :
        (o : Handled MbTypeTable)
        → Yields IsWellFormed o
        → ((s' : MbTypeTable) → IsWellFormed s' → Yields IsWellFormed (handle_all fl rs s'))
        → Yields IsWellFormed (elim o [
          | handled s' ↦ handle_all fl rs s'
          | bad_call s' ↦ bad_call s'
          | undefined ↦ undefined
        ])
    next (handled s') w rest = rest s' w
    next (bad_call s') w rest = w
    next undefined w rest = tt

-- A new device keeps the point tables well formed.
pub add_device-IsWellFormed :
    (r : SrRecord) (devices : DeviceTable) (s : MbTypeTable)
    → IsWellFormed s
    → IsWellFormed (add_device r (devices, s)).1
unfolding add_device
add_device-IsWellFormed r devices s v = record {
  typed = assign-AllValues IsTyped _ new_mbtypes s.types new-IsTyped v.typed;
  vectors = pushed _ _ (
      if-intro (AllValues FourMaps) _ _ _ (erase-AllValues FourMaps _ s.typenum v.vectors)
        v.vectors);
}
  where
    pushed :
        (type : Text) (m : Map Text (List RangeMap))
        → AllValues FourMaps m
        → AllValues FourMaps (push_ranges type m)
    pushed type m h =
        unfold push_ranges in
        modify-AllValues FourMaps [] type _ m (omega arith)
          (λ w k. omega (arith, length-append w ([] ∷ [] ∷ [] ∷ [] ∷ []))) h
