-- ===== src/Parse/Registers/Raises.antt =====
-- Which messages the value of a register raises (parseHR and parseIR of src/modbus_p.cpp).
use modbus_ssa_project.Prelude.{
  Bool, true, false, not, ◌&&◌, ◌||◌, [], ◌++◌, if◌then◌else◌, ◌≡◌, refl, ap, ◌∙◌, arith,
}
use modbus_ssa_project.Prelude.Text.{Text, text, empty, same}
use modbus_ssa_project.Prelude.Map.{text_key, contains}
use modbus_ssa_project.Model.Position
use modbus_ssa_project.Model.{Row, field}
use modbus_ssa_project.Parse.Effects.{Maps, assign_both, push_both, register_effect}
use modbus_ssa_project.Parse.Coils.Raises.{
  contains-push_both, contains-assign_both, contains-status_effect,
}

-- The message is the point's alarm, and the value is positive; or its event, measurement or status.
abbrev pub raises : Text → Row → Bool → Bool
raises id v positive =
    let alarm = field v Position.alarm in
    let event = field v Position.event in
    let measurement = field v Position.measurement in
    let status = field v Position.status in
    (not (empty alarm) && (positive && same alarm id))
    || ((not (empty event) && same event id)
        || ((not (empty measurement) && same measurement id)
            || (not (empty status) && same status id)))

alarmed : Text → Bool → Maps → Maps
alarmed alarm positive m = if empty alarm then m else if positive then assign_both alarm [] m else m

-- What an event or a measurement adds.
valued : Text → Text → Maps → Maps
valued id value m = if empty id then m else push_both id value m

contains-alarmed :
    (id alarm : Text) (positive : Bool) (m : Maps)
    → contains id (alarmed alarm positive m).tm
      ≡ (contains id m.tm || (not (empty alarm) && (positive && same alarm id)))
unfolding alarmed
contains-alarmed id alarm positive m = ground (arith, contains-assign_both id alarm [] m)

contains-valued :
    (id k value : Text) (m : Maps)
    → contains id (valued k value m).tm ≡ (contains id m.tm || (not (empty k) && same k id))
unfolding valued
contains-valued id k value m = ground (arith, contains-push_both id k value m)

regrouped : (x a e n s : Bool) → ((((x || a) || e) || n) || s) ≡ (x || (a || (e || (n || s))))
regrouped true a e n s = refl
regrouped false true e n s = refl
regrouped false false true n s = refl
regrouped false false false n s = refl

pub contains-register_effect :
    (ends_equal : Bool) (id : Text) (v : Row) (positive : Bool) (s_data : Text) (m : Maps)
    → contains id (register_effect ends_equal v positive s_data m).tm
      ≡ (contains id m.tm || raises id v positive)
unfolding register_effect alarmed valued
contains-register_effect ends_equal id v positive s_data m =
    contains-status_effect ends_equal id (field v Position.status) value with_measurement
    ∙ (ap (λ b. b || by_status)
          (contains-valued id (field v Position.measurement) value with_event
            ∙ ap (λ b. b || by_measurement)
                (contains-valued id (field v Position.event) value with_alarm
                  ∙ ap (λ b. b || by_event)
                      (contains-alarmed id (field v Position.alarm) positive m)))
        ∙ regrouped (contains id m.tm) by_alarm by_event by_measurement by_status)
  where
    value : Text
    value = text "," ++ s_data

    with_alarm : Maps
    with_alarm = alarmed (field v Position.alarm) positive m

    with_event : Maps
    with_event = valued (field v Position.event) value with_alarm

    with_measurement : Maps
    with_measurement = valued (field v Position.measurement) value with_event

    by_alarm : Bool
    by_alarm =
        not (empty (field v Position.alarm)) && (positive && same (field v Position.alarm) id)

    by_event : Bool
    by_event = not (empty (field v Position.event)) && same (field v Position.event) id

    by_measurement : Bool
    by_measurement =
        not (empty (field v Position.measurement)) && same (field v Position.measurement) id

    by_status : Bool
    by_status = not (empty (field v Position.status)) && same (field v Position.status) id
