-- ===== src/Model/Dispatch.antt =====
-- src/modbus_model.cpp: `m_mod[r.value(0)](*this, r)`, the choice of a handler by message id.
use modbus_ssa_project.Prelude.{Bool, List, [], ◌∷◌, Option, none, some, if◌then◌else◌}
use modbus_ssa_project.Prelude.Text.{Text, text, same}
use modbus_ssa_project.Model.{SrRecord, Floats, MbTypeTable, DeviceTable}
use modbus_ssa_project.Model.Devices.{add_device}
use modbus_ssa_project.Model.Types.{
  add_coil, add_coil_alarm, add_coil_event, add_coil_status, add_register, add_register_alarm,
  add_register_measurement, add_register_event, add_register_status, set_mbtype, set_server_time,
}

-- `bad_call`: the id has no handler, and calling the empty function throws `bad_function_call`,
-- which leaves the state as it is then. `undefined`: a vector is read out of its range.
pub data Handled {ℓ} (S : Type ℓ) : Type ℓ where
  handled : S → Handled S
  bad_call : S → Handled S
  undefined : Handled S

abbrev pub of_option {ℓ} : {S : Type ℓ} → Option S → Handled S
of_option none = undefined
of_option (some s) = handled s

abbrev pub is : SrRecord → Text → Bool
is r id = same (r.value 0) id

-- MBTYPES::operator() and the table that its constructor fills.
unfoldable pub handle : Floats → SrRecord → MbTypeTable → Handled MbTypeTable
handle fl r s =
    if is r (text "821")
    then of_option (add_coil r s)
    else if is r (text "822")
    then of_option (add_coil_alarm r s)
    else if is r (text "824")
    then of_option (add_coil_event r s)
    else if is r (text "825")
    then of_option (add_register fl r s)
    else if is r (text "826")
    then of_option (add_register_alarm r s)
    else if is r (text "827")
    then of_option (add_register_measurement r s)
    else if is r (text "828")
    then of_option (add_register_event r s)
    else if is r (text "829")
    then handled (set_server_time r s)
    else if is r (text "830")
    then of_option (add_coil_status r s)
    else if is r (text "831")
    then of_option (add_register_status r s)
    -- setCoil and setRegister only log.
    else if is r (text "833")
    then handled s
    else if is r (text "834")
    then handled s
    else if is r (text "839")
    then handled (set_mbtype r s)
    else if is r (text "840")
    then handled (set_mbtype r s)
    else bad_call s

-- MBDEVICES::operator().
unfoldable pub handle_device :
    SrRecord → DeviceTable × MbTypeTable → Handled (DeviceTable × MbTypeTable)
handle_device r s =
    if is r (text "816")
    then handled (add_device r s)
    else if is r (text "847")
    then handled (add_device r s)
    else if is r (text "832")
    then handled (add_device r s)
    else if is r (text "848")
    then handled (add_device r s)
    else bad_call s

-- The messages of an answer, one after the other, up to the first that is not handled.
unfoldable pub handle_all : Floats → List SrRecord → MbTypeTable → Handled MbTypeTable
handle_all fl [] s = handled s
handle_all fl (r ∷ rs) s = elim (handle fl r s) [
  | handled s' ↦ handle_all fl rs s'
  | bad_call s' ↦ bad_call s'
  | undefined ↦ undefined
]
