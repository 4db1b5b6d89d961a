-- ===== src/Model/Defined.antt =====
-- The messages of src/modbus_model.cpp, and where they read and write vectors.
use modbus_ssa_project.Prelude.{◌≢◌, Option, arith, if-intro}
use modbus_ssa_project.Prelude.Text.{text, same}
use modbus_ssa_project.Prelude.Map.{text_key}
use modbus_ssa_project.Model.{SrRecord, Floats, MbTypeTable}
use modbus_ssa_project.Model.Types.{add_coil, add_register}
use modbus_ssa_project.Model.Dispatch.{undefined, of_option, handle}
use modbus_ssa_project.Model.WellFormed.{IsWellFormed, IsKnown, on_ranges-defined}
use modbus_ssa_project.Model.Rows.{Makes, of_option-defined}
use modbus_ssa_project.Model.Safety.{
  add_coil_alarm-Makes, add_coil_event-Makes, add_coil_status-Makes, add_register_alarm-Makes,
  add_register_measurement-Makes, add_register_event-Makes, add_register_status-Makes,
}

abbrev IsDefined : Option MbTypeTable → Type 0
IsDefined o = of_option o ≢ undefined

add_coil-defined :
    (r : SrRecord) (s : MbTypeTable)
    → IsWellFormed s
    → IsKnown s
    → of_option (add_coil r s) ≢ undefined
unfolding add_coil
add_coil-defined r s v k =
    if-intro IsDefined (same (r.value 3) (text "false")) _ _
      (on_ranges-defined 0 _ _ (omega arith) v.vectors k)
      (on_ranges-defined 1 _ _ (omega arith) v.vectors k)

add_register-defined :
    (fl : Floats) (r : SrRecord) (s : MbTypeTable)
    → IsWellFormed s
    → IsKnown s
    → of_option (add_register fl r s) ≢ undefined
unfolding add_register
add_register-defined fl r s v k =
    if-intro IsDefined (same (r.value 8) (text "false")) _ _
      (on_ranges-defined 2 _ _ (omega arith) v.vectors k)
      (on_ranges-defined 3 _ _ (omega arith) v.vectors k)

-- If the tables are well formed (every row has the length at which it is read, and every known type
-- four range maps) and the current type is one that a device has brought in, no message reads or
-- writes a row of a point, or the vector of range maps of the type, out of its range.
pub handle-defined :
    (fl : Floats) (r : SrRecord) (s : MbTypeTable)
    → IsWellFormed s
    → IsKnown s
    → handle fl r s ≢ undefined
unfolding handle
handle-defined fl r s v k = ground (
  arith,
  add_coil-defined r s v k,
  add_register-defined fl r s v k,
  made _ (add_coil_alarm-Makes r s v),
  made _ (add_coil_event-Makes r s v),
  made _ (add_coil_status-Makes r s v),
  made _ (add_register_alarm-Makes r s v),
  made _ (add_register_measurement-Makes r s v),
  made _ (add_register_event-Makes r s v),
  made _ (add_register_status-Makes r s v),
)
  where
    made : (o : Option MbTypeTable) → Makes IsWellFormed o → of_option o ≢ undefined
    made o h = of_option-defined IsWellFormed o h
