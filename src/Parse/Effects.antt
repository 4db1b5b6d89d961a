-- ===== src/Parse/Effects.antt =====
-- What one point of a response adds to the messages of its device (src/modbus_p.cpp): `mp` is the
-- map of the register kind, `tm` the map of all messages.
use modbus_ssa_project.Prelude.{ℕ, Bool, not, List, [], ◌∷◌, ◌++◌, if◌then◌else◌, ◌==◌}
use modbus_ssa_project.Prelude.Text.{Text, text, same, empty, to_text}
use modbus_ssa_project.Prelude.Map.{text_key, modify, assign, contains}
use modbus_ssa_project.Model.Position
use modbus_ssa_project.Model.{Row, field, MsgMap}

-- `mp[id].push_back(value)`
unfoldable pub push_value : Text → Text → MsgMap → MsgMap
push_value id value m = modify [] id (λ vs. vs ++ value ∷ []) m

-- The pair `mp`, `tm`.
pub record Maps : Type 0 where
  pub mp : MsgMap
  pub tm : MsgMap

unfoldable pub push_both : Text → Text → Maps → Maps
unfolding push_value
push_both id value m = record { mp = push_value id value m.mp; tm = push_value id value m.tm }

unfoldable pub assign_both : Text → List Text → Maps → Maps
assign_both id values m = record { mp = assign id values m.mp; tm = assign id values m.tm }

-- The status of a point. `tm.find(status) == mp.end()` compares iterators of two maps: it is false
-- where `tm` has the message, and else whatever `ends_equal` says of the two ends.
unfoldable pub status_effect : Bool → Text → Text → Maps → Maps
unfolding push_both assign_both
status_effect ends_equal status value m =
    if empty status
    then m
    else if contains status m.tm
    then push_both status value m
    else if ends_equal
    then assign_both status (value ∷ []) m
    else push_both status value m

-- A condition "0" fires on a cleared bit, any other on a set one.
abbrev pub fires : Text → ℕ → Bool
fires condition d = if same condition (text "0") then d == 0 else not (d == 0)

-- A coil or discrete input with the value `d`.
unfoldable pub coil_effect : Bool → Row → ℕ → Maps → Maps
unfolding status_effect
coil_effect ends_equal v d m =
    let alarm = field v Position.alarm in
    let event = field v Position.event in
    let value = text "," ++ to_text d in
    let alarmed =
      if empty alarm
      then m
      else if fires (field v Position.alarm_condition) d
      then assign_both alarm [] m
      else m in
    let evented =
      if empty event
      then alarmed
      else if fires (field v Position.event_condition) d
      then push_both event value alarmed
      else alarmed in
    status_effect ends_equal (field v Position.status) value evented

-- A register with the value `s_data`; `positive` says whether it is above 0.000001.
unfoldable pub register_effect : Bool → Row → Bool → Text → Maps → Maps
unfolding status_effect
register_effect ends_equal v positive s_data m =
    let alarm = field v Position.alarm in
    let event = field v Position.event in
    let measurement = field v Position.measurement in
    let value = text "," ++ s_data in
    let alarmed = if empty alarm then m else if positive then assign_both alarm [] m else m in
    let evented = if empty event then alarmed else push_both event value alarmed in
    let measured = if empty measurement then evented else push_both measurement value evented in
    status_effect ends_equal (field v Position.status) value measured

-- What a register adds to `forward_msg`.
unfoldable pub forward_effect : Row → Text → MsgMap → MsgMap
unfolding push_value
forward_effect v s_data fm =
    let measurement = field v Position.measurement in
    if empty measurement
    then fm
    else if same (field v Position.is_forward) (text "1")
    then push_value measurement (text "," ++ s_data) fm
    else fm
