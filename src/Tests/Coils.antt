-- ===== src/Tests/Coils.antt =====
-- A response of two coils, the second of which has an alarm that fires on a set bit.
use modbus_ssa_project.Prelude.{ℕ, zero, suc, true, ◌||◌, List, [], ◌∷◌, some, ◌≡◌, refl, arith}
use modbus_ssa_project.Prelude.Int.{pos, ◌+ℤ◌}
use modbus_ssa_project.Prelude.Text.{text, same, atoi, to_string, to_text, empty}
use modbus_ssa_project.Prelude.Map.{text_key, int_key, contains, get, modify, assign}
use modbus_ssa_project.Model.{MbTypes, new_mbtypes, MbDevices, new_mbdevices}
use modbus_ssa_project.Session.Record.{Session}
use modbus_ssa_project.Parse.Sid.{get_sid, find_sid}
use modbus_ssa_project.Parse.Effects.{coil_effect}
use modbus_ssa_project.Parse.Coils.{
  Located, locate, collect, coil_bits, coil_rows, put_device, parse_co,
}
use modbus_ssa_project.Parse.Coils.Bits.{IsBytes, coils}
use modbus_ssa_project.Parse.Coils.Raises.{raised, parse_bits-raises}
use modbus_ssa_project.Tests.Sessions.{no_session}

abbrev motors : MbTypes
motors = record new_mbtypes {
  co =
      (text "20" ∷ [] ∷ [] ∷ [] ∷ [] ∷ [] ∷ [])
      ∷ (text "21" ∷ text "301" ∷ [] ∷ [] ∷ text "1" ∷ [] ∷ [])
      ∷ [];
}

abbrev motor : MbDevices
motor = record new_mbdevices { type = text "7" }

-- The response: the first bit is cleared, the second set.
abbrev answer : List ℕ
answer = 1 ∷ 1 ∷ 1 ∷ 2 ∷ 0 ∷ 0 ∷ []

abbrev answered : Session
answered = record no_session {
  mbtypes = record {
    types = (text "7", motors) ∷ [];
    typenum = (text "7", ((pos 20, pos 2) ∷ []) ∷ [] ∷ [] ∷ [] ∷ []) ∷ [];
    current_type = [];
  };
  mbdevices = (text "s", motor) ∷ [];
  rtu_slave_to_sid = (text "1", text "s" ∷ []) ∷ [];
  current_sid = text "s";
  current_num = text "20";
  buffer = answer;
  len = 6;
}

abbrev found : Located
found = record {
  sid = text "s";
  device = motor;
  points = motors;
  cn = pos 20;
  count = pos 2;
  cs = answered;
}

answered-locate : locate 0 answered ≡ some found
unfolding locate get_sid find_sid get modify contains assign same atoi to_string to_text
answered-locate = refl

abbrev alarmed : Session
alarmed = record answered {
  mbdevices =
      (
        text "s",
        record motor {
          co_num = 2;
          co = (text "301", []) ∷ [];
          template_msg = (text "301", []) ∷ [];
        },
      )
      ∷ [];
}

answered-parse_co : parse_co true answered ≡ some alarmed
unfolding parse_co locate get_sid find_sid get modify contains assign same atoi to_string to_text
    collect coil_bits coil_rows coil_effect put_device empty ◌+ℤ◌
answered-parse_co = refl

answer-IsBytes : IsBytes answer
answer-IsBytes zero = omega arith
answer-IsBytes (suc zero) = omega arith
answer-IsBytes (suc (suc zero)) = omega arith
answer-IsBytes (suc (suc (suc zero))) = omega arith
answer-IsBytes (suc (suc (suc (suc zero)))) = omega arith
answer-IsBytes (suc (suc (suc (suc (suc zero))))) = omega arith
answer-IsBytes (suc (suc (suc (suc (suc (suc n)))))) = omega arith

is_raised : raised (text "301") motors.co answer (pos 20) 0 2 ≡ true
unfolding raised same empty to_string to_text ◌+ℤ◌
is_raised = refl

parse_bits-raises_example :
    contains (text "301") (get new_mbdevices (text "s") alarmed.mbdevices).template_msg ≡ (
      contains (text "301") motor.template_msg || raised (text "301") motors.co answer (pos 20) 0 2)
parse_bits-raises_example =
    parse_bits-raises coils true answered alarmed found (text "301") answer-IsBytes answered-locate
      (omega arith) (omega arith) answered-parse_co
