-- ===== src/Parse/Msg.antt =====
-- src/modbus_p.cpp: parseMsg, the choice by function code.
use modbus_ssa_project.Prelude.{Bool, Option, some, if◌then◌else◌, ◌==◌}
use modbus_ssa_project.Prelude.Int.{ℤ, pos, negsuc}
use modbus_ssa_project.Model.{Floats}
use modbus_ssa_project.Frame.{byte}
use modbus_ssa_project.Prelude.{◌>>=◌}
use modbus_ssa_project.Parse.Coils.{parse_co, parse_di}
use modbus_ssa_project.Parse.Registers.{parse_hr, parse_ir}
use modbus_ssa_project.Session.Record.{Session}

-- parseMsg: the result, and the session. A message over TCP is not read.
unfoldable pub parse_msg : Floats → Bool → Session → Option (ℤ × Session)
parse_msg fl ends_equal cs =
    let fc = byte cs.buffer 1 in
    if cs.tcp_flag
    then some (pos 0, cs)
    else if fc == 0x01
    then (parse_co ends_equal cs >>= λ cs'. some (pos 0, cs'))
    else if fc == 0x02
    then (parse_di ends_equal cs >>= λ cs'. some (pos 0, cs'))
    else if fc == 0x03
    then (parse_hr fl ends_equal cs >>= λ cs'. some (pos 0, cs'))
    else if fc == 0x04
    then (parse_ir fl ends_equal cs >>= λ cs'. some (pos 0, cs'))
    else some (negsuc 0, cs)
