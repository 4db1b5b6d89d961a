-- ===== src/Parse/Sid.antt =====
-- src/modbus_p.cpp: getSid, the device that a response comes from.
use modbus_ssa_project.Prelude.{List, [], ◌∷◌, if◌then◌else◌}
use modbus_ssa_project.Prelude.Text.{Text, same, to_text}
use modbus_ssa_project.Prelude.Map.{text_key, get, modify}
use modbus_ssa_project.Frame.{byte}
use modbus_ssa_project.Session.Record.{Session}

-- The entry that is the current device, or the empty text.
unfoldable pub find_sid : Text → List Text → Text
find_sid current [] = []
find_sid current (sid ∷ sids) = if same sid current then sid else find_sid current sids

-- The sid, and the session with the entry that the look-up creates.
unfoldable pub get_sid : Session → Text × Session
unfolding find_sid
get_sid cs =
    if cs.tcp_flag
    then (let slave = to_text (byte cs.buffer 6) in
        let table = modify [] slave (λ sid. sid) cs.tcp_slave_to_sid in
        (get [] slave table, record cs { tcp_slave_to_sid = table }))
    else (let slave = to_text (byte cs.buffer 0) in
        let table = modify [] slave (λ sids. sids) cs.rtu_slave_to_sid in
        (find_sid cs.current_sid (get [] slave table), record cs { rtu_slave_to_sid = table }))
