-- ===== src/Frame/Buffer.antt =====
-- How many bytes the checks of src/modbus_p.cpp ask for.
use modbus_ssa_project.Prelude.{ℕ, suc, ◌+◌, ◌≤◌, ◌<◌, Bool, List, ◌≡◌, ◌≢◌, arith}
use modbus_ssa_project.Prelude.Int.{pos}
use modbus_ssa_project.Frame.{byte, check_msg, check_mp, check_crc}

-- A message over RTU fits: where the check asks for more bytes of a message whose third byte is not 0,
-- it has 260 bytes at most when they have come.
pub check_msg_fits :
    (buffer : List ℕ) (len more : ℕ) (tcp_flag : Bool)
    → byte buffer 2 ≢ 0
    → byte buffer 2 < 256
    → (check_msg buffer len tcp_flag).result ≡ pos (suc more)
    → len + suc more ≤ 260
unfolding check_msg check_mp check_crc
check_msg_fits buffer len more tcp_flag ne small h = ground arith
