-- ===== src/Tests/Parts.antt =====
-- The theorems on times, shared maps, settings, and requests at concrete inputs.
use modbus_ssa_project.Prelude.{
  ℕ, ◌/◌, ◌%◌, ◌==◌, true, [], ◌∷◌, ◌++◌, length, some, if◌then◌else◌, ◌≡◌, refl, arith,
}
use modbus_ssa_project.Prelude.Int.{ℤ, pos, negsuc, ◌+ℤ◌, ◌-ℤ◌}
use modbus_ssa_project.Prelude.Text.{Text, text}
use modbus_ssa_project.Prelude.Map.{Map, text_key, get}
use modbus_ssa_project.Crc.{crc16}
use modbus_ssa_project.Frame.{check_crc}
use modbus_ssa_project.Timer.{Timespec, Timer, le_time, start, loop}
use modbus_ssa_project.Timer.Instant.{
  IsNormal, IsBehind, Sleepless, IsFast, start-IsBehind, loop-Sleepless,
}
use modbus_ssa_project.Shared.{index, erase_value}
use modbus_ssa_project.Shared
use modbus_ssa_project.Shared.Refines.{view, or_else, with_default, without, Map_refines_Partial}
use modbus_ssa_project.Libmodbus.{Library, modbus_library}
use modbus_ssa_project.Libmodbus.Request.{IsRtu, word, request_body, request_bytes, requests}
use modbus_ssa_project.Accept.{connected, failed, accepts, io_service_thread}
use modbus_ssa_project.Accept.Stops.{accepts_until_failure}
use modbus_ssa_project.Config.{read_config}
use modbus_ssa_project.Config.RoundTrip.{print_config, read_config-print_config, read_config_stops}

-- Half a second before the end of a second, and a tenth of a second into the next.
abbrev earlier : Timespec
earlier = record { tv_sec = pos 10; tv_nsec = pos 500000000 }

abbrev later : Timespec
later = record { tv_sec = pos 11; tv_nsec = pos 100000000 }

earlier-IsNormal : IsNormal earlier
earlier-IsNormal = (omega arith, omega arith)

-- A timer of 600 milliseconds.
abbrev timer : Timer
timer = record { beg = earlier; fire = earlier; val = pos 600; active = true; connected = true }

start_carries : (start earlier timer).fire ≡ later
unfolding start ◌+ℤ◌ ◌-ℤ◌
start_carries = refl

start-IsBehind_example :
    IsNormal (start earlier timer).fire
    × IsBehind 600 earlier (start earlier timer).fire
    × (le_time earlier (start earlier timer).fire ≡ true)
start-IsBehind_example = start-IsBehind earlier timer 600 refl earlier-IsNormal

timer-IsFast : IsFast timer
timer-IsFast = (refl, refl, omega arith, omega arith)

loop-Sleepless_example :
    Sleepless (loop (timer ∷ timer ∷ []) timer).pauses
    × ((loop (timer ∷ timer ∷ []) timer).runs ≡ 2)
loop-Sleepless_example =
    loop-Sleepless (timer ∷ timer ∷ []) timer timer-IsFast (timer-IsFast, (timer-IsFast, tt))

abbrev sids : Map Text ℕ
sids = (text "a", 1) ∷ (text "b", 2) ∷ []

Map_refines_Partial_example :
    (view (Shared.insert 0 ◌==◌ (text "b") 3 sids) ≡ with_default (text "b") 3 (view sids))
    × (view (Shared.erase 0 ◌==◌ (text "b") sids) ≡ without (text "b") (view sids))
    × ((index 0 ◌==◌ (text "b") sids).0 ≡ or_else 0 (view sids (text "b")))
    × (view (index 0 ◌==◌ (text "b") sids).1 ≡ with_default (text "b") 0 (view sids))
    × (view (erase_value 0 ◌==◌ (text "b") 3 sids) ≡ (
        if or_else 0 (view sids (text "b")) == 3
        then without (text "b") (view sids)
        else with_default (text "b") 0 (view sids)))
Map_refines_Partial_example = Map_refines_Partial 0 ◌==◌ (text "b") 3 sids

-- A modbus library that makes requests over a serial line.
abbrev slave_byte : ℤ → ℕ
slave_byte (pos n) = n
slave_byte (negsuc n) = 0

abbrev serial : Library
serial = record {
  malloc = λ b. true;
  fresh_slave = negsuc 0;
  set_slave = λ b slave. pos 0;
  build_request_basis =
      λ b slave func addr nb. request_body (slave_byte slave) func (word addr) (word nb);
  send_msg_pre = λ b bytes. bytes ++ (crc16 bytes % 256) ∷ (crc16 bytes / 256) ∷ [];
}

serial-IsRtu : IsRtu serial
serial-IsRtu = record {
  allocates = refl;
  sets = λ slave h. refl;
  builds = λ slave func addr nb. refl;
  completes = λ bytes. refl;
}

requests_example :
    ((modbus_library serial).read_bat (text "RTU") (pos 1) (pos 17) (pos 2) 3
      ≡ request_bytes 1 3 16 2)
    × ((modbus_library serial).write_co (text "RTU") (pos 1) (pos 17) (pos 1)
        ≡ request_bytes 1 5 16 0xFF00)
    × ((modbus_library serial).write_hr (text "RTU") (pos 1) (pos 17) (pos 2)
        ≡ request_bytes 1 6 16 2)
    × (check_crc (request_bytes 1 3 16 2) 8 ≡ pos 0)
    × (check_crc (request_bytes 1 5 16 0xFF00) 8 ≡ pos 0)
    × (check_crc (request_bytes 1 6 16 2) 8 ≡ pos 0)
requests_example =
    requests serial serial-IsRtu 1 3 16 2 0 (omega arith) (omega arith) (omega arith) (omega arith)

accepts_until_failure_example :
    length (accepts (connected ∷ failed ∷ connected ∷ []) io_service_thread).initialised ≡ 1
accepts_until_failure_example = accepts_until_failure (connected ∷ failed ∷ connected ∷ [])

-- A file of two settings, and one with an empty line behind them.
abbrev settings : Map Text Text
settings = (text "port", text "8001") ∷ (text "log", text "debug") ∷ []

read_config-print_config_example :
    read_config (some (print_config settings)) (text "log") [] ≡ get [] (text "log") settings
read_config-print_config_example = read_config-print_config settings (text "log") [] (ground arith)

read_config_stops_example :
    read_config (some (print_config settings ++ ([] ++ b'\n' ∷ text "server=x"))) (text "server") []
    ≡ get [] (text "server") settings
read_config_stops_example =
    read_config_stops settings [] (text "server=x") (text "server") [] (ground arith) tt
      (omega arith)
