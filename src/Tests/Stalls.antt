-- ===== src/Tests/Stalls.antt =====
-- The operation of the platform that stops the polling of a session: the request to write a register of
-- a slave that does not answer, while the device goes on with its heartbeats.
use modbus_ssa_project.Prelude.{
  ℕ, ◌≢◌, true, false, List, [], ◌∷◌, ◌++◌, some, ◌≡◌, refl, if◌then◌else◌, ◌==◌,
}
use modbus_ssa_project.Prelude.Int.{pos}
use modbus_ssa_project.Prelude.Text.{text, same, starts_with, empty, atoi}
use modbus_ssa_project.Prelude.Map.{text_key, get, modify, lookup, contains}
use modbus_ssa_project.Model.{SrRecord}
use modbus_ssa_project.Model.Dispatch.{handled}
use modbus_ssa_project.Frame.{check_msg}
use modbus_ssa_project.Session.Machine.{Machine, reads, check_slave_deadline}
use modbus_ssa_project.Session.Reading.{on_read}
use modbus_ssa_project.Session.Polling.{Place, at_device, blocked, poll_step}
use modbus_ssa_project.Session.Polling.Lock.{sent}
use modbus_ssa_project.Session.Polling.Stall.{IsWaiting, Waiting, begins, slave_due, receives}
use modbus_ssa_project.Agent.{Gateway, free, find_free, set_operation}
use modbus_ssa_project.Agent.Stall.{set_operation-stalls}
use modbus_ssa_project.Tests.Sessions.{floats, library}
use modbus_ssa_project.Tests.Programs.{record_of, quark, known, pump}

-- Between two rounds the slave's time has run out.
abbrev resting : Machine
resting = record known { cs = record (known.cs) { flag = 1 } }

abbrev idle : Gateway
idle = record {
  sessions = λ n. resting.cs;
  did_to_cs = (text "000000000000042", 1) ∷ [];
  sid_to_cs = (text "7", 1) ∷ [];
  written = [];
}

abbrev set_register : SrRecord
set_register = record_of (
    text "834"
    ∷ text "1"
    ∷ text "9"
    ∷ text "40"
    ∷ text "1"
    ∷ text "0"
    ∷ text "16"
    ∷ text "100"
    ∷ [])

abbrev taken : Machine
taken = record resting { cs = record (resting.cs) { locked = true } }

abbrev operated : Gateway
operated = record idle {
  sessions = λ n. if n == 1 then taken.cs else resting.cs;
  written = (1, []) ∷ [];
}

finds_it : (find_free quark floats library (text "40") idle.sessions idle.did_to_cs).1 ≡ free 1 pump
unfolding find_free lookup same
finds_it = refl

operates_it : (set_operation quark floats library set_register idle []).0 ≡ handled operated
unfolding set_operation find_free lookup same get modify empty atoi contains
operates_it = refl

-- The heartbeat.
abbrev heartbeat : List ℕ
heartbeat = text "LZH"

abbrev beaten : Machine
beaten = record taken {
  cs = record (taken.cs) { rece_heart_beat = true };
  actions = taken.actions ++ reads 3 ∷ [];
}

beats :
    on_read quark floats false false true heartbeat 3 (check_slave_deadline false taken) []
    ≡ some (beaten, text "107,7")
unfolding on_read check_slave_deadline starts_with empty get modify same contains check_msg
beats = refl

no_message : (check_msg heartbeat 3 false).result ≢ pos 0
unfolding check_msg starts_with
no_message e = cc

abbrev before_slave : Place
before_slave = at_device (text "40")

before_slave-IsWaiting : IsWaiting before_slave
unfolding IsWaiting
before_slave-IsWaiting = tt

waiting : Waiting library quark floats false before_slave taken before_slave beaten
unfolding check_slave_deadline
waiting =
    receives false true heartbeat 3 [] (text "107,7") (slave_due false begins) no_message beats

set_operation-stalls_example :
    (before_slave ≡ before_slave)
    × (poll_step library before_slave beaten ≡ blocked)
    × (true ≡ true)
    × (sent beaten.actions ≡ sent taken.actions)
set_operation-stalls_example =
    set_operation-stalls library quark floats false set_register idle operated [] 1 pump
      before_slave before_slave taken beaten finds_it operates_it refl before_slave-IsWaiting refl
      waiting
