-- ===== src/Tests/Sessions.antt =====
-- The theorems on sessions and on uploads at a session of device 42 and a platform that knows it.
use modbus_ssa_project.Prelude.{
  ℕ, zero, suc, ◌+◌, ◌≡◌, ◌≢◌, some, refl, true, false, [], ◌∷◌, ◌++◌, arith,
}
use modbus_ssa_project.Prelude.Int.{ℤ, pos}
use modbus_ssa_project.Prelude.Text.{Text, text, same, starts_with, empty, to_string}
use modbus_ssa_project.Prelude.Map.{Map, text_key, lookup, get, modify}
use modbus_ssa_project.Model.{Floats, new_mbdevices}
use modbus_ssa_project.Platform.{Platform}
use modbus_ssa_project.C8y.Query.{get_dev_info}
use modbus_ssa_project.C8y.Send.{send_msg}
use modbus_ssa_project.C8y.Send.Again.{send_msg_again}
use modbus_ssa_project.Agent.{free, find_free}
use modbus_ssa_project.Agent.Finding.{find_free-free}
use modbus_ssa_project.Session.Record.{Session}
use modbus_ssa_project.Session.Machine.{
  runs_close, Machine, close, replaced, check_deadline, check_slave_deadline,
}
use modbus_ssa_project.Session.Registration.{reg_dev}
use modbus_ssa_project.Session.Takeover.{reg_dev-takes_over, close_replaces}
use modbus_ssa_project.Session.Deadline.{Idle, silent_closes}
use modbus_ssa_project.Session.Polling.{ModbusLibrary, Place, at_range}

abbrev pub no_session : Session
no_session = record {
  did = text "device42";
  sid = [];
  timer_interval = pos 0;
  timer_active = true;
  mbtypes = record { types = []; typenum = []; current_type = [] };
  mbdevices = [];
  tcp_slave_to_sid = [];
  rtu_slave_to_sid = [];
  current_num = [];
  current_type = [];
  current_sid = [];
  msg = [];
  forward_msg = [];
  buffer = [];
  len = 0;
  tcp_flag = false;
  polling_rate = pos 0;
  rece_heart_beat = true;
  is_close = false;
  count = 0;
  flag = 0;
  is_disconnect = false;
  locked = false;
  sock_open = true;
}

abbrev pub machine : ℕ → Machine
machine this = record {
  this = this;
  cs = no_session;
  registry = record { did_to_cs = []; sid_to_cs = [] };
  actions = [];
}

-- A platform that answers every question with line 800, and counts what is posted.
abbrev line_800 : ℕ → Text
line_800 zero = text "800"
line_800 (suc zero) = []
line_800 (suc (suc n)) = text "7"

abbrev pub platform : Platform
platform = record {
  World = ℕ;
  post = λ t w. (pos 1, w + 1);
  response = λ w. record { size = 3; value = line_800 } ∷ [];
  clear = λ w. w;
  post_as = λ type t w. w + 1;
  agent_id = text "1";
  server_time = λ w. to_string (pos w);
}

abbrev pub floats : Floats
floats = record {
  Double = ℤ;
  of_int = λ n. n;
  add = λ a b. a;
  mul = λ a b. a;
  div = λ a b. a;
  of_dyadic = λ s n. pos n;
  pow_ten = λ n. pos 1;
  atof = λ s. pos 1;
  print = λ d. text "1";
  print_fixed = λ d n. to_string d;
  positive = λ d. true;
}

abbrev pub library : ModbusLibrary
library = record {
  init_ok = λ mode slave. true;
  read_bat = λ mode slave first count function. function ∷ [];
  write_co = λ mode slave addr value. [];
  write_hr = λ mode slave addr value. [];
}

device_named : empty (text "device42") ≡ false
unfolding empty
device_named = refl

device_known : (reg_dev platform floats (machine 1) 0).0 ≡ true
unfolding reg_dev get_dev_info same empty starts_with
device_known = refl

reg_dev-takes_over_example :
    (replaced (reg_dev platform floats (machine 1) 0).1 ≡ false)
    × (replaced
          (record (machine 2) { registry = ((reg_dev platform floats (machine 1) 0).1).registry })
        ≡ true)
reg_dev-takes_over_example =
    reg_dev-takes_over platform floats (machine 1) (machine 2) 0 device_named device_known refl
      (λ e. absurd (omega (arith, e)))

close_replaces_example :
    (replaced (reg_dev platform floats (machine 1) 0).1 ≡ false)
    × (replaced (record ((reg_dev platform floats (machine 1) 0).1) {
      registry =
          (close true (record (machine 2) {
            registry = ((reg_dev platform floats (machine 1) 0).1).registry;
          })).registry;
    })
        ≡ true)
close_replaces_example =
    close_replaces platform floats true (machine 2) (machine 1) 0 device_named device_known refl
      (λ e. absurd (omega (arith, e)))

-- A slave of device 42, and the thread before its coils.
abbrev polling : Place
polling =
    at_range (text "42") (record { type = text "7"; mode = text "RTU"; slave = pos 1 }) 0
      (((pos 0, pos 8) ∷ (pos 20, pos 1) ∷ []) ∷ [] ∷ [] ∷ [] ∷ [])
      ((pos 0, pos 8) ∷ (pos 20, pos 1) ∷ [])

idle :
    Idle library polling
      (check_deadline false (machine 1))
      polling
      (check_slave_deadline true (check_deadline false (machine 1)))
idle = Idle.slave_due true Idle.begins

silent_closes_example :
    (((check_deadline false (check_slave_deadline true (check_deadline false (machine 1)))).cs
        ).is_disconnect
      ≡ true)
    × ((check_deadline false (check_slave_deadline true (check_deadline false (machine 1)))).actions
        ≡ (check_slave_deadline true (check_deadline false (machine 1))).actions ++ runs_close ∷ [])
silent_closes_example =
    silent_closes library polling polling (machine 1)
      (check_slave_deadline true (check_deadline false (machine 1))) idle

-- A device with one message to send.
abbrev collected : Session
collected = record no_session {
  mbdevices =
      (text "7", record new_mbdevices { template_msg = (text "200", text ",1" ∷ []) ∷ [] }) ∷ [];
}

abbrev uploaded : Session
uploaded = (send_msg platform (text "7") collected 0).1

abbrev collected_again : Session
collected_again = record collected { msg = uploaded.msg; forward_msg = uploaded.forward_msg }

upload : (send_msg platform (text "7") collected 0).0 ≡ pos 0
unfolding send_msg same get modify empty
upload = refl

upload_posts : (send_msg platform (text "7") collected 0).2 ≡ 1
unfolding send_msg same get modify empty
upload_posts = refl

send_msg_again_example : (send_msg platform (text "7") collected_again 5).2 ≡ 5
send_msg_again_example =
    send_msg_again platform (text "7") collected collected_again 0 5 upload refl refl refl refl

-- Two sessions that have the device, of which the first is busy.
abbrev two_sessions : ℕ → Session
two_sessions (suc (suc n)) = collected
two_sessions n = record collected { locked = true }

abbrev both : Map Text ℕ
both = (text "a", 1) ∷ (text "b", 2) ∷ []

found_second :
    (find_free platform floats library (text "7") two_sessions both).1
    ≡ free 2 (get new_mbdevices (text "7") collected.mbdevices)
unfolding find_free lookup same get
found_second = refl

find_free-free_example :
    (◌≢◌ {A = ℕ} 2 0)
    × ((lookup (text "7") collected.mbdevices
          ≡ some (get new_mbdevices (text "7") collected.mbdevices))
        × (false ≡ false))
find_free-free_example =
    find_free-free platform floats library (text "7") two_sessions both 2
      (get new_mbdevices (text "7") collected.mbdevices) found_second
