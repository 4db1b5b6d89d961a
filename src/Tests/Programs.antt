-- ===== src/Tests/Programs.antt =====
-- The gateway from its start to a request: a device connects and registers, the platform names a slave
-- and its model, and the polling thread asks the slave for its coil.
use modbus_ssa_project.Prelude.{
  ℕ, ◌+◌, ◌≤◌, ◌≢◌, true, false, List, [], ◌∷◌, ◌++◌, some, if◌then◌else◌, ◌≡◌, refl, length,
  get_or, replicate,
}
use modbus_ssa_project.Prelude.Int.{pos}
use modbus_ssa_project.Prelude.Text.{
  Text, text, same, starts_with, empty, behind, c_str, atoi, to_string, to_text,
}
use modbus_ssa_project.Prelude.Map.{text_key, get, modify, insert, contains, assign, last}
use modbus_ssa_project.C8y.Query.{get_dev_info, get_properties}
use modbus_ssa_project.Frame.{check_reg}
use modbus_ssa_project.C8y.Load.{get_child_devices, add_children, add_devices, get_model}
use modbus_ssa_project.Model.Dispatch.{handle, handle_all}
use modbus_ssa_project.Model.Devices.{add_device, clear}
use modbus_ssa_project.Model.Ranges.{add_coil_range}
use modbus_ssa_project.Model.Types.{add_coil, set_mbtype}
use modbus_ssa_project.Model.{SrRecord, RangeMap, MbDevices, new_mbdevices}
use modbus_ssa_project.Platform.{Platform}
use modbus_ssa_project.Accept.{connected, io_service_thread}
use modbus_ssa_project.Session.Machine.{
  Machine, reads, reads_reg, writes, sets_timer, sets_slave_timer, starts_thread,
  check_slave_deadline,
}
use modbus_ssa_project.Session.Registration.{on_read_reg}
use modbus_ssa_project.Session.Polling.{
  Place, Polled, at_device, at_kind, at_range, at_end, goes, undefined, poll_step, same_vector,
  first_device,
}
use modbus_ssa_project.Session.Polling.Lock.{sent}
use modbus_ssa_project.Session.Polling.History.{polls, slave_due}
use modbus_ssa_project.Session.Sound.{IsSound}
use modbus_ssa_project.Program.{
  Program, machine_of, put_machine, accept, started, accepts, runs, registers, wakes, Run, begins,
  goes_on, is_among,
}
use modbus_ssa_project.Program.Safety.{Run-IsSound}
use modbus_ssa_project.Program.Lock.{requests_of, holds, written_to}
use modbus_ssa_project.Program.Lock.Requests.{Run-requests}
use modbus_ssa_project.Tests.Sessions.{floats, library}

abbrev pub record_of : List Text → SrRecord
record_of vs = record { size = length vs; value = λ i. get_or vs i [] }

-- A platform whose state is the last text that was posted. It knows every device as 7, which has one
-- slave, 40, of type 5, and the type has the coil 3.
abbrev answer : Text → List SrRecord
answer asked =
    if starts_with (text "300,") asked
    then record_of (text "800" ∷ text "1" ∷ text "7" ∷ []) ∷ []
    else if starts_with (text "323,") asked
    then record_of (
        text "816"
        ∷ text "1"
        ∷ text "RTU"
        ∷ text "1"
        ∷ text "40"
        ∷ text "/inventory/managedObjects/5"
        ∷ text "pump"
        ∷ [])
      ∷ []
    else if starts_with (text "309,5") asked
    then record_of (text "839" ∷ text "1" ∷ text "5" ∷ [])
      ∷ record_of (text "821" ∷ text "1" ∷ text "3" ∷ text "false" ∷ [])
      ∷ []
    else []

abbrev pub quark : Platform
quark = record {
  World = Text;
  post = λ t w. (pos 1, t);
  response = answer;
  clear = λ w. w;
  post_as = λ type t w. t;
  agent_id = text "1";
  server_time = λ w. text "0";
}

abbrev registration : List ℕ
registration = text "HTLZ000000000000042"

abbrev first : Program
first = started (λ n. [])

abbrev online : Program
online = accept connected 1 first

-- The session afterwards.
abbrev pub pump : MbDevices
pump = record new_mbdevices { name = text "pump"; slave = text "1"; type = text "5" }

abbrev pub known : Machine
known = record {
  this = 1;
  cs = record {
    did = text "000000000000042";
    sid = text "7";
    timer_interval = pos 5000;
    timer_active = true;
    mbtypes = record {
      types =
          (
            text "5",
            record {
              co = (text "3" ∷ [] ∷ [] ∷ [] ∷ [] ∷ [] ∷ []) ∷ [];
              di = [];
              hr = [];
              ir = [];
              is_server_time = text "false";
            },
          )
          ∷ [];
      typenum = (text "5", ((pos 3, pos 1) ∷ []) ∷ [] ∷ [] ∷ [] ∷ []) ∷ [];
      current_type = text "5";
    };
    mbdevices = (text "40", pump) ∷ [];
    tcp_slave_to_sid = [];
    rtu_slave_to_sid = (text "1", text "40" ∷ []) ∷ [];
    current_num = [];
    current_type = [];
    current_sid = [];
    msg = [];
    forward_msg = [];
    buffer = replicate 1024 0;
    len = 0;
    tcp_flag = false;
    polling_rate = pos 5;
    rece_heart_beat = true;
    is_close = false;
    count = 0;
    flag = 0;
    is_disconnect = false;
    locked = false;
    sock_open = true;
  };
  registry = record {
    did_to_cs = (text "000000000000042", 1) ∷ [];
    sid_to_cs = (text "7", 1) ∷ [];
  };
  actions = starts_thread ∷ sets_timer ∷ reads_reg 19 ∷ reads 3 ∷ [];
}

registers_known :
    on_read_reg quark floats false true registration 19 (machine_of 1 online) []
    ≡ some (known, text "309,5")
unfolding on_read_reg accept started starts_with empty check_reg behind c_str get_dev_info same
    get_child_devices add_children add_devices get_model handle_all modify insert contains assign
    get add_device get_properties handle add_coil set_mbtype add_coil_range last atoi
registers_known = refl

-- Its thread wakes, comes to the slave, and asks for the coil; the slave's time runs out.
abbrev polled : Polled
polled = record { type = text "5"; mode = text "RTU"; slave = pos 1 }

abbrev begun : Machine
begun = record known {
  cs = record (known.cs) { flag = 0; current_sid = text "40"; current_type = text "5" };
  actions = known.actions ++ sets_slave_timer ∷ [];
}

abbrev asked : Machine
asked = record begun {
  cs = record (begun.cs) { locked = true; current_num = text "3" };
  actions = begun.actions ++ writes (1 ∷ []) ∷ [];
}

abbrev vector : List RangeMap
vector = ((pos 3, pos 1) ∷ []) ∷ [] ∷ [] ∷ [] ∷ []

abbrev registered_one : Program
registered_one = put_machine 1 (online.places 1) known online

abbrev awake : Program
awake = put_machine 1 (at_device (text "40")) (machine_of 1 registered_one) registered_one

abbrev at_slave : Program
at_slave = put_machine 1 (at_kind (text "40") polled 0) begun awake

abbrev at_coil : Program
at_coil = put_machine 1 (at_range (text "40") polled 0 vector ((pos 3, pos 1) ∷ [])) begun at_slave

abbrev requested : Program
requested = put_machine 1 (at_range (text "40") polled 0 vector []) asked at_coil

abbrev given_up : Program
given_up =
    put_machine 1 (requested.places 1) (check_slave_deadline false (machine_of 1 requested))
      requested

to_slave :
    poll_step library (awake.places 1) (machine_of 1 awake)
    ≡ goes (at_kind (text "40") polled 0) begun
unfolding poll_step put_machine empty get modify same atoi contains clear
to_slave = refl

to_coil :
    poll_step library (at_slave.places 1) (machine_of 1 at_slave)
    ≡ goes (at_range (text "40") polled 0 vector ((pos 3, pos 1) ∷ [])) begun
unfolding poll_step put_machine get same
to_coil = refl

to_request :
    poll_step library (at_coil.places 1) (machine_of 1 at_coil)
    ≡ goes (at_range (text "40") polled 0 vector []) asked
unfolding poll_step put_machine to_string to_text same_vector get same
to_request = refl

first_waits : (first.acceptor).waiting ≡ some 1
unfolding started io_service_thread
first_waits = refl

online_runs : is_among 1 (online.acceptor).initialised ≡ true
unfolding accept started put_machine is_among io_service_thread
online_runs = refl

still_runs :
    (g : Program) (p : Place) (m : Machine)
    → is_among 1 (g.acceptor).initialised ≡ true
    → is_among 1 ((put_machine 1 p m g).acceptor).initialised ≡ true
unfolding put_machine
still_runs g p m h = h

registered_runs : is_among 1 (registered_one.acceptor).initialised ≡ true
registered_runs = still_runs online (online.places 1) known online_runs

sleeps : registered_one.places 1 ≡ at_end
unfolding accept put_machine
sleeps = refl

is_active : ((registered_one.gateway).sessions 1).timer_active ≡ true
unfolding put_machine
is_active = refl

abbrev Reached : ℕ → Program → Type 0
Reached = Run library quark floats false 1 first

registered_run : Reached 0 registered_one
registered_run =
    goes_on {h = online} (goes_on begins (accepts 1 connected first_waits))
      (registers 1 false true registration 19 [] (text "309,5") online_runs registers_known)

awake_run : Reached 0 awake
unfolding put_machine first_device
awake_run = goes_on registered_run (wakes 1 registered_runs sleeps is_active)

awake_runs : is_among 1 (awake.acceptor).initialised ≡ true
awake_runs =
    still_runs registered_one (at_device (text "40")) (machine_of 1 registered_one) registered_runs

at_slave_runs : is_among 1 (at_slave.acceptor).initialised ≡ true
at_slave_runs = still_runs awake (at_kind (text "40") polled 0) begun awake_runs

at_coil_runs : is_among 1 (at_coil.acceptor).initialised ≡ true
at_coil_runs =
    still_runs at_slave (at_range (text "40") polled 0 vector ((pos 3, pos 1) ∷ [])) begun
      at_slave_runs

requested_runs : is_among 1 (requested.acceptor).initialised ≡ true
requested_runs = still_runs at_coil (at_range (text "40") polled 0 vector []) asked at_coil_runs

requested_run : Reached 0 requested
requested_run =
    goes_on {h = at_coil}
      (goes_on {h = at_slave} (goes_on {h = awake} awake_run (runs 1 awake_runs (polls to_slave)))
        (runs 1 at_slave_runs (polls to_coil)))
      (runs 1 at_coil_runs (polls to_request))

given_up_run : Reached 1 given_up
unfolding put_machine
given_up_run = goes_on {h = requested} requested_run (runs 1 requested_runs (slave_due false))

one_request : requests_of 1 given_up ≡ 1
unfolding requests_of put_machine accept started check_slave_deadline sent written_to
one_request = refl

Run-requests_example : requests_of 1 given_up ≤ holds 1 given_up.gateway + 1
Run-requests_example = Run-requests library quark floats false (λ n. []) 1 1 given_up given_up_run

Run-IsSound_example :
    IsSound ((requested.gateway).sessions 1)
    × (poll_step library (requested.places 1) (machine_of 1 requested) ≢ undefined)
Run-IsSound_example = Run-IsSound library quark floats false (λ n. []) 1 0 requested requested_run 1
