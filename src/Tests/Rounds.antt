-- ===== src/Tests/Rounds.antt =====
-- The theorems on messages, rounds of requests and responses at inputs of a device.
use modbus_ssa_project.Prelude.{
  ℕ, zero, suc, ◌+◌, ◌≤◌, true, false, List, [], ◌∷◌, ◌++◌, some, ◌≡◌, refl, arith,
}
use modbus_ssa_project.Prelude.Int.{pos}
use modbus_ssa_project.Prelude.Text.{Text, text, same, starts_with, to_string, to_text, atoi}
use modbus_ssa_project.Prelude.Map.{Map, text_key, get, modify, assign, erase, insert}
use modbus_ssa_project.Frame.{check_msg}
use modbus_ssa_project.Frame.Buffer.{check_msg_fits}
use modbus_ssa_project.Model.{RangeMap, new_mbdevices, new_mbtypes}
use modbus_ssa_project.Session.Record.{Session}
use modbus_ssa_project.Session.Machine.{Machine, on_cs, write}
use modbus_ssa_project.Session.Polling.{
  Polled, at_next, at_kind, at_range, goes, request, same_vector,
}
use modbus_ssa_project.Session.Polling.Complete.{Asks, requests_for, device-Asks}
use modbus_ssa_project.Session.Polling.Address.{request-locate}
use modbus_ssa_project.Parse.Sid.{get_sid, find_sid}
use modbus_ssa_project.Parse.Coils.{Located, locate, put_device, parse_co}
use modbus_ssa_project.Parse.Coils.Bits.{IsBytes, coils, with_bits, read_bits, parse_bits-read_bits}
use modbus_ssa_project.Tests.Sessions.{no_session, machine, library}

-- The beginning of a response of 250 bytes of registers.
abbrev long_one : List ℕ
long_one = 1 ∷ 3 ∷ 250 ∷ []

long_asks : (check_msg long_one 3 false).result ≡ pos 252
unfolding check_msg starts_with
long_asks = refl

check_msg_fits_example : 3 + 252 ≤ 260
check_msg_fits_example =
    check_msg_fits long_one 3 251 false (λ e. absurd (omega (arith, e))) (omega arith) long_asks

-- A type with two ranges of coils and one of registers, and a slave of it.
abbrev pub vector : List RangeMap
vector = ((pos 0, pos 8) ∷ (pos 20, pos 1) ∷ []) ∷ [] ∷ ((pos 4, pos 2) ∷ []) ∷ [] ∷ []

abbrev pub table : Map Text (List RangeMap)
table = (text "7", vector) ∷ []

abbrev pub slave : Polled
slave = record { type = text "7"; mode = text "RTU"; slave = pos 1 }

abbrev pub loaded : Machine
loaded = record (machine 1) {
  cs = record no_session {
    mbtypes = record { types = []; typenum = table; current_type = [] };
    mbdevices = (text "s", record new_mbdevices { type = text "7" }) ∷ [];
    rtu_slave_to_sid = (text "1", text "s" ∷ []) ∷ [];
    current_sid = text "s";
  };
}

table_ranges :
    get [] (text "7") table
    ≡ ((pos 0, pos 8) ∷ (pos 20, pos 1) ∷ []) ∷ [] ∷ ((pos 4, pos 2) ∷ []) ∷ [] ∷ []
unfolding get same
table_ranges = refl

device-Asks_example : Asks library table (at_kind (text "s") slave 0) loaded (at_next (text "s")) (
    requests_for library slave 0 ((pos 0, pos 8) ∷ (pos 20, pos 1) ∷ [])
    ++ (requests_for library slave 1 []
        ++ (requests_for library slave 2 ((pos 4, pos 2) ∷ []) ++ requests_for library slave 3 [])))
device-Asks_example =
    device-Asks library (text "s") slave ((pos 0, pos 8) ∷ (pos 20, pos 1) ∷ []) []
      ((pos 4, pos 2) ∷ []) [] [] loaded table (refl, refl, refl, refl) table_ranges

-- The second range is asked for, and the slave answers.
abbrev asking : Machine
asking = write (1 ∷ []) (
    on_cs (λ c. record c { current_num = to_string (pos 20) })
      (on_cs (λ c. record c { locked = true }) loaded))

asking-request :
    request library (text "s") slave 0 vector (pos 20) (pos 1) [] loaded
    ≡ goes (at_range (text "s") slave 0 vector []) asking
unfolding request same_vector get same
asking-request = refl

abbrev coil_on : List ℕ
coil_on = 1 ∷ 1 ∷ 1 ∷ 1 ∷ 0 ∷ 0 ∷ []

abbrev answered : Session
answered = record (asking.cs) { buffer = coil_on; len = 6; tcp_flag = false }

abbrev read_there : Located
read_there = record {
  sid = text "s";
  device = record new_mbdevices { type = text "7" };
  points = new_mbtypes;
  cn = pos 20;
  count = pos 1;
  cs = record answered {
    mbtypes = record (answered.mbtypes) { types = (text "7", new_mbtypes) ∷ [] };
  };
}

answered-locate : locate 0 answered ≡ some read_there
unfolding locate get_sid get modify assign same to_string to_text atoi on_cs write find_sid erase
    insert
answered-locate = refl

request-locate_example : read_there.cn ≡ pos 20
request-locate_example =
    request-locate library (text "s") slave 0 0 vector (pos 20) (pos 1) [] loaded asking
      (at_range (text "s") slave 0 vector []) coil_on 6 false read_there refl asking-request
      answered-locate

coil_on-IsBytes : IsBytes coil_on
coil_on-IsBytes zero = omega arith
coil_on-IsBytes (suc zero) = omega arith
coil_on-IsBytes (suc (suc zero)) = omega arith
coil_on-IsBytes (suc (suc (suc zero))) = omega arith
coil_on-IsBytes (suc (suc (suc (suc zero)))) = omega arith
coil_on-IsBytes (suc (suc (suc (suc (suc zero))))) = omega arith
coil_on-IsBytes (suc (suc (suc (suc (suc (suc n)))))) = omega arith

parse_bits-read_bits_example :
    parse_co true answered
    ≡ some (
        put_device read_there.sid
          (with_bits coils read_there.device (
            read_bits true [] coil_on
              (pos 20)
              0
              1
              (record { num = 0; maps = record { mp = []; tm = [] } })))
          read_there.cs)
parse_bits-read_bits_example =
    parse_bits-read_bits coils true answered read_there coil_on-IsBytes answered-locate
      (omega arith) (omega arith)
