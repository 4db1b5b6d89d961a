-- ===== src/Tests/Registers.antt =====
-- A response of three registers: a point of one address and a point of two.
use modbus_ssa_project.Prelude.{◌/◌, ◌||◌, false, [], ◌∷◌, some, ◌≡◌, refl}
use modbus_ssa_project.Prelude.Int.{◌+ℤ◌}
use modbus_ssa_project.Prelude.Text.{Text, text, same, atoi, to_string, to_text, empty}
use modbus_ssa_project.Prelude.Map.{text_key, get, modify, contains, assign}
use modbus_ssa_project.Frame.{byte}
use modbus_ssa_project.Model.{Row, new_mbtypes, new_mbdevices}
use modbus_ssa_project.Session.Record.{Session}
use modbus_ssa_project.Parse.Sid.{get_sid, find_sid}
use modbus_ssa_project.Prelude.{◌>>=◌}
use modbus_ssa_project.Parse.Coils.{put_device}
use modbus_ssa_project.Parse.Registers.{locate_device, parse_hr, register_words}
use modbus_ssa_project.Parse.Registers.Layout.{
  first_row, IsTiled, ends, covered, integer, read_words,
}
use modbus_ssa_project.Parse.Registers.Responses.{
  holding, rows_of, unread, with_registers, parse_of-read_words,
}
use modbus_ssa_project.Parse.Registers.Messages.{raised, parse_of-raises}
use modbus_ssa_project.Parse.Effects.{register_effect, forward_effect}
use modbus_ssa_project.Util.{bat, float_reserve}
use modbus_ssa_project.Tests.Sessions.{no_session, floats}

-- A number of some bits at an address, which is sent as a measurement.
abbrev point_at : Text → Text → Row
point_at address bits =
    address
    ∷ []
    ∷ []
    ∷ []
    ∷ text "0"
    ∷ bits
    ∷ text "1"
    ∷ text "200"
    ∷ text "0"
    ∷ text "0"
    ∷ []
    ∷ text "1"
    ∷ text "0"
    ∷ text "0"
    ∷ text "0"
    ∷ []

abbrev answered : Session
answered = record no_session {
  mbtypes = record {
    types =
        (
          text "7",
          record new_mbtypes {
            hr = point_at (text "4") (text "16") ∷ point_at (text "5") (text "32") ∷ [];
          },
        )
        ∷ [];
    typenum = [];
    current_type = [];
  };
  mbdevices = (text "s", record new_mbdevices { type = text "7" }) ∷ [];
  rtu_slave_to_sid = (text "1", text "s" ∷ []) ∷ [];
  current_sid = text "s";
  current_num = text "4";
  buffer = 1 ∷ 3 ∷ 6 ∷ 0 ∷ 9 ∷ 0 ∷ 1 ∷ 0 ∷ 2 ∷ 0 ∷ 0 ∷ [];
  len = 11;
}

answered-IsTiled :
    IsTiled
      (rows_of holding (locate_device answered).2)
      (atoi answered.current_num)
      0
      0
      (byte answered.buffer 2 / 2)
unfolding locate_device get_sid find_sid get modify contains same atoi to_string to_text first_row
    ◌+ℤ◌
answered-IsTiled = integer {i = 0} (point_at (text "4") (text "16")) 0 refl refl refl (
    integer {i = 1} (point_at (text "5") (text "32")) 1 refl refl refl
      (covered {i = 2} {owed = 0} refl ends))

parse_of-read_words_example : parse_hr floats false answered ≡ (
    read_words floats false 32 answered.buffer
      (rows_of holding (locate_device answered).2)
      (atoi answered.current_num)
      0
      3
      (unread holding (locate_device answered).1)
    >>= λ r. some (
        put_device
          (locate_device answered).0
          (with_registers holding (locate_device answered).1 r)
          (locate_device answered).3))
parse_of-read_words_example = parse_of-read_words holding floats false answered answered-IsTiled

-- Afterwards both points have been read, and both are measurements.
abbrev measured : Session
measured = record answered {
  mbdevices =
      (
        text "s",
        record new_mbdevices {
          type = text "7";
          hr_num = 2;
          hr = (text "200", text ",1" ∷ text ",1" ∷ []) ∷ [];
          template_msg = (text "200", text ",1" ∷ text ",1" ∷ []) ∷ [];
        },
      )
      ∷ [];
}

answered-parse_hr : parse_hr floats false answered ≡ some measured
unfolding parse_hr locate_device get_sid find_sid get modify contains assign same atoi to_string
    to_text ◌+ℤ◌ register_words register_effect forward_effect float_reserve put_device bat empty
answered-parse_hr = refl

parse_of-raises_example :
    contains
      (text "200")
      (get new_mbdevices (locate_device answered).0 measured.mbdevices).template_msg
    ≡ (contains (text "200") ((locate_device answered).1).template_msg
        || raised floats false 32 answered.buffer
            (rows_of holding (locate_device answered).2)
            (atoi answered.current_num)
            (text "200")
            0
            3)
parse_of-raises_example =
    parse_of-raises holding floats false answered measured (text "200") answered-IsTiled
      answered-parse_hr
