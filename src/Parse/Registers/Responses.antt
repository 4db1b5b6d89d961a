-- ===== src/Parse/Registers/Responses.antt =====
-- parseHR and parseIR of src/modbus_p.cpp on a response whose points cover its addresses.
use modbus_ssa_project.Prelude.{ℕ, ◌/◌, Bool, List, Option, some, ◌≡◌, refl}
use modbus_ssa_project.Prelude.Text.{atoi}
use modbus_ssa_project.Model.{Floats, Row, MbTypes}
use modbus_ssa_project.Prelude.{◌>>=◌}
use modbus_ssa_project.Parse.Registers.{Registers}
use modbus_ssa_project.Parse.Registers.{locate_device, parse_hr, parse_ir}
use modbus_ssa_project.Parse.Registers.Layout.{IsTiled, read_words}
use modbus_ssa_project.Frame.{byte}
use modbus_ssa_project.Parse.Coils.{put_device}
use modbus_ssa_project.Model.{MbDevices}
use modbus_ssa_project.Session.Record.{Session}
use modbus_ssa_project.Parse.Registers.Walk.{register_words-read_words}

-- parseHR and parseIR.
pub data RegisterKind : Type 0 where
  holding : RegisterKind
  input : RegisterKind

abbrev pub parse_of : RegisterKind → Floats → Bool → Session → Option Session
parse_of holding = parse_hr
parse_of input = parse_ir

-- The width of the variable that takes a number.
abbrev pub width_of : RegisterKind → ℕ
width_of holding = 32
width_of input = 16

abbrev pub rows_of : RegisterKind → MbTypes → List Row
rows_of holding t = t.hr
rows_of input t = t.ir

-- Before the first point.
abbrev pub unread : RegisterKind → MbDevices → Registers
unread holding d = record {
  p = 3;
  num = d.hr_num;
  maps = record { mp = d.hr; tm = d.template_msg };
  forward = d.forward_msg;
}
unread input d = record {
  p = 3;
  num = d.ir_num;
  maps = record { mp = d.ir; tm = d.template_msg };
  forward = d.forward_msg;
}

-- The device with what has been read.
abbrev pub with_registers : RegisterKind → MbDevices → Registers → MbDevices
with_registers holding d r = record d {
  hr_num = r.num;
  hr = (r.maps).mp;
  template_msg = (r.maps).tm;
  forward_msg = r.forward;
}
with_registers input d r = record d {
  ir_num = r.num;
  ir = (r.maps).mp;
  template_msg = (r.maps).tm;
  forward_msg = r.forward;
}

-- A response of registers is read at the bytes of its addresses: where the points of the device's
-- type cover the addresses of the response without a gap, each but the last a number with as many
-- bytes as its addresses have, parseHR and parseIR read every point at the two bytes that the protocol
-- gives its address, and put what they have read of them to the device of the response's slave.
pub parse_of-read_words :
    (kind : RegisterKind) (fl : Floats) (ends_equal : Bool) (cs : Session)
    → IsTiled (rows_of kind (locate_device cs).2) (atoi cs.current_num) 0 0 (byte cs.buffer 2 / 2)
    → parse_of kind fl ends_equal cs ≡ (
        read_words fl ends_equal
          (width_of kind)
          cs.buffer
          (rows_of kind (locate_device cs).2)
          (atoi cs.current_num)
          0
          (byte cs.buffer 2 / 2)
          (unread kind (locate_device cs).1)
        >>= λ r. some (
            put_device
              (locate_device cs).0
              (with_registers kind (locate_device cs).1 r)
              (locate_device cs).3))
unfolding parse_hr parse_ir
parse_of-read_words holding fl ends_equal cs tiled =
    rw
      (register_words-read_words fl ends_equal 32 cs.buffer ((locate_device cs).2).hr
        (atoi cs.current_num) (byte cs.buffer 2 / 2) (unread holding (locate_device cs).1) tiled
        refl)
      refl
parse_of-read_words input fl ends_equal cs tiled =
    rw
      (register_words-read_words fl ends_equal 16 cs.buffer ((locate_device cs).2).ir
        (atoi cs.current_num) (byte cs.buffer 2 / 2) (unread input (locate_device cs).1) tiled refl)
      refl
