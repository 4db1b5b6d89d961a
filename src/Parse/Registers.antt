-- ===== src/Parse/Registers.antt =====
-- src/modbus_p.cpp: parseHR and parseIR. `none` is what the source leaves undefined: a copy of four
-- bytes into a shorter buffer, a shift by more than the width. A negative number of bits, which
-- would move the pointer back, is `none` too.
pub mod Orders
pub mod Layout
pub mod Walk
pub mod Responses
pub mod Raises
pub mod Messages
use modbus_ssa_project.Prelude.{
  ℕ, zero, suc, ◌+◌, ◌-◌, ◌*◌, ◌/◌, ◌%◌, ◌^◌, Bool, ◌||◌, List, [], ◌∷◌, Option, none, some,
  if◌then◌else◌, ltb, ◌==◌, take, drop,
}
use modbus_ssa_project.Prelude.Int.{ℤ, pos, negsuc, ◌+ℤ◌, eq_ℤ}
use modbus_ssa_project.Prelude.Text.{Text, text, same, atoi, to_string}
use modbus_ssa_project.Prelude.Map.{text_key, get, modify}
use modbus_ssa_project.Model.Position
use modbus_ssa_project.Model.{
  Floats, Row, field, MbTypes, new_mbtypes, MsgMap, MbDevices, new_mbdevices,
}
use modbus_ssa_project.Util.{bat, hex_to_float, float_reserve}
use modbus_ssa_project.Frame.{byte}
use modbus_ssa_project.Parse.Effects.{Maps, register_effect, forward_effect}
use modbus_ssa_project.Prelude.{◌>>=◌}
use modbus_ssa_project.Parse.Coils.{put_device}
use modbus_ssa_project.Parse.Sid.{get_sid}
use modbus_ssa_project.Session.Record.{Session}

-- Four bytes as a number, the first the highest.
abbrev pub four : ℕ → ℕ → ℕ → ℕ → ℕ
four a b c d = a * 2 ^ 24 + b * 2 ^ 16 + c * 2 ^ 8 + d

-- The `switch (bytes)` over the bytes at `p`. Its first case runs on into the second. `width` is
-- that of the variable which takes the number: 32 in parseHR and 16 in parseIR.
unfoldable pub decode : ℕ → List ℕ → ℕ → ℕ → ℤ → ℕ
decode width buffer p bytes analytical_type =
    let a = byte buffer p in
    let b = byte buffer (p + 1) in
    let c = byte buffer (p + 2) in
    let d = byte buffer (p + 3) in
    let two : ℕ =
      if bytes == 2
      then (if eq_ℤ analytical_type (pos 0) then a * 2 ^ 8 + b else b * 2 ^ 8 + a)
      else 0 in
    let number =
      if bytes == 2 || bytes == 4
      then (if eq_ℤ analytical_type (pos 2)
          then four a b c d
          else if eq_ℤ analytical_type (pos 3)
          then four d c b a
          else if eq_ℤ analytical_type (pos 4)
          then four b a d c
          else if eq_ℤ analytical_type (pos 5)
          then four c d a b
          else two)
      else two in
    number % 2 ^ width

-- The `int` of a bit pattern.
abbrev pub signed32 : ℕ → ℤ
signed32 w = if ltb w (2 ^ 31) then pos w else negsuc (2 ^ 32 - w - 1)

abbrev pub natural : ℤ → Option ℕ
natural (pos n) = some n
natural (negsuc n) = none

-- The number of bits of a row, as bytes.
abbrev pub bytes_of : Row → Option ℕ
bytes_of v = natural (atoi (field v Position.no_bits)) >>= λ n. some (n / 8)

-- What has been read: the place in the buffer, the number of points, and the messages.
pub record Registers : Type 0 where
  pub p : ℕ
  pub num : ℕ
  pub maps : Maps
  pub forward : MsgMap

module _ (fl : Floats) (ends_equal : Bool) (width : ℕ) (buffer : List ℕ) where
  -- The value of a point that is not a float, from its bits.
  unfoldable pub integer_value : Row → ℕ → Option (fl.Double)
  unfolding decode
  integer_value v p = do
    bytes ← bytes_of v
    sb ← natural (atoi (field v Position.start_bits))
    nb ← natural (atoi (field v Position.no_bits))
    d ←
        bat (decode width buffer p bytes (atoi (field v Position.analytical_type))) sb nb
          (field v Position.sign)
    some (fl.mul (fl.of_int (signed32 d)) (fl.atof (field v Position.factor)))

  -- The value of a float.
  unfoldable pub float_value : Row → ℕ → Option (fl.Double)
  float_value v p = do
    bytes ← bytes_of v
    let bits = hex_to_float (take 4 (drop p buffer))
    if ltb bytes 4 then none else some (fl.of_dyadic bits.0 bits.1)

  -- One point: its value, scaled, and where the pointer stands afterwards.
  unfoldable pub read_point : Row → ℕ → Option (fl.Double × ℕ)
  unfolding integer_value float_value
  read_point v p = do
    bytes ← bytes_of v
    let is_integer = same (field v Position.is_float_type) (text "0")
    raw ← if is_integer then integer_value v p else float_value v p
    let scaled = fl.mul (fl.atof (field v Position.weight)) raw
    some (fl.add scaled (fl.atof (field v Position.bias)), if is_integer then p + bytes else p)

  unfoldable pub register_point : Row → Registers → Option Registers
  unfolding read_point
  register_point v r = do
    value ← read_point v r.p
    let s_data = float_reserve fl value.0 (atoi (field v Position.point))
    some (record {
      p = value.1;
      num = r.num + 1;
      maps = register_effect ends_equal v (fl.positive value.0) s_data r.maps;
      forward = forward_effect v s_data r.forward;
    })

  -- The first row of an address; the loop breaks behind it.
  unfoldable pub register_rows : Text → List Row → Registers → Option Registers
  unfolding register_point
  register_rows number [] r = some r
  register_rows number (v ∷ rows) r =
      if same (field v Position.number) number
      then register_point v r
      else register_rows number rows r

  -- The addresses from `cn + i` on, with the number of rounds left.
  unfoldable pub register_words : List Row → ℤ → ℕ → ℕ → Registers → Option Registers
  unfolding register_rows
  register_words rows cn i zero r = some r
  register_words rows cn i (suc left) r = register_rows (to_string (cn +ℤ pos i)) rows r >>= λ r'.
      register_words rows cn (i + 1) left r'

-- The session with the entries that the look-ups of parseHR and parseIR create, the sid and the
-- device.
unfoldable pub locate_device : Session → Text × MbDevices × MbTypes × Session
unfolding get_sid
locate_device cs₀ =
    let sid = (get_sid cs₀).0 in
    let cs = (get_sid cs₀).1 in
    let devices = modify new_mbdevices sid (λ d. d) cs.mbdevices in
    let device = get new_mbdevices sid devices in
    let types = modify new_mbtypes device.type (λ t. t) cs.mbtypes.types in
    (
      sid,
      device,
      get new_mbtypes device.type types,
      record cs { mbdevices = devices; mbtypes = record (cs.mbtypes) { types = types } },
    )

-- parseHR
unfoldable pub parse_hr : Floats → Bool → Session → Option Session
unfolding locate_device register_words put_device
parse_hr fl ends_equal cs =
    let l = locate_device cs in
    do
      r ←
          register_words fl ends_equal 32 cs.buffer (l.2).hr (atoi cs.current_num) 0
            (byte cs.buffer 2 / 2)
            (record {
              p = 3;
              num = (l.1).hr_num;
              maps = record { mp = (l.1).hr; tm = (l.1).template_msg };
              forward = (l.1).forward_msg;
            })
      some (
          put_device l.0
            (record (l.1) {
              hr_num = r.num;
              hr = (r.maps).mp;
              template_msg = (r.maps).tm;
              forward_msg = r.forward;
            })
            l.3)

-- parseIR
unfoldable pub parse_ir : Floats → Bool → Session → Option Session
unfolding locate_device register_words put_device
parse_ir fl ends_equal cs =
    let l = locate_device cs in
    do
      r ←
          register_words fl ends_equal 16 cs.buffer (l.2).ir (atoi cs.current_num) 0
            (byte cs.buffer 2 / 2)
            (record {
              p = 3;
              num = (l.1).ir_num;
              maps = record { mp = (l.1).ir; tm = (l.1).template_msg };
              forward = (l.1).forward_msg;
            })
      some (
          put_device l.0
            (record (l.1) {
              ir_num = r.num;
              ir = (r.maps).mp;
              template_msg = (r.maps).tm;
              forward_msg = r.forward;
            })
            l.3)
