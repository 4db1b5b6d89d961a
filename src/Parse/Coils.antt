-- ===== src/Parse/Coils.antt =====
-- src/modbus_p.cpp: parseCO and parseDI. `none` is what the source leaves undefined: a shift by 32
-- or more, and the range maps of a type that has none.
pub mod Limits
pub mod Bits
pub mod Raises
use modbus_ssa_project.Prelude.{
  ℕ, zero, suc, ◌+◌, ◌*◌, ◌/◌, ◌%◌, ◌^◌, Bool, List, [], ◌∷◌, Option, none, some, if◌then◌else◌,
  leb, get_elem?, set,
}
use modbus_ssa_project.Prelude.Int.{ℤ, pos, ◌+ℤ◌, pos_part}
use modbus_ssa_project.Prelude.Text.{Text, same, atoi, to_string}
use modbus_ssa_project.Prelude.Map.{text_key, int_key, get, modify, assign}
use modbus_ssa_project.Model.Position
use modbus_ssa_project.Model.{Row, field, MbTypes, new_mbtypes, MbDevices, new_mbdevices}
use modbus_ssa_project.Prelude.{◌>>=◌}
use modbus_ssa_project.Frame.{byte}
use modbus_ssa_project.Parse.Effects.{Maps, coil_effect}
use modbus_ssa_project.Parse.Sid.{get_sid}
use modbus_ssa_project.Session.Record.{Session}

-- `data += *p << (i * 8)`, with the bytes that are left. A byte is an `int` of 32 bits.
unfoldable pub collect : List ℕ → ℕ → ℕ → ℕ → Option ℕ
collect buffer i zero sum = some sum
collect buffer i (suc left) sum =
    let rest = collect buffer (i + 1) left ((sum + byte buffer (3 + i) * 2 ^ (i * 8)) % 2 ^ 32) in
    if leb 4 i then none else rest

-- How many points of the device have been read, and its messages.
pub record Collected : Type 0 where
  pub num : ℕ
  pub maps : Maps

-- The points at an address, each of which gets the bit `d`.
unfoldable pub coil_rows : Bool → Text → ℕ → List Row → Collected → Collected
coil_rows ends_equal number d [] c = c
coil_rows ends_equal number d (v ∷ rows) c = coil_rows ends_equal number d rows (
    if same (field v Position.number) number
    then record { num = c.num + 1; maps = coil_effect ends_equal v d c.maps }
    else c)

-- The bits from `j` on, with the number of rounds left.
unfoldable pub coil_bits : Bool → List Row → ℕ → ℤ → ℕ → ℕ → Collected → Option Collected
unfolding coil_rows
coil_bits ends_equal rows sum cn j zero c = some c
coil_bits ends_equal rows sum cn j (suc left) c =
    let rest =
      coil_bits ends_equal rows sum cn (j + 1) left
        (coil_rows ends_equal (to_string (cn +ℤ pos j)) (sum / 2 ^ j % 2) rows c) in
    if leb 32 j then none else rest

-- What a response is read with: the device, its type, the first address and the number of points,
-- and the session with the entries that the look-ups create.
pub record Located : Type 0 where
  pub sid : Text
  pub device : MbDevices
  pub points : MbTypes
  pub cn : ℤ
  pub count : ℤ
  pub cs : Session

-- The look-up that parseCO and parseDI begin with.
unfoldable pub locate : ℕ → Session → Option Located
unfolding get_sid
locate place cs₀ =
    let sid = (get_sid cs₀).0 in
    let cs = (get_sid cs₀).1 in
    let cn = atoi cs.current_num in
    let devices = modify new_mbdevices sid (λ d. d) cs.mbdevices in
    let device = get new_mbdevices sid devices in
    let types = modify new_mbtypes device.type (λ t. t) cs.mbtypes.types in
    let vector = get [] device.type cs.mbtypes.typenum in
    do
      ranges ← get_elem? vector place
      let counted = modify (pos 0) cn (λ n. n) ranges
      some (record {
        sid = sid;
        device = device;
        points = get new_mbtypes device.type types;
        cn = cn;
        count = get (pos 0) cn counted;
        cs = record cs {
          mbdevices = devices;
          mbtypes = record (cs.mbtypes) {
            types = types;
            typenum = assign device.type (set vector place counted) cs.mbtypes.typenum;
          };
        };
      })

unfoldable pub put_device : Text → MbDevices → Session → Session
put_device sid device cs = record cs { mbdevices = assign sid device cs.mbdevices }

-- parseCO
unfoldable pub parse_co : Bool → Session → Option Session
unfolding locate collect coil_bits put_device
parse_co ends_equal cs = do
  l ← locate Position.co_pos cs
  sum ← collect cs.buffer 0 (byte cs.buffer 2) 0
  c ← coil_bits ends_equal (l.points).co sum l.cn 0 (pos_part l.count) (record {
    num = (l.device).co_num;
    maps = record { mp = (l.device).co; tm = (l.device).template_msg };
  })
  some (
      put_device l.sid
        (record (l.device) { co_num = c.num; co = (c.maps).mp; template_msg = (c.maps).tm }) l.cs)

-- parseDI
unfoldable pub parse_di : Bool → Session → Option Session
unfolding locate collect coil_bits put_device
parse_di ends_equal cs = do
  l ← locate Position.di_pos cs
  sum ← collect cs.buffer 0 (byte cs.buffer 2) 0
  c ← coil_bits ends_equal (l.points).di sum l.cn 0 (pos_part l.count) (record {
    num = (l.device).di_num;
    maps = record { mp = (l.device).di; tm = (l.device).template_msg };
  })
  some (
      put_device l.sid
        (record (l.device) { di_num = c.num; di = (c.maps).mp; template_msg = (c.maps).tm }) l.cs)
