-- ===== src/Tests.antt =====
-- Runs of the model at inputs of a device and a platform, and the theorems at such inputs.
mod Coils
mod Parts
mod Programs
mod Registers
mod Rounds
mod Sessions
mod Stalls
mod Values
use modbus_ssa_project.Prelude.{
  ℕ, zero, suc, ◌≡◌, ◌≢◌, refl, ◌⊎◌, true, false, List, [], ◌∷◌, some, arith,
}
use modbus_ssa_project.Prelude.Int.{ℤ, pos, negsuc, ◌+ℤ◌, ◌-ℤ◌, ◌≤ℤ◌}
use modbus_ssa_project.Prelude.Text.{Text, text, same, starts_with, to_string, behind, empty}
use modbus_ssa_project.Prelude.Map.{
  text_key, int_key, insert, last, contains, AllValues, modify, assign, erase,
}
use modbus_ssa_project.Crc.{crc16}
use modbus_ssa_project.Crc.Bitwise.{crc_reference, crc16-crc_reference}
use modbus_ssa_project.Frame.{check_crc, check_msg}
use modbus_ssa_project.Frame.Receive.{read_loop, IsResponse, read_loop-IsResponse, verdict}
use modbus_ssa_project.Frame.Corrupt.{with_crc, check_crc_one_byte}
use modbus_ssa_project.Model.{new_mbtypes, SrRecord, Floats, RangeMap, MbTypeTable, DeviceTable}
use modbus_ssa_project.Model.Devices.{add_device}
use modbus_ssa_project.Model.Dispatch.{undefined, handle, handle_all}
use modbus_ssa_project.Model.Ranges.{add_coil_range, add_register_range}
use modbus_ssa_project.Model.Ranges.Coverage.{
  Covered, Within, Covered-add_coil_range, Covered-add_register_range,
}
use modbus_ssa_project.Model.Ranges.Bounds.{add_register_range-le}
use modbus_ssa_project.Model.WellFormed.{IsWellFormed, Yields}
use modbus_ssa_project.Model.Safety.{handle_all-IsWellFormed, add_device-IsWellFormed}
use modbus_ssa_project.Model.Defined.{handle-defined}

-- A response of slave 1 with one holding register, 10.
abbrev body : List ℕ
body = 1 ∷ 3 ∷ 2 ∷ 0 ∷ 10 ∷ []

abbrev response : List ℕ
response = 1 ∷ 3 ∷ 2 ∷ 0 ∷ 10 ∷ 0x38 ∷ 0x43 ∷ []

response_crc : crc16 body ≡ 0x4338
unfolding crc16
response_crc = refl

response-IsResponse : IsResponse response
unfolding starts_with
response-IsResponse = record { no_heartbeat = refl; rtu = λ e. absurd (omega (arith, e)) }

-- Three bytes, one byte, and the rest.
abbrev pieces : List ℕ
pieces = 2 ∷ 0 ∷ 9 ∷ 0 ∷ 0 ∷ 0 ∷ 0 ∷ []

response_read : read_loop response pieces 0 3 false ≡ some (record { code = pos 0; bytes = 7 })
unfolding read_loop check_msg starts_with crc16
response_read = refl

read_loop-IsResponse_example :
    read_loop response pieces 0 3 false ≡ some (record { code = verdict response; bytes = 7 })
read_loop-IsResponse_example =
    read_loop-IsResponse 1 3 2 (0 ∷ 10 ∷ 0x38 ∷ 0x43 ∷ []) pieces false response-IsResponse refl
      (omega arith)

crc16-crc_reference_example : crc16 body ≡ crc_reference 0xFFFF body
crc16-crc_reference_example = crc16-crc_reference body (omega arith)

check_crc_one_byte_example :
    (check_crc (with_crc body (crc16 body)) 7 ≡ pos 0)
    × (check_crc (with_crc (1 ∷ 3 ∷ 2 ∷ 0 ∷ 11 ∷ []) (crc16 body)) 7 ≡ negsuc 1)
check_crc_one_byte_example =
    check_crc_one_byte (1 ∷ 3 ∷ 2 ∷ 0 ∷ []) [] 11 10 (omega arith) (omega arith) (omega arith)
      (λ e. absurd (omega (arith, e)))

-- Ranges from 1 to 3 and from 10 to 11.
abbrev ranges : RangeMap
ranges = (pos 1, pos 3) ∷ (pos 10, pos 2) ∷ []

coil_joins : add_coil_range (pos 12) ranges ≡ (pos 1, pos 3) ∷ (pos 10, pos 3) ∷ []
unfolding add_coil_range last ◌+ℤ◌
coil_joins = refl

coil_starts : add_coil_range (pos 5) ranges ≡ (pos 1, pos 3) ∷ (pos 5, pos 1) ∷ (pos 10, pos 2) ∷ []
unfolding add_coil_range last ◌+ℤ◌ insert
coil_starts = refl

Covered-add_coil_range_example :
    (Covered (pos 12) (add_coil_range (pos 12) ranges)
      → Covered (pos 12) ranges ⊎ (◌≡◌ {A = ℤ} (pos 12) (pos 12)))
    × (Covered (pos 12) ranges ⊎ (◌≡◌ {A = ℤ} (pos 12) (pos 12))
        → Covered (pos 12) (add_coil_range (pos 12) ranges))
Covered-add_coil_range_example = Covered-add_coil_range (pos 12) (pos 12) ranges (omega arith)

Covered-add_register_range_example :
    (Covered (pos 13) ranges → Covered (pos 13) (add_register_range (pos 12) (pos 2) ranges))
    × (((first count : ℤ) → last ranges ≡ some (first, count) → first +ℤ count -ℤ pos 1 ≤ℤ pos 12)
        → contains (pos 12) ranges ≡ false
        → Within (pos 12) (pos 2) (pos 13)
        → Covered (pos 13) (add_register_range (pos 12) (pos 2) ranges))
Covered-add_register_range_example =
    Covered-add_register_range (pos 13) (pos 12) (pos 2) ranges (omega arith) (omega arith)

add_register_range-le_example :
    AllValues (λ count. count ≤ℤ pos 125) (add_register_range (pos 12) (pos 1) ranges)
add_register_range-le_example =
    add_register_range-le (pos 12) (pos 1) 1 ranges (omega arith) (omega arith)

-- Arithmetic that keeps nothing, for what does not depend on it.
abbrev no_floats : Floats
no_floats = record {
  Double = ℤ;
  of_int = λ n. n;
  add = λ a b. a;
  mul = λ a b. a;
  div = λ a b. a;
  of_dyadic = λ s n. pos n;
  pow_ten = λ n. pos 1;
  atof = λ s. pos 1;
  print = λ d. text "1";
  print_fixed = λ d n. to_string d;
  positive = λ d. true;
}

-- A line of values.
abbrev line_of : List Text → ℕ → Text
line_of [] i = []
line_of (v ∷ vs) zero = v
line_of (v ∷ vs) (suc i) = line_of vs i

abbrev coils_of_7 : SrRecord
coils_of_7 = record { size = 3; value = line_of (text "839" ∷ [] ∷ text "7" ∷ []) }

abbrev coil_5 : SrRecord
coil_5 = record { size = 4; value = line_of (text "821" ∷ [] ∷ text "5" ∷ text "false" ∷ []) }

abbrev nothing : MbTypeTable
nothing = record { types = []; typenum = []; current_type = [] }

nothing-IsWellFormed : IsWellFormed nothing
nothing-IsWellFormed = record { typed = tt; vectors = tt }

abbrev link : Text
link = text "/inventory/managedObjects/7"

-- Device 42 of type 7 at slave 1.
abbrev device_42 : SrRecord
device_42 = record {
  size = 7;
  value = line_of (text "816" ∷ [] ∷ text "RTU" ∷ text "1" ∷ text "42" ∷ link ∷ text "pump" ∷ []);
}

abbrev loaded : DeviceTable × MbTypeTable
loaded = add_device device_42 ([], nothing)

-- The alarm of coil 5 of a type.
abbrev alarm_5 : SrRecord
alarm_5 = record {
  size = 6;
  value = line_of (text "822" ∷ [] ∷ text "5" ∷ text "hot" ∷ text "false" ∷ text "1" ∷ []);
}

abbrev with_coil : MbTypeTable
with_coil = record {
  types =
      (text "7", record new_mbtypes { co = (text "5" ∷ [] ∷ [] ∷ [] ∷ [] ∷ [] ∷ []) ∷ [] }) ∷ [];
  typenum = (text "7", [] ∷ [] ∷ [] ∷ [] ∷ []) ∷ [];
  current_type = text "7";
}

with_coil-IsWellFormed : IsWellFormed with_coil
with_coil-IsWellFormed = record {
  typed = (record { co-rows = (refl, tt); di-rows = tt; hr-rows = tt; ir-rows = tt }, tt);
  vectors = (omega arith, tt);
}

with_coil-known : contains (text "7") with_coil.typenum ≡ true
unfolding contains same
with_coil-known = refl

handle-defined_example : handle no_floats alarm_5 with_coil ≢ undefined
handle-defined_example =
    handle-defined no_floats alarm_5 with_coil with_coil-IsWellFormed with_coil-known

handle_all-IsWellFormed_example :
    Yields IsWellFormed (handle_all no_floats (coils_of_7 ∷ coil_5 ∷ []) loaded.1)
handle_all-IsWellFormed_example =
    handle_all-IsWellFormed no_floats (coils_of_7 ∷ coil_5 ∷ []) loaded.1
      (add_device-IsWellFormed device_42 [] nothing nothing-IsWellFormed)
