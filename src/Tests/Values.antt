-- ===== src/Tests/Values.antt =====
-- The theorems on the values of responses, at the bytes of 12.5 and of 0x01020304.
use modbus_ssa_project.Prelude.{ℕ, ◌≡◌, ◌/◌, ◌%◌, false, none, some, List, [], ◌∷◌, ◌*◌, ◌^◌, arith}
use modbus_ssa_project.Prelude.Int.{pos, negsuc}
use modbus_ssa_project.Prelude.Text.{text, same}
use modbus_ssa_project.Util.{bat, unbat, hex_to_float}
use modbus_ssa_project.Util.Fields.{field_value, bat-field_value}
use modbus_ssa_project.Util.Written.{replaced, bat-unbat}
use modbus_ssa_project.Util.Decode.{hex_to_float-ieee_single}
use modbus_ssa_project.Session.Record.{Session}
use modbus_ssa_project.Tests.Sessions.{no_session}
use modbus_ssa_project.Parse.Coils.{parse_co, parse_di}
use modbus_ssa_project.Parse.Coils.Limits.{parse_long_undefined}
use modbus_ssa_project.Parse.Registers.{decode}
use modbus_ssa_project.Parse.Registers.Orders.{words_swapped, decode-encoded}

abbrev twelve_and_a_half : List ℕ
twelve_and_a_half = 0x41 ∷ 0x48 ∷ 0 ∷ 0 ∷ []

-- 1.5625 * 2^3, in units of 2^-150.
hex_to_float-ieee_single_example : hex_to_float twelve_and_a_half ≡ (false, 0xC80000 * 2 ^ 130)
hex_to_float-ieee_single_example =
    hex_to_float-ieee_single 0x41 0x48 0 0 (omega arith) (omega arith) (omega arith) (omega arith)
      (omega arith) (omega arith)

decode-encoded_example : decode 32 (1 ∷ 3 ∷ 4 ∷ 3 ∷ 4 ∷ 1 ∷ 2 ∷ 0 ∷ 0 ∷ []) 3 4 (pos 5) ≡ 0x01020304
decode-encoded_example =
    decode-encoded words_swapped 32 0x01020304 (1 ∷ 3 ∷ 4 ∷ []) (0 ∷ 0 ∷ []) (omega arith)

-- The answer with five bytes of coils.
abbrev five_bytes : Session
five_bytes = record no_session { buffer = 1 ∷ 1 ∷ 5 ∷ 0 ∷ 0 ∷ 0 ∷ 0 ∷ 1 ∷ [] }

parse_long_undefined_example :
    (parse_co false five_bytes ≡ none) × (parse_di false five_bytes ≡ none)
parse_long_undefined_example = parse_long_undefined false five_bytes (omega arith)

-- A signed field of four bits, all of them set, is -1.
bat-field_value_example :
    bat 0x0F00 8 4 (text "true")
    ≡ some (field_value (same (text "true") (text "true")) 4 (0x0F00 / 2 ^ 8 % 2 ^ 4))
bat-field_value_example =
    bat-field_value 0x0F00 8 4 (text "true") (omega arith) (omega arith) (omega arith)

bat-unbat_example :
    (unbat 0xABCD 4 8 (negsuc 4) ≡ some (replaced 0xABCD 4 8 5, pos 5))
    × (bat (replaced 0xABCD 4 8 5) 4 8 (text "true")
        ≡ some (field_value (same (text "true") (text "true")) 8 5))
bat-unbat_example =
    bat-unbat 0xABCD 4 8 (negsuc 4) (text "true") (omega arith) (omega arith) (omega arith)
      (omega arith)
