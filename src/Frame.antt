-- ===== src/Frame.antt =====
-- src/modbus_p.cpp: the checks of what a device has sent so far: the registration package, the
-- heartbeat, and a Modbus message. The buffer is `_data`; `len` is `*_pos - _data`.
pub mod Receive
pub mod Corrupt
pub mod Buffer
use modbus_ssa_project.Prelude.{
  ℕ, suc, ◌+◌, ◌-◌, ◌*◌, ◌%◌, ◌^◌, Bool, true, false, ◌||◌, List, [], ◌∷◌, Option, none, some,
  if◌then◌else◌, ltb, ◌==◌, get_or, take, drop,
}
use modbus_ssa_project.Prelude.Int.{ℤ, pos, negsuc, sub_ℕ}
use modbus_ssa_project.Prelude.Text.{Text, text, starts_with, behind, c_str, substr}
use modbus_ssa_project.Crc.{crc16}

abbrev pub regist_size : ℕ
regist_size = 19

abbrev pub regist_header_size : ℕ
regist_header_size = 4

abbrev pub header_len : ℕ
header_len = 3

abbrev pub mb_tcp_header_len : ℕ
mb_tcp_header_len = 7

abbrev pub crc_len : ℕ
crc_len = 2

abbrev pub byte : List ℕ → ℕ → ℕ
byte buffer i = get_or buffer i 0

-- The number of bytes that are missing, 0, or a negative code; and the device id, if one is found.
pub record RegCheck : Type 0 where
  pub result : ℤ
  pub did : Option Text

-- checkReg
unfoldable pub check_reg : List ℕ → ℕ → RegCheck
check_reg buffer len =
    if ltb len regist_size
    then record { result = pos (regist_size - len); did = none }
    else if starts_with (text "HTLZ") buffer
    then elim (behind (text "HTLZ") (c_str (drop 4 buffer))) [
      | some rest ↦ record { result = negsuc 0; did = none }
      | none ↦ record {
        result = pos 0;
        did = some (substr regist_header_size (regist_size - regist_header_size) (c_str buffer));
      }
    ]
    else record { result = negsuc 0; did = none }

-- checkHB
unfoldable pub check_hb : List ℕ → Bool
check_hb buffer = starts_with (text "LZH") buffer

-- The result of a check, and `_tcp_flag` after it.
pub record Check : Type 0 where
  pub result : ℤ
  pub tcp_flag : Bool

-- The comparison of the checksum at the end of `len` bytes; the length that `crc16` is called
-- with is a `uint16_t`.
unfoldable pub check_crc : List ℕ → ℕ → ℤ
check_crc buffer len =
    let str = crc16 (take ((len - 2) % 2 ^ 16) buffer) in
    let crc = (byte buffer (len - 1) * 2 ^ 8 + byte buffer (len - 2)) % 2 ^ 16 in
    if crc == str then pos 0 else negsuc 1

-- checkMP. The differences are of `u32` and become `int`.
unfoldable pub check_mp : List ℕ → ℕ → Bool → Check
unfolding check_crc
check_mp buffer len tcp_flag =
    if byte buffer 1 == 0x05 || byte buffer 1 == 0x06
    then (if ltb len (5 + 3)
        then record { result = pos (5 + 3 - len); tcp_flag = tcp_flag }
        else record { result = pos 0; tcp_flag = tcp_flag })
    else if byte buffer 2 == 0x00
    then (if ltb len mb_tcp_header_len
        then record { result = pos (mb_tcp_header_len - len); tcp_flag = true }
        else (let data_len = (byte buffer 4 * 2 ^ 8 + byte buffer 5) % 2 ^ 16 in
            if ltb len data_len
            then record { result = pos (data_len - len); tcp_flag = true }
            else record { result = pos 0; tcp_flag = true }))
    else if ltb 0x80 (byte buffer 1)
    then (if len == 5
        then record { result = check_crc buffer len; tcp_flag = false }
        else record { result = sub_ℕ 5 len; tcp_flag = false })
    else (let data_len = byte buffer 2 in
        if ltb len (data_len + crc_len + header_len)
        then record { result = sub_ℕ (data_len + crc_len) (len - header_len); tcp_flag = false }
        else record { result = check_crc buffer len; tcp_flag = false })

-- checkMsg; -1 is a heartbeat.
unfoldable pub check_msg : List ℕ → ℕ → Bool → Check
unfolding check_hb check_mp
check_msg buffer len tcp_flag =
    if ltb len header_len
    then record { result = pos (header_len - len); tcp_flag = tcp_flag }
    else if check_hb buffer
    then record { result = negsuc 0; tcp_flag = tcp_flag }
    else check_mp buffer len tcp_flag
