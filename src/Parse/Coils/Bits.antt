-- ===== src/Parse/Coils/Bits.antt =====
-- The bits of a response of coils (parseCO and parseDI of src/modbus_p.cpp): the lowest bit of the
-- first byte is that of the first address.
use native.Mathlib.Nat.{div-div-eq-div-mul}
use modbus_ssa_project.Prelude.{
  ℕ, zero, suc, ◌+◌, ◌-◌, ◌*◌, ◌/◌, ◌%◌, ◌^◌, ◌≤◌, ◌<◌, ltb, leb, Bool, false, List, Option, some,
  ◌≡◌, refl, ap, ap₂, sym, ◌∙◌, Bool-cases, inl, inr, arith,
}
use modbus_ssa_project.Prelude.Int.{ℤ, pos, ◌+ℤ◌, pos_part}
use modbus_ssa_project.Prelude.Text.{to_string}
use modbus_ssa_project.Model.Position
use modbus_ssa_project.Util.Decode.{pow_add}
use modbus_ssa_project.Model.{Row, MbTypes, MbDevices}
use modbus_ssa_project.Frame.{byte}
use modbus_ssa_project.Session.Record.{Session}
use modbus_ssa_project.Parse.Coils.{
  collect, coil_rows, coil_bits, Collected, Located, locate, put_device, parse_co, parse_di,
}

-- Every entry of a buffer is a byte.
abbrev pub IsBytes : List ℕ → Type 0
IsBytes buffer = (i : ℕ) → byte buffer i < 256

-- The bit of a response for the address `j` behind its first.
abbrev pub response_bit : List ℕ → ℕ → ℕ
response_bit buffer j = byte buffer (3 + j / 8) / 2 ^ (j % 8) % 2

-- Bytes as a number, the first the lowest.
little_endian : List ℕ → ℕ → ℕ → ℕ
little_endian buffer p zero = 0
little_endian buffer p (suc n) = byte buffer p + little_endian buffer (p + 1) n * 256

collect-little_endian :
    (buffer : List ℕ) (n : ℕ)
    → n ≤ 4
    → IsBytes buffer
    → collect buffer 0 n 0 ≡ some (little_endian buffer 3 n)
unfolding collect little_endian
collect-little_endian buffer zero h b = refl
collect-little_endian buffer (suc zero) h b = ap some (omega (arith, b 3))
collect-little_endian buffer (suc (suc zero)) h b = ap some (omega (arith, b 3, b 4))
collect-little_endian buffer (suc (suc (suc zero))) h b = ap some (omega (arith, b 3, b 4, b 5))
collect-little_endian buffer (suc (suc (suc (suc zero)))) h b =
    ap some (omega (arith, b 3, b 4, b 5, b 6))
collect-little_endian buffer (suc (suc (suc (suc (suc n))))) h b = absurd (omega arith)

low_bit : (a y j : ℕ) → j < 8 → (a + y * 256) / 2 ^ j % 2 ≡ a / 2 ^ j % 2
low_bit a y zero h = omega arith
low_bit a y (suc zero) h = omega arith
low_bit a y (suc (suc zero)) h = omega arith
low_bit a y (suc (suc (suc zero))) h = omega arith
low_bit a y (suc (suc (suc (suc zero)))) h = omega arith
low_bit a y (suc (suc (suc (suc (suc zero))))) h = omega arith
low_bit a y (suc (suc (suc (suc (suc (suc zero)))))) h = omega arith
low_bit a y (suc (suc (suc (suc (suc (suc (suc zero))))))) h = omega arith
low_bit a y (suc (suc (suc (suc (suc (suc (suc (suc j)))))))) h = absurd (omega arith)

high_bit : (a y k : ℕ) → a < 256 → (a + y * 256) / 2 ^ (8 + k) % 2 ≡ y / 2 ^ k % 2
high_bit a y k h =
    rw (pow_add 8 k, sym (div-div-eq-div-mul (a + y * 256) (2 ^ 8) (2 ^ k)), shifted) refl
  where
    shifted : (a + y * 256) / 2 ^ 8 ≡ y
    shifted = omega arith

bit-little_endian :
    (buffer : List ℕ) (n p j : ℕ)
    → IsBytes buffer
    → j < 8 * n
    → little_endian buffer p n / 2 ^ j % 2 ≡ byte buffer (p + j / 8) / 2 ^ (j % 8) % 2
unfolding little_endian
bit-little_endian buffer zero p j b h = absurd (omega arith)
bit-little_endian buffer (suc n) p j b h = elim (Bool-cases (ltb j 8)) [
  | inl e ↦
      low_bit (byte buffer p) (little_endian buffer (p + 1) n) j (ground arith)
      ∙ ap₂ (λ i k. byte buffer i / 2 ^ k % 2) (first_place (ground arith))
          (first_bit (ground arith))
  | inr e ↦
      later (j - 8) (ground arith) (bit-little_endian buffer n (p + 1) (j - 8) b (ground arith))
]
  where
    first_place : j < 8 → p ≡ p + j / 8
    first_place l = omega arith

    first_bit : j < 8 → j ≡ j % 8
    first_bit l = omega arith

    next_place : (k : ℕ) → p + 1 + k / 8 ≡ p + (8 + k) / 8
    next_place k = omega arith

    next_bit : (k : ℕ) → k % 8 ≡ (8 + k) % 8
    next_bit k = omega arith

    later :
        (k : ℕ)
        → j ≡ 8 + k
        → little_endian buffer (p + 1) n / 2 ^ k % 2 ≡ byte buffer (p + 1 + k / 8) / 2 ^ (k % 8) % 2
        → (byte buffer p + little_endian buffer (p + 1) n * 256) / 2 ^ j % 2
          ≡ byte buffer (p + j / 8) / 2 ^ (j % 8) % 2
    later k e ih = rw e (
        high_bit (byte buffer p) (little_endian buffer (p + 1) n) k (b p)
        ∙ (ih ∙ ap₂ (λ i m. byte buffer i / 2 ^ m % 2) (next_place k) (next_bit k)))

-- What the points of `left` addresses from the `j`th on make of the messages, each with its bit.
unfoldable pub read_bits : Bool → List Row → List ℕ → ℤ → ℕ → ℕ → Collected → Collected
read_bits ends_equal rows buffer cn j zero c = c
read_bits ends_equal rows buffer cn j (suc left) c =
    read_bits ends_equal rows buffer cn (j + 1) left
      (coil_rows ends_equal (to_string (cn +ℤ pos j)) (response_bit buffer j) rows c)

module _ (ends_equal : Bool) (rows : List Row) (buffer : List ℕ) (b : IsBytes buffer) (cn : ℤ)
    (n : ℕ) (fits : n ≤ 4) where
  coil_bits-read_bits :
      (j left : ℕ) (c : Collected)
      → j + left ≤ 8 * n
      → coil_bits ends_equal rows (little_endian buffer 3 n) cn j left c
        ≡ some (read_bits ends_equal rows buffer cn j left c)
  unfolding coil_bits read_bits
  coil_bits-read_bits j zero c h = refl
  coil_bits-read_bits j (suc left) c h =
      rw (short, bit-little_endian buffer n 3 j b (omega arith))
        (coil_bits-read_bits (j + 1) left
          (coil_rows ends_equal (to_string (cn +ℤ pos j)) (response_bit buffer j) rows c)
          (omega arith))
    where
      short : leb 32 j ≡ false
      short = ground arith

-- parseCO and parseDI.
pub data CoilKind : Type 0 where
  coils : CoilKind
  inputs : CoilKind

abbrev pub parse_bits : CoilKind → Bool → Session → Option Session
parse_bits coils = parse_co
parse_bits inputs = parse_di

abbrev pub place_of : CoilKind → ℕ
place_of coils = Position.co_pos
place_of inputs = Position.di_pos

abbrev pub rows_of : CoilKind → MbTypes → List Row
rows_of coils t = t.co
rows_of inputs t = t.di

-- What the device has collected of the kind before.
abbrev pub before : CoilKind → MbDevices → Collected
before coils d = record { num = d.co_num; maps = record { mp = d.co; tm = d.template_msg } }
before inputs d = record { num = d.di_num; maps = record { mp = d.di; tm = d.template_msg } }

-- The device with what has been read.
abbrev pub with_bits : CoilKind → MbDevices → Collected → MbDevices
with_bits coils d c = record d { co_num = c.num; co = (c.maps).mp; template_msg = (c.maps).tm }
with_bits inputs d c = record d { di_num = c.num; di = (c.maps).mp; template_msg = (c.maps).tm }

-- A response of up to four bytes of coils or discrete inputs gives every address, from the one asked
-- for on, its bit in the protocol's order, the lowest bit of the first byte first; where no more were
-- asked for than the bytes have bits. It is read to its end, and goes to the device of its slave.
pub parse_bits-read_bits :
    (kind : CoilKind) (ends_equal : Bool) (cs : Session) (l : Located)
    → IsBytes cs.buffer
    → locate (place_of kind) cs ≡ some l
    → byte cs.buffer 2 ≤ 4
    → pos_part l.count ≤ 8 * byte cs.buffer 2
    → parse_bits kind ends_equal cs
      ≡ some (
          put_device l.sid
            (with_bits kind l.device (
              read_bits ends_equal
                (rows_of kind l.points)
                cs.buffer
                l.cn
                0
                (pos_part l.count)
                (before kind l.device)))
            l.cs)
unfolding parse_co parse_di
parse_bits-read_bits coils ends_equal cs l b e fits count =
    rw
      (
        e,
        collect-little_endian cs.buffer (byte cs.buffer 2) fits b,
        coil_bits-read_bits ends_equal (l.points).co cs.buffer b l.cn (byte cs.buffer 2) fits 0
            (pos_part l.count) (before coils l.device) (omega arith),
      )
      refl
parse_bits-read_bits inputs ends_equal cs l b e fits count =
    rw
      (
        e,
        collect-little_endian cs.buffer (byte cs.buffer 2) fits b,
        coil_bits-read_bits ends_equal (l.points).di cs.buffer b l.cn (byte cs.buffer 2) fits 0
            (pos_part l.count) (before inputs l.device) (omega arith),
      )
      refl
