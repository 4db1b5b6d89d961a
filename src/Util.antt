-- ===== src/Util.antt =====
-- src/util.cpp: bit fields of a register, and the decoding of floats.
pub mod Decode
pub mod Fields
pub mod Around
pub mod Written
use modbus_ssa_project.Prelude.{
  ℕ, zero, suc, ◌+◌, ◌-◌, ◌*◌, ◌/◌, ◌%◌, ◌^◌, bit_and, bit_or, Bool, ◌||◌, List, Option, none, some,
  if◌then◌else◌, ltb, leb, ◌==◌, get_or, take,
}
use modbus_ssa_project.Prelude.Int.{ℤ, pos, negsuc, pos_part}
use modbus_ssa_project.Prelude.Text.{Text, text, same}
use modbus_ssa_project.Model.{Floats}

-- An `int` is its bit pattern below 2^32. `x >> k` repeats the sign, for k below 32.
abbrev pub shift_right : ℕ → ℕ → ℕ
shift_right x k = if ltb x (2 ^ 31) then x / 2 ^ k else x / 2 ^ k + (2 ^ 32 - 2 ^ (32 - k))

-- `~x + 1`
abbrev pub negated : ℕ → ℕ
negated x = (2 ^ 32 - x) % 2 ^ 32

-- `(1ULL << nb) - 1`, cut to 32 bits.
abbrev pub mask : ℕ → ℕ
mask nb = (2 ^ nb - 1) % 2 ^ 32

bat_signed : ℕ → ℕ → ℕ
bat_signed d nb =
    if nb == 1
    then d
    else if shift_right d (nb - 1) % 2 == 1
    then negated (bit_and (negated d) (mask nb))
    else bit_and d (mask nb)

-- bat; `none` where it shifts by more than the width, which is undefined.
unfoldable pub bat : ℕ → ℕ → ℕ → Text → Option ℕ
unfolding bat_signed
bat d sb nb is_signed =
    let t = ((2 ^ nb - 1) * 2 ^ sb) % 2 ^ 32 in
    let field = shift_right (bit_and d t) sb in
    if leb 32 sb || leb 64 nb
    then none
    else if same is_signed (text "true")
    then (if nb == 0 || leb 33 nb then none else some (bat_signed field nb))
    else some (bit_and field (mask nb))

-- The absolute value of an `int`: what `~value + 1` makes of a negative one.
abbrev pub absolute_value : ℤ → ℕ
absolute_value (pos n) = n
absolute_value (negsuc n) = suc n

-- unbat: the register with its field replaced, and `value` as it leaves it; `none` where a shift of an
-- `int` is undefined.
unfoldable pub unbat : ℕ → ℕ → ℕ → ℤ → Option (ℕ × ℤ)
unbat old sb nb value =
    let field = (2 ^ nb - 1) * 2 ^ sb in
    let kept = bit_and old (2 ^ 32 - 1 - field) in
    let v = absolute_value value in
    let joined = bit_or kept (v * 2 ^ sb) in
    if leb 31 nb || (leb 32 sb || (leb (2 ^ 31) field || leb (2 ^ 31) (v * 2 ^ sb)))
    then none
    else some (joined % 2 ^ 16, pos v)

-- The bit of a byte string at a position, the highest bit of the first byte first.
abbrev pub bit_at : List ℕ → ℕ → ℕ
bit_at buff i = get_or buff (i / 8) 0 / 2 ^ (7 - i % 8) % 2

-- The loop of getbitu, with the number of rounds left.
unfoldable pub getbitu_loop : List ℕ → ℕ → ℕ → ℕ → ℕ
getbitu_loop buff i zero bits = bits
getbitu_loop buff i (suc left) bits =
    getbitu_loop buff (i + 1) left ((bits * 2 % 2 ^ 32 + bit_at buff i) % 2 ^ 32)

-- getbitu
unfoldable pub getbitu : List ℕ → ℕ → ℕ → ℕ
unfolding getbitu_loop
getbitu buff start len = getbitu_loop buff start len 0

-- The loop of HexToFloat and HexToDouble over the bits from `i` on, with the number of rounds left.
-- For HexToFloat the value is in units of 2^-150, and `place` is `num2 + 150`; for HexToDouble it is
-- 1075 instead.
unfoldable pub float_loop : List ℕ → ℕ → ℕ → ℕ → ℕ → ℕ
unfolding getbitu
float_loop buf i zero place value = value
float_loop buf i (suc left) place value =
    float_loop buf (i + 1) left (place - 1) (value + getbitu buf i 1 * 2 ^ place)

-- HexToFloat: sign and absolute value in units of 2^-150, which `of_dyadic` makes a float. The first
-- bit behind the exponent is worth half of the implied one; 23 rounds end at bit 32. The source adds
-- in a float: each sum has 24 bits at most, so it is exact for the exponents 1 to 254; for 0 the last
-- sum alone is rounded, and for 255 the first is infinite already, as that of `of_dyadic` is.
unfoldable pub hex_to_float : List ℕ → Bool × ℕ
unfolding float_loop
hex_to_float buf =
    let num = getbitu buf 0 1 in
    let exponent = getbitu buf 1 8 in
    let place = exponent + 150 - 127 in
    let value = float_loop buf 9 23 (place - 1) (2 ^ place) in (num == 1, value)

-- HexToDouble: sign and absolute value in units of 2^-1075; 52 rounds end at bit 64.
unfoldable pub hex_to_double : List ℕ → Bool × ℕ
unfolding float_loop
hex_to_double buf =
    let num = getbitu buf 0 1 in
    let exponent = getbitu buf 1 11 in
    let place = exponent + 1075 - 1023 in
    let value = float_loop buf 12 52 (place - 1) (2 ^ place) in (num == 1, value)

-- floatReserve: `%.<point>f` in a buffer of 32 + point characters.
unfoldable pub float_reserve : (fl : Floats) → fl.Double → ℤ → Text
float_reserve fl f point = take (pos_part point + 32 - 1) (fl.print_fixed f point)
