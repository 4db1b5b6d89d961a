-- ===== src/Util/Decode.antt =====
-- getbitu and HexToFloat of src/util.cpp, against the bits of a byte string as a number.
use native.Mathlib.Nat.{pow-suc, pow-le-pow_right}
use modbus_ssa_project.Prelude.{
  ℕ, zero, suc, ◌+◌, ◌-◌, ◌*◌, ◌/◌, ◌%◌, ◌^◌, ◌≤◌, ◌<◌, ◌==◌, Bool, List, [], ◌∷◌, ◌≡◌, ap, ap₂,
  ◌∙◌, arith,
}
use modbus_ssa_project.Util.{bit_at, getbitu_loop, getbitu, float_loop, hex_to_float, hex_to_double}

-- The number that the bits from a position on make, the first the highest.
unfoldable pub bits_of : List ℕ → ℕ → ℕ → ℕ
bits_of buff i zero = 0
bits_of buff i (suc len) = bit_at buff i * 2 ^ len + bits_of buff (i + 1) len

pub pow_add : (a b : ℕ) → 2 ^ (a + b) ≡ 2 ^ a * 2 ^ b
pow_add zero b = ap (◌^◌ 2) (zero_plus b) ∙ one_times (2 ^ b)
  where
    zero_plus : (n : ℕ) → zero + n ≡ n
    zero_plus n = omega arith

    one_times : (n : ℕ) → n ≡ 2 ^ 0 * n
    one_times n = omega arith
pow_add (suc a) b =
    ap (◌^◌ 2) (suc_plus a b) ∙ grind (arith, pow-suc 2 (a + b), pow-suc 2 a, pow_add a b)
  where
    suc_plus : (m n : ℕ) → suc m + n ≡ suc (m + n)
    suc_plus m n = omega arith

shift_in : (v b x r : ℕ) → (v * 2 + b) * x + r ≡ v * (x * 2) + (b * x + r)
shift_in v b x r = grind arith

place_value : (v b x r y : ℕ) → v + b * (y * x) + r * y ≡ v + (b * x + r) * y
place_value v b x r y = grind arith

getbitu_loop-bits :
    (buff : List ℕ) (k i left v : ℕ)
    → v < 2 ^ k
    → k + left ≤ 32
    → getbitu_loop buff i left v ≡ v * 2 ^ left + bits_of buff i left
unfolding getbitu_loop bits_of
getbitu_loop-bits buff k i zero v small fits = omega arith
getbitu_loop-bits buff k i (suc left) v small fits = rw exact (
    getbitu_loop-bits buff (suc k) (i + 1) left next (omega (arith, pow-suc 2 k)) (omega arith)
    ∙ rw (pow-suc 2 left) (shift_in v (bit_at buff i) (2 ^ left) (bits_of buff (i + 1) left)))
  where
    next : ℕ
    next = v * 2 + bit_at buff i

    exact : (v * 2 % 2 ^ 32 + bit_at buff i) % 2 ^ 32 ≡ next
    exact = omega (
      arith,
      pow-suc 2 k,
      pow-le-pow_right {n = 2} (omega arith) {i = suc k} {j = 32} (omega arith),
    )

getbitu-bit : (buff : List ℕ) (i : ℕ) → getbitu buff i 1 ≡ bit_at buff i
unfolding getbitu getbitu_loop
getbitu-bit buff i = omega arith

float_loop-bits :
    (buff : List ℕ) (i left e v : ℕ)
    → float_loop buff i left (e + left - 1) v ≡ v + bits_of buff i left * 2 ^ e
unfolding float_loop bits_of
float_loop-bits buff i zero e v = omega arith
float_loop-bits buff i (suc left) e v =
    rw (shorter, value, pow_add e left)
      (float_loop-bits buff (i + 1) left e next
        ∙ place_value v (bit_at buff i) (2 ^ left) (bits_of buff (i + 1) left) (2 ^ e))
  where
    next : ℕ
    next = v + bit_at buff i * (2 ^ e * 2 ^ left)

    shorter : e + suc left - 1 ≡ e + left
    shorter = omega arith

    value : (0 + bit_at buff i) % 2 ^ 32 ≡ bit_at buff i
    value = omega arith

byte_bits :
    (b : ℕ)
    → b < 256
    → b / 128 % 2 * 128
        + b / 64 % 2 * 64
        + b / 32 % 2 * 32
        + b / 16 % 2 * 16
        + b / 8 % 2 * 8
        + b / 4 % 2 * 4
        + b / 2 % 2 * 2
        + b % 2
      ≡ b
byte_bits b h = omega arith

fraction :
    (a b c d : ℕ)
    → b < 256
    → c < 256
    → d < 256
    → bits_of (a ∷ b ∷ c ∷ d ∷ []) 9 23 ≡ b % 128 * 2 ^ 16 + c * 2 ^ 8 + d
unfolding bits_of
fraction a b c d hb hc hd = omega (arith, byte_bits b hb, byte_bits c hc, byte_bits d hd)

exponent :
    (a b c d : ℕ) → a < 256 → b < 256 → bits_of (a ∷ b ∷ c ∷ d ∷ []) 1 8 ≡ a % 128 * 2 + b / 128
unfolding bits_of
exponent a b c d ha hb = omega (arith, byte_bits a ha, byte_bits b hb)

-- getbitu is the number that up to 32 bits make.
pub getbitu-bits_of :
    (buff : List ℕ) (start len : ℕ) → len ≤ 32 → getbitu buff start len ≡ bits_of buff start len
unfolding getbitu
getbitu-bits_of buff start len fits =
    getbitu_loop-bits buff 0 start len 0 (omega arith) (omega arith) ∙ omega arith

magnitude :
    (buf : List ℕ) (e : ℕ)
    → float_loop buf 9 23 (e + 150 - 127 - 1) (2 ^ (e + 150 - 127))
      ≡ (2 ^ 23 + bits_of buf 9 23) * 2 ^ e
magnitude buf e =
    rw (place, pow_add e 23)
      (float_loop-bits buf 9 23 e (2 ^ e * 2 ^ 23) ∙ factored (2 ^ e) (bits_of buf 9 23))
  where
    place : e + 150 - 127 ≡ e + 23
    place = omega arith

    factored : (x r : ℕ) → x * 2 ^ 23 + r * x ≡ (2 ^ 23 + r) * x
    factored x r = grind arith

-- Sign, exponent and fraction of a binary32 as a number, in units of 2^-150, with an implied one.
abbrev pub ieee_single : ℕ → ℕ → ℕ → ℕ → Bool × ℕ
ieee_single a b c d =
    (a / 128 == 1, (2 ^ 23 + (b % 128 * 2 ^ 16 + c * 2 ^ 8 + d)) * 2 ^ (a % 128 * 2 + b / 128))

-- HexToFloat of four bytes is the number with the sign, the exponent and the fraction of a binary32,
-- for the exponents of normal numbers, which are 1 to 254.
pub hex_to_float-ieee_single :
    (a b c d : ℕ)
    → a < 256
    → b < 256
    → c < 256
    → d < 256
    → 0 < a % 128 * 2 + b / 128
    → a % 128 * 2 + b / 128 < 255
    → hex_to_float (a ∷ b ∷ c ∷ d ∷ []) ≡ ieee_single a b c d
unfolding hex_to_float
hex_to_float-ieee_single a b c d ha hb hc hd above below =
    ap₂ (λ x y. (x, y)) (ap (λ n. n == 1) sign)
      (magnitude buf (getbitu buf 1 8)
        ∙ ap₂ (λ r e. (2 ^ 23 + r) * 2 ^ e) (fraction a b c d hb hc hd)
            (getbitu-bits_of buf 1 8 (omega arith) ∙ exponent a b c d ha hb))
  where
    buf : List ℕ
    buf = a ∷ b ∷ c ∷ d ∷ []

    sign : getbitu buf 0 1 ≡ a / 128
    sign = getbitu-bit buf 0 ∙ omega arith

-- Sign, exponent and fraction of a binary64 as a number, in units of 2^-1075, with an implied one.
abbrev pub ieee_double : List ℕ → Bool × ℕ
ieee_double buf = (bit_at buf 0 == 1, (2 ^ 52 + bits_of buf 12 52) * 2 ^ bits_of buf 1 11)

-- HexToDouble is the number with the sign, the exponent and the fraction of a binary64, and with the
-- implied one for every exponent.
pub hex_to_double-ieee_double : (buf : List ℕ) → hex_to_double buf ≡ ieee_double buf
unfolding hex_to_double
hex_to_double-ieee_double buf =
    ap₂ (λ x y. (x, y)) (ap (λ n. n == 1) (getbitu-bit buf 0))
      (double (getbitu buf 1 11)
        ∙ ap (λ e. (2 ^ 52 + bits_of buf 12 52) * 2 ^ e) (getbitu-bits_of buf 1 11 (omega arith)))
  where
    double :
        (e : ℕ)
        → float_loop buf 12 52 (e + 1075 - 1023 - 1) (2 ^ (e + 1075 - 1023))
          ≡ (2 ^ 52 + bits_of buf 12 52) * 2 ^ e
    double e =
        rw (place, pow_add e 52)
          (float_loop-bits buf 12 52 e (2 ^ e * 2 ^ 52) ∙ factored (2 ^ e) (bits_of buf 12 52))
      where
        place : e + 1075 - 1023 ≡ e + 52
        place = omega arith

        factored : (x r : ℕ) → x * 2 ^ 52 + r * x ≡ (2 ^ 52 + r) * x
        factored x r = grind arith
