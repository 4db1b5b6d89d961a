-- ===== src/Util/Around.antt =====
-- `&` with the complement of a field, and `|` of numbers without a common digit, as arithmetic: what
-- unbat of src/util.cpp does to the other bits.
use Prim.Native.Nat.{min, max}
use native.Mathlib.Nat.{
  pow-suc, pow-le-pow_right, div-div-eq-div-mul, mod-eq_of_lt, div-lt_iff_lt-mul,
  mul-lt-mul_of_pos_right,
}
use modbus_ssa_project.Prelude.{
  ℕ, zero, suc, ◌+◌, ◌-◌, ◌*◌, ◌/◌, ◌%◌, ◌^◌, ◌≤◌, ◌<◌, bit_and, bit_or, ◌≡◌, refl, ap, sym, ◌∙◌,
  arith,
}
use modbus_ssa_project.Crc.Xor.{bit_or_step, shifted-suc, half-shifted}
use modbus_ssa_project.Util.Decode.{pow_add}
use modbus_ssa_project.Util.Fields.{
  bit_and_step, bit_and-half, bit_and-odd, bit_and-none, positive, mod_double, bit_and-low,
  bit_and-shifted,
}

min_zero : (y : ℕ) → y < 2 → min 0 y ≡ 0
min_zero zero h = refl
min_zero (suc zero) h = refl
min_zero (suc (suc y)) h = absurd (omega arith)

-- A multiple of `2 ^ n` and a number below it have no digit in common.
pub apart : (n h v : ℕ) → v < 2 ^ n → bit_and (h * 2 ^ n) v ≡ 0
apart zero h v l =
    ap (bit_and (h * 2 ^ 0)) none_left ∙ bit_and-none (h * 2 ^ 0) (h * 2 ^ 0) (omega arith)
  where
    none_left : v ≡ 0
    none_left = omega (arith, l)
apart (suc n) h v l = omega (
  arith,
  bit_and_step (h * 2 ^ suc n) v,
  low,
  ap (λ x. bit_and x (v / 2)) (half-shifted h n),
  apart n h (v / 2) (omega (arith, l, pow-suc 2 n)),
)
  where
    low : min (h * 2 ^ suc n % 2) (v % 2) ≡ 0
    low = ap (λ x. min x (v % 2)) even ∙ min_zero (v % 2) (omega arith)
      where
        even : h * 2 ^ suc n % 2 ≡ 0
        even = omega (arith, shifted-suc h n)

digits_sum : (a b : ℕ) → a < 2 → b < 2 → min a b ≡ 0 → max a b ≡ a + b
digits_sum zero zero p q h = refl
digits_sum zero (suc zero) p q h = refl
digits_sum zero (suc (suc b)) p q h = absurd (omega arith)
digits_sum (suc zero) zero p q h = refl
digits_sum (suc zero) (suc b) p q h = absurd (omega (arith, h))
digits_sum (suc (suc a)) b p q h = absurd (omega arith)

-- `|` adds what has no digit in common.
pub bit_or_fuel : (n a b : ℕ) → a + b ≤ n → bit_and a b ≡ 0 → bit_or a b ≡ a + b
bit_or_fuel zero zero zero h e = refl
bit_or_fuel zero (suc a) b h e = absurd (omega arith)
bit_or_fuel zero zero (suc b) h e = absurd (omega arith)
bit_or_fuel (suc n) a b h e = ground (
  arith,
  bit_and_step a b,
  bit_or_step a b,
  digits_sum (a % 2) (b % 2) (omega arith) (omega arith),
  bit_or_fuel n (a / 2) (b / 2),
)

-- What is left of `x` without the `nb` digits from the `sb`th on.
abbrev pub around : ℕ → ℕ → ℕ → ℕ
around x sb nb = x / 2 ^ (sb + nb) * 2 ^ (sb + nb) + x % 2 ^ sb

pub field_below : (w sb nb v : ℕ) → v < 2 ^ nb → sb + nb ≤ w → v * 2 ^ sb < 2 ^ w
field_below w sb nb v l fits = omega (
  arith,
  mul-lt-mul_of_pos_right {m = v} {n = 2 ^ nb} {k = 2 ^ sb} l (positive sb),
  pow_add nb sb,
  pow-le-pow_right {n = 2} (omega arith) {i = nb + sb} {j = w} (omega (arith, fits)),
)

less_one : (a b : ℕ) → 0 < a → a * b ≡ (a - 1) * b + b
less_one zero b h = absurd (omega arith)
less_one (suc a) b h = grind arith

-- `&` with the complement of a field of a number of `w` bits.
pub bit_and-around :
    (w x sb nb : ℕ)
    → x < 2 ^ w
    → sb + nb ≤ w
    → bit_and x (2 ^ w - 1 - (2 ^ nb - 1) * 2 ^ sb) ≡ around x sb nb
bit_and-around w x zero nb l fits =
    ap (bit_and x) mask
    ∙ (bit_and-shifted nb x (2 ^ (w - nb) - 1)
        ∙ (ap (λ y. y * 2 ^ nb) (bit_and-low (w - nb) (x / 2 ^ nb) ∙ mod-eq_of_lt small)
            ∙ omega (arith, ap (λ k. x / 2 ^ k * 2 ^ k) same_end)))
  where
    split : 2 ^ w ≡ 2 ^ (w - nb) * 2 ^ nb
    split = ap (◌^◌ 2) all ∙ pow_add (w - nb) nb
      where
        all : w ≡ w - nb + nb
        all = omega (arith, fits)

    small : x / 2 ^ nb < 2 ^ (w - nb)
    small = (div-lt_iff_lt-mul (positive nb)).1 (omega (arith, l, split))

    same_end : 0 + nb ≡ nb
    same_end = omega arith

    mask : 2 ^ w - 1 - (2 ^ nb - 1) * 2 ^ 0 ≡ (2 ^ (w - nb) - 1) * 2 ^ nb
    mask = omega (arith, split, less_one (2 ^ (w - nb)) (2 ^ nb) (positive (w - nb)), positive nb)
bit_and-around zero x (suc sb) nb l fits = absurd (omega arith)
bit_and-around (suc w) x (suc sb) nb l fits = omega (
  arith,
  bit_and-half x m,
  bit_and-odd x m (
      omega (
        arith,
        shifted-suc (2 ^ nb - 1) sb,
        pow-suc 2 w,
        field_below w sb nb (2 ^ nb - 1) (omega (arith, positive nb)) (omega (arith, fits)),
        positive w,
      )),
  ap (bit_and (x / 2)) half,
  bit_and-around w (x / 2) sb nb (omega (arith, l, pow-suc 2 w)) (omega (arith, fits)),
  upper,
  ap (λ y. x % y) (pow-suc 2 sb) ∙ mod_double x (2 ^ sb) (positive sb),
)
  where
    m : ℕ
    m = 2 ^ suc w - 1 - (2 ^ nb - 1) * 2 ^ suc sb

    half : m / 2 ≡ 2 ^ w - 1 - (2 ^ nb - 1) * 2 ^ sb
    half = omega (arith, shifted-suc (2 ^ nb - 1) sb, pow-suc 2 w)

    upper : x / 2 ^ (suc sb + nb) * 2 ^ (suc sb + nb) ≡ 2 * (x / 2 / 2 ^ (sb + nb) * 2 ^ (sb + nb))
    upper =
        ap (λ k. x / 2 ^ k * 2 ^ k) same_end
        ∙ (ap (λ y. y * 2 ^ suc (sb + nb)) quotient ∙ shifted-suc (x / 2 / 2 ^ (sb + nb)) (sb + nb))
      where
        same_end : suc sb + nb ≡ suc (sb + nb)
        same_end = omega arith

        quotient : x / 2 ^ suc (sb + nb) ≡ x / 2 / 2 ^ (sb + nb)
        quotient =
            ap (◌/◌ x) (omega (arith, pow-suc 2 (sb + nb)))
            ∙ sym (div-div-eq-div-mul x 2 (2 ^ (sb + nb)))
