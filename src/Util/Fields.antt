-- ===== src/Util/Fields.antt =====
-- bat of src/util.cpp, against the field of a number as arithmetic.
use Prim.Native.Nat.{bit_and-bitwise, min}
use native.Mathlib.Nat.{
  pow-suc, pow-le-pow_right, div-div-eq-div-mul, mod-eq_of_lt, mod-lt, mul-add-mod_self_left,
  div-add-mod, div-eq_of_lt, div-eq_of_lt-le, mul-lt-mul_of_pos_right, mul-div_left,
}
use modbus_ssa_project.Prelude.{
  ℕ, zero, suc, ◌+◌, ◌-◌, ◌*◌, ◌/◌, ◌%◌, ◌^◌, ◌≤◌, ◌<◌, bit_and, Bool, true, not, ◌&&◌, ltb, leb,
  ◌==◌, if◌then◌else◌, some, ◌≡◌, refl, ap, sym, ◌∙◌, Bool-cases, inl, inr, arith,
}
use modbus_ssa_project.Prelude.Text.{Text, text, same}
use modbus_ssa_project.Crc.Xor.{digits_half, shifted-suc, half-shifted}
use modbus_ssa_project.Util.Decode.{pow_add}
use modbus_ssa_project.Util.{bat, bat_signed, shift_right, negated, mask}

zero-bit_and : (y : ℕ) → bit_and 0 y ≡ 0
zero-bit_and = bit_and-bitwise 0

pub bit_and_step : (x y : ℕ) → bit_and x y ≡ 2 * bit_and (x / 2) (y / 2) + min (x % 2) (y % 2)
bit_and_step zero y = ground (arith, zero-bit_and y, zero-bit_and (y / 2))
bit_and_step (suc x) y = ground (
  arith,
  digits_half (λ t. zero) min x y,
  bit_and-bitwise (suc x) y,
  bit_and-bitwise (suc x / 2) (y / 2),
)

-- Of a digit with 0 it is 0, with 1 the digit.
pub min_low :
    (x y : ℕ) → x < 2 → y < 2 → (min x y < 2) × (y ≡ 0 → min x y ≡ 0) × (y ≡ 1 → min x y ≡ x)
min_low zero zero p q = (omega arith, (λ e. refl), (λ e. refl))
min_low zero (suc zero) p q = (omega arith, (λ e. refl), (λ e. refl))
min_low (suc zero) zero p q = (omega arith, (λ e. refl), (λ e. absurd (omega (arith, e))))
min_low (suc zero) (suc zero) p q = (omega arith, (λ e. absurd (omega (arith, e))), (λ e. refl))
min_low zero (suc (suc y)) p q = absurd (omega arith)
min_low (suc zero) (suc (suc y)) p q = absurd (omega arith)
min_low (suc (suc x)) y p q = absurd (omega arith)

pub bit_and-half : (a b : ℕ) → bit_and a b / 2 ≡ bit_and (a / 2) (b / 2)
bit_and-half a b =
    ground (arith, bit_and_step a b, min_low (a % 2) (b % 2) (omega arith) (omega arith))

pub bit_and-even : (a b : ℕ) → b % 2 ≡ 0 → bit_and a b % 2 ≡ 0
bit_and-even a b h =
    ground (arith, bit_and_step a b, min_low (a % 2) (b % 2) (omega arith) (omega arith))

pub bit_and-odd : (a b : ℕ) → b % 2 ≡ 1 → bit_and a b % 2 ≡ a % 2
bit_and-odd a b h =
    ground (arith, bit_and_step a b, min_low (a % 2) (b % 2) (omega arith) (omega arith))

pub bit_and-none : (n x : ℕ) → x ≤ n → bit_and x 0 ≡ 0
bit_and-none zero zero h = refl
bit_and-none zero (suc x) h = absurd (omega arith)
bit_and-none (suc n) x h =
    ground (arith, bit_and-half x 0, bit_and-even x 0 refl, bit_and-none n (x / 2))

pub positive : (n : ℕ) → 0 < 2 ^ n
positive n = omega (arith, pow-le-pow_right {n = 2} (omega arith) {i = 0} {j = n} (omega arith))

pub mod_double : (x p : ℕ) → 0 < p → x % (p * 2) ≡ x / 2 % p * 2 + x % 2
mod_double x p h =
    ap (λ y. y % (p * 2)) split
    ∙ (mul-add-mod_self_left (p * 2) (x / 2 / p) (x / 2 % p * 2 + x % 2)
        ∙ mod-eq_of_lt (omega (arith, mod-lt (x / 2) {m = p} h)))
  where
    twice : p * 2 * (x / 2 / p) ≡ 2 * (p * (x / 2 / p))
    twice = grind arith

    split : x ≡ p * 2 * (x / 2 / p) + (x / 2 % p * 2 + x % 2)
    split = omega (arith, twice, div-add-mod (x / 2) p)

-- `&` with the lowest bits is the remainder.
pub bit_and-low : (n x : ℕ) → bit_and x (2 ^ n - 1) ≡ x % 2 ^ n
bit_and-low zero x = bit_and-none x x (omega arith) ∙ omega arith
bit_and-low (suc n) x = rw (pow-suc 2 n) (
    omega (
      arith,
      bit_and-half x (2 ^ n * 2 - 1),
      bit_and-odd x (2 ^ n * 2 - 1) odd,
      ap (bit_and (x / 2)) half,
      bit_and-low n (x / 2),
      mod_double x (2 ^ n) (positive n),
    ))
  where
    odd : (2 ^ n * 2 - 1) % 2 ≡ 1
    odd = omega (arith, positive n)

    half : (2 ^ n * 2 - 1) / 2 ≡ 2 ^ n - 1
    half = omega (arith, positive n)

-- `&` with a shifted mask.
pub bit_and-shifted : (k x m : ℕ) → bit_and x (m * 2 ^ k) ≡ bit_and (x / 2 ^ k) m * 2 ^ k
bit_and-shifted zero x m = rw (whole, undivided) (omega arith)
  where
    whole : m * 2 ^ 0 ≡ m
    whole = omega arith

    undivided : x / 2 ^ 0 ≡ x
    undivided = omega arith
bit_and-shifted (suc k) x m = omega (
  arith,
  bit_and-half x (m * 2 ^ suc k),
  bit_and-even x (m * 2 ^ suc k) (omega (arith, shifted-suc m k)),
  ap (bit_and (x / 2)) (half-shifted m k),
  bit_and-shifted k (x / 2) m,
  ap (λ y. bit_and y m * 2 ^ k) halves,
  shifted-suc (bit_and (x / 2 ^ suc k) m) k,
)
  where
    halves : x / 2 / 2 ^ k ≡ x / 2 ^ suc k
    halves = div-div-eq-div-mul x 2 (2 ^ k) ∙ ap (◌/◌ x) (omega (arith, pow-suc 2 k))

-- A field of a register, as a number of 32 bits: a signed field of more than one bit is in two's
-- complement.
abbrev pub field_value : Bool → ℕ → ℕ → ℕ
field_value signed nb q =
    if signed && (not (nb == 1) && leb (2 ^ (nb - 1)) q) then 2 ^ 32 - (2 ^ nb - q) else q

-- The numbers below `2 ^ (sb + nb)`.
below : (sb nb q : ℕ) → sb + nb < 32 → q < 2 ^ nb → q * 2 ^ sb < 2 ^ 31
below sb nb q fits h = omega (
  arith,
  mul-lt-mul_of_pos_right {m = q} {n = 2 ^ nb} {k = 2 ^ sb} h (positive sb),
  pow_add nb sb,
  pow-le-pow_right {n = 2} (omega arith) {i = nb + sb} {j = 31} (omega arith),
)

small_power : (nb : ℕ) → nb < 32 → 2 ^ nb ≤ 2 ^ 31
small_power nb h = pow-le-pow_right {n = 2} (omega arith) {i = nb} {j = 31} (omega arith)

mask-pow : (nb : ℕ) → nb < 32 → mask nb ≡ 2 ^ nb - 1
mask-pow nb h = omega (arith, small_power nb h)

-- The field that is cut out and moved to the right.
field-cut :
    (d sb nb : ℕ)
    → sb + nb < 32
    → shift_right (bit_and d (((2 ^ nb - 1) * 2 ^ sb) % 2 ^ 32)) sb ≡ d / 2 ^ sb % 2 ^ nb
field-cut d sb nb fits =
    rw (whole, bit_and-shifted sb d (2 ^ nb - 1), bit_and-low nb (d / 2 ^ sb), short)
      (mul-div_left _ (positive sb))
  where
    q : ℕ
    q = d / 2 ^ sb % 2 ^ nb

    whole : ((2 ^ nb - 1) * 2 ^ sb) % 2 ^ 32 ≡ (2 ^ nb - 1) * 2 ^ sb
    whole = mod-eq_of_lt (omega (arith, below sb nb (2 ^ nb - 1) fits (omega (arith, positive nb))))

    short : ltb (q * 2 ^ sb) (2 ^ 31) ≡ true
    short = ground (arith, below sb nb q fits (mod-lt (d / 2 ^ sb) {m = 2 ^ nb} (positive nb)))

-- The bits of a negative field.
complement : (nb q : ℕ) → nb < 32 → 0 < q → q < 2 ^ nb → (2 ^ 32 - q) % 2 ^ nb ≡ 2 ^ nb - q
complement nb q h p l =
    ap (λ y. y % 2 ^ nb) split
    ∙ (mul-add-mod_self_left (2 ^ nb) k (2 ^ nb - q) ∙ mod-eq_of_lt (omega arith))
  where
    k : ℕ
    k = 2 ^ (32 - nb) - 1

    whole : 2 ^ nb * 2 ^ (32 - nb) ≡ 2 ^ 32
    whole = sym (pow_add nb (32 - nb)) ∙ ap (◌^◌ 2) all
      where
        all : nb + (32 - nb) ≡ 32
        all = omega arith

    parts : (a b : ℕ) → 0 < b → a * b ≡ a * (b - 1) + a
    parts a zero z = absurd (omega arith)
    parts a (suc b) z = grind arith

    split : 2 ^ 32 - q ≡ 2 ^ nb * k + (2 ^ nb - q)
    split = omega (arith, whole, parts (2 ^ nb) (2 ^ (32 - nb)) (positive (32 - nb)))

-- The highest bit of a field.
top_bit : (h q : ℕ) → 0 < h → q < h * 2 → q / h ≡ (if leb h q then 1 else 0)
top_bit h q p l = elim (Bool-cases (leb h q)) [
  | inl e ↦ rw e (div-eq_of_lt-le {k = 1} h (ground arith) (ground arith))
  | inr e ↦ rw e (div-eq_of_lt (ground arith))
]

-- The lowest bits of a field are the field.
masked : (nb q : ℕ) → nb < 32 → q < 2 ^ nb → bit_and q (mask nb) ≡ q
masked nb q h l = rw (mask-pow nb h, bit_and-low nb q) (mod-eq_of_lt l)

bat_signed-field_value :
    (q nb : ℕ) → 0 < nb → nb < 32 → q < 2 ^ nb → bat_signed q nb ≡ field_value true nb q
unfolding bat_signed
bat_signed-field_value q nb pos h l = elim (Bool-cases (nb == 1)) [
  | inl e ↦ rw e refl
  | inr e ↦ elim (Bool-cases (leb (2 ^ (nb - 1)) q)) [
    | inl t ↦ rw (e, top, t, negative t) refl
    | inr t ↦ rw (e, top, t, masked nb q h l) refl
  ]
]
  where
    half : 2 ^ nb ≡ 2 ^ (nb - 1) * 2
    half = ap (◌^◌ 2) (suc_pred pos) ∙ pow-suc 2 (nb - 1)
      where
        suc_pred : 0 < nb → nb ≡ suc (nb - 1)
        suc_pred p = omega arith

    top : shift_right q (nb - 1) % 2 ≡ (if leb (2 ^ (nb - 1)) q then 1 else 0)
    top = ground (
      arith,
      small_power nb h,
      top_bit (2 ^ (nb - 1)) q (positive (nb - 1)) (omega (arith, half)),
    )

    negative :
        leb (2 ^ (nb - 1)) q ≡ true
        → negated (bit_and (negated q) (mask nb)) ≡ 2 ^ 32 - (2 ^ nb - q)
    negative t =
        rw (mask-pow nb h, bit_and-low nb (negated q), pattern, complement nb q h above l)
          (omega (arith, small_power nb h))
      where
        above : 0 < q
        above = ground (arith, positive (nb - 1))

        pattern : negated q ≡ 2 ^ 32 - q
        pattern = omega (arith, above)

-- bat takes a field that leaves out the highest of the 32 bits: the `nb` bits from `sb` on are its
-- value, and if it is signed and has more than one, they are in two's complement.
pub bat-field_value :
    (d sb nb : ℕ) (is_signed : Text)
    → d < 2 ^ 32
    → 0 < nb
    → sb + nb < 32
    → bat d sb nb is_signed
      ≡ some (field_value (same is_signed (text "true")) nb (d / 2 ^ sb % 2 ^ nb))
unfolding bat
bat-field_value d sb nb is_signed hd pos fits =
    rw (field-cut d sb nb fits) (ground (arith, unsigned, signed))
  where
    q : ℕ
    q = d / 2 ^ sb % 2 ^ nb

    q_fits : q < 2 ^ nb
    q_fits = mod-lt (d / 2 ^ sb) {m = 2 ^ nb} (positive nb)

    signed : bat_signed q nb ≡ field_value true nb q
    signed = bat_signed-field_value q nb pos (omega arith) q_fits

    unsigned : bit_and q (mask nb) ≡ q
    unsigned = masked nb q (omega arith) q_fits
