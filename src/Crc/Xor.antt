-- ===== src/Crc/Xor.antt =====
-- Laws of `^` at variables, from its lowest binary digit: a commutative, associative operation that
-- undoes itself, keeps bytes bytes, and adds where the digits do not meet.
use Prim.Native.Nat.{digits, bit_xor-bitwise, bit_or-bitwise, differ, max}
use native.Mathlib.Nat.{pow-suc}
use modbus_ssa_project.Prelude.{
  ℕ, zero, suc, ◌+◌, ◌*◌, ◌/◌, ◌%◌, ◌^◌, ◌≤◌, ◌<◌, bit_xor, bit_or, ◌≡◌, refl, sym, ap, ◌∙◌, arith,
}

-- The binary recursion behind the native operations does not depend on its fuel, given enough.
module _ (z : ℕ → ℕ) (f : ℕ → ℕ → ℕ) where
  settle : (k x n y : ℕ) → x ≤ k → x ≤ n → digits z f n x y ≡ digits z f x x y
  settle k zero zero y small enough = refl
  settle k zero (suc n) y small enough = refl
  settle k (suc x) zero y small enough = absurd (omega arith)
  settle zero (suc x) (suc n) y small enough = absurd (omega arith)
  settle (suc k) (suc x) (suc n) y small enough =
      ground (arith, settle k (suc x / 2) n (y / 2), settle k (suc x / 2) x (y / 2))

  pub digits_half :
      (x y : ℕ)
      → digits z f (suc x) (suc x) y
        ≡ digits z f (suc x / 2) (suc x / 2) (y / 2) * 2 + f (suc x % 2) (y % 2)
  digits_half x y = ground (arith, settle x (suc x / 2) x (y / 2))

zero-bit_xor : (y : ℕ) → bit_xor 0 y ≡ y
zero-bit_xor = bit_xor-bitwise 0

zero-bit_or : (y : ℕ) → bit_or 0 y ≡ y
zero-bit_or = bit_or-bitwise 0

bit_xor_step : (x y : ℕ) → bit_xor x y ≡ 2 * bit_xor (x / 2) (y / 2) + differ (x % 2) (y % 2)
bit_xor_step zero y = ground (arith, zero-bit_xor y, zero-bit_xor (y / 2))
bit_xor_step (suc x) y = ground (
  arith,
  digits_half (λ t. t) differ x y,
  bit_xor-bitwise (suc x) y,
  bit_xor-bitwise (suc x / 2) (y / 2),
)

pub bit_or_step : (x y : ℕ) → bit_or x y ≡ 2 * bit_or (x / 2) (y / 2) + max (x % 2) (y % 2)
bit_or_step zero y = ground (arith, zero-bit_or y, zero-bit_or (y / 2))
bit_or_step (suc x) y = ground (
  arith,
  digits_half (λ t. t) max x y,
  bit_or-bitwise (suc x) y,
  bit_or-bitwise (suc x / 2) (y / 2),
)

differ_digits : (x y : ℕ) → x < 2 → y < 2 → differ x y ≡ (x + y) % 2
differ_digits zero y p q = omega arith
differ_digits (suc zero) zero p q = refl
differ_digits (suc zero) (suc zero) p q = refl
differ_digits (suc zero) (suc (suc y)) p q = absurd (omega arith)
differ_digits (suc (suc x)) y p q = absurd (omega arith)

pub bit_xor-low : (a b : ℕ) → bit_xor a b % 2 ≡ (a + b) % 2
bit_xor-low a b =
    omega (arith, bit_xor_step a b, differ_digits (a % 2) (b % 2) (omega arith) (omega arith))

pub bit_xor-half : (a b : ℕ) → bit_xor a b / 2 ≡ bit_xor (a / 2) (b / 2)
bit_xor-half a b =
    omega (arith, bit_xor_step a b, differ_digits (a % 2) (b % 2) (omega arith) (omega arith))

assoc_fuel : (n a b c : ℕ) → a + b + c ≤ n → bit_xor (bit_xor a b) c ≡ bit_xor a (bit_xor b c)
assoc_fuel zero zero zero zero h = refl
assoc_fuel zero (suc a) b c h = absurd (omega arith)
assoc_fuel zero zero (suc b) c h = absurd (omega arith)
assoc_fuel zero zero zero (suc c) h = absurd (omega arith)
assoc_fuel (suc n) a b c h = ground (
  arith,
  bit_xor-half a b,
  bit_xor-half b c,
  bit_xor-half (bit_xor a b) c,
  bit_xor-half a (bit_xor b c),
  bit_xor-low a b,
  bit_xor-low b c,
  bit_xor-low (bit_xor a b) c,
  bit_xor-low a (bit_xor b c),
  assoc_fuel n (a / 2) (b / 2) (c / 2),
)

pub bit_xor_assoc : (a b c : ℕ) → bit_xor (bit_xor a b) c ≡ bit_xor a (bit_xor b c)
bit_xor_assoc a b c = assoc_fuel (a + b + c) a b c (omega arith)

comm_fuel : (n a b : ℕ) → a + b ≤ n → bit_xor a b ≡ bit_xor b a
comm_fuel zero zero zero h = refl
comm_fuel zero (suc a) b h = absurd (omega arith)
comm_fuel zero zero (suc b) h = absurd (omega arith)
comm_fuel (suc n) a b h = ground (
  arith,
  bit_xor-half a b,
  bit_xor-half b a,
  bit_xor-low a b,
  bit_xor-low b a,
  comm_fuel n (a / 2) (b / 2),
)

pub bit_xor_comm : (a b : ℕ) → bit_xor a b ≡ bit_xor b a
bit_xor_comm a b = comm_fuel (a + b) a b (omega arith)

self_fuel : (n a : ℕ) → a ≤ n → bit_xor a a ≡ 0
self_fuel zero zero h = refl
self_fuel zero (suc a) h = absurd (omega arith)
self_fuel (suc n) a h = ground (arith, bit_xor-half a a, bit_xor-low a a, self_fuel n (a / 2))

pub bit_xor-zero : (a : ℕ) → bit_xor a 0 ≡ a
bit_xor-zero a = bit_xor_comm a 0 ∙ zero-bit_xor a

-- A second `^` with the same number undoes the first.
pub bit_xor_cancel : (a b : ℕ) → bit_xor (bit_xor a b) b ≡ a
bit_xor_cancel a b = rw (bit_xor_assoc a b b, self_fuel b b (omega arith)) (bit_xor-zero a)

pub bit_xor_right_comm : (a b c : ℕ) → bit_xor (bit_xor a b) c ≡ bit_xor (bit_xor a c) b
bit_xor_right_comm a b c = rw (bit_xor_assoc a b c, bit_xor_comm b c) (sym (bit_xor_assoc a c b))

pub bit_xor-lt : (k a b : ℕ) → a < 2 ^ k → b < 2 ^ k → bit_xor a b < 2 ^ k
bit_xor-lt zero zero zero p q = omega arith
bit_xor-lt zero (suc a) b p q = absurd (omega arith)
bit_xor-lt zero zero (suc b) p q = absurd (omega arith)
bit_xor-lt (suc k) a b p q = omega (
  arith,
  pow-suc 2 k,
  bit_xor-half a b,
  bit_xor-low a b,
  bit_xor-lt k (a / 2) (b / 2) (omega (arith, pow-suc 2 k)) (omega (arith, pow-suc 2 k)),
)

pub shifted-suc : (q k : ℕ) → q * 2 ^ suc k ≡ 2 * (q * 2 ^ k)
shifted-suc q k = ground (arith, pow-suc 2 k, ap (◌*◌ q) (pow-suc 2 k))

pub half-shifted : (q k : ℕ) → q * 2 ^ suc k / 2 ≡ q * 2 ^ k
half-shifted q k = omega (arith, shifted-suc q k)

-- `^` and `|` of a low field and a shifted one are their sum.
pub bit_xor_fields : (k q r : ℕ) → r < 2 ^ k → bit_xor r (q * 2 ^ k) ≡ q * 2 ^ k + r
bit_xor_fields zero q zero h = omega (arith, zero-bit_xor (q * 1))
bit_xor_fields zero q (suc r) h = absurd (omega arith)
bit_xor_fields (suc k) q r h = ground (
  arith,
  bit_xor-half r (q * 2 ^ suc k),
  bit_xor-low r (q * 2 ^ suc k),
  shifted-suc q k,
  half-shifted q k,
  pow-suc 2 k,
  bit_xor_fields k q (r / 2),
)

pub bit_or_fields : (k q r : ℕ) → r < 2 ^ k → bit_or r (q * 2 ^ k) ≡ q * 2 ^ k + r
bit_or_fields zero q zero h = omega (arith, zero-bit_or (q * 1))
bit_or_fields zero q (suc r) h = absurd (omega arith)
bit_or_fields (suc k) q r h = ground (
  arith,
  bit_or_fields k q (r / 2),
  half-shifted q k,
  bit_or_step r (q * 2 ^ suc k),
  shifted-suc q k,
  pow-suc 2 k,
)
