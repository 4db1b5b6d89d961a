-- ===== src/Frame/Corrupt.antt =====
-- The checksum test of `checkMP` (src/modbus_p.cpp) on messages that end in a checksum.
use native.Mathlib.Nat.{zero-add, suc-add}
use modbus_ssa_project.Prelude.{
  ℕ, ◌+◌, ◌-◌, ◌*◌, ◌/◌, ◌%◌, ◌^◌, ◌<◌, ◌≡◌, ◌≢◌, refl, List, [], ◌∷◌, ◌++◌, arith, if◌then◌else◌,
  ◌==◌, All, length, get_or, take, length-append, take-append,
}
use modbus_ssa_project.Prelude.Int.{pos, negsuc}
use modbus_ssa_project.Crc.{crc_start, crc16}
use modbus_ssa_project.Crc.Bitwise.{crc16-register, crc_loop-IsBytes}
use modbus_ssa_project.Crc.Detect.{crc16_one_byte}
use modbus_ssa_project.Frame.{byte, check_crc}

-- A body with a checksum behind it, low byte first.
abbrev pub with_crc : List ℕ → ℕ → List ℕ
with_crc body crc = body ++ (crc % 256) ∷ (crc / 256) ∷ []

get_or-length : (xs ys : List ℕ) (i : ℕ) → get_or (xs ++ ys) (length xs + i) 0 ≡ get_or ys i 0
get_or-length [] ys i = rw zero-add refl
get_or-length (x ∷ xs) ys i = rw (suc-add (length xs) i) (get_or-length xs ys i)

pub crc16-lt : (bs : List ℕ) → All (λ x. x < 256) bs → crc16 bs < 2 ^ 16
crc16-lt bs h =
    let v = crc_loop-IsBytes crc_start bs (record { hi-lt = omega arith; lo-lt = omega arith }) h in
    omega (arith, crc16-register bs h, v.hi-lt, v.lo-lt)

-- The test compares the checksum of the body with the one behind it.
pub check_crc-with_crc :
    (body : List ℕ) (crc : ℕ)
    → length body < 2 ^ 16
    → crc < 2 ^ 16
    → check_crc (with_crc body crc) (length body + 2)
      ≡ (if crc == crc16 body then pos 0 else negsuc 1)
unfolding check_crc
check_crc-with_crc body crc short h = rw (cut, front, high, low) (rw whole refl)
  where
    cut : (length body + 2 - 2) % 2 ^ 16 ≡ length body
    cut = omega arith

    front : take (length body) (with_crc body crc) ≡ body
    front = take-append body _

    high : byte (with_crc body crc) (length body + 2 - 1) ≡ crc / 256
    high = rw (at_one) (get_or-length body _ 1)
      where
        at_one : length body + 2 - 1 ≡ length body + 1
        at_one = omega arith

    low : byte (with_crc body crc) (length body + 2 - 2) ≡ crc % 256
    low = rw (at_zero) (get_or-length body _ 0)
      where
        at_zero : length body + 2 - 2 ≡ length body + 0
        at_zero = omega arith

    whole : (crc / 256 * 2 ^ 8 + crc % 256) % 2 ^ 16 ≡ crc
    whole = omega arith

-- A message whose checksum is right passes the test, and with one of its bytes changed it fails it.
pub check_crc_one_byte :
    (xs ys : List ℕ) (b c : ℕ)
    → length (xs ++ c ∷ ys) < 2 ^ 16
    → All (λ x. x < 256) (xs ++ b ∷ ys)
    → All (λ x. x < 256) (xs ++ c ∷ ys)
    → b ≢ c
    → (check_crc (with_crc (xs ++ c ∷ ys) (crc16 (xs ++ c ∷ ys))) (length (xs ++ c ∷ ys) + 2)
        ≡ pos 0)
      × (check_crc (with_crc (xs ++ b ∷ ys) (crc16 (xs ++ c ∷ ys))) (length (xs ++ b ∷ ys) + 2)
          ≡ negsuc 1)
check_crc_one_byte xs ys b c short hb hc ne = (passes, fails)
  where
    lengths : length (xs ++ b ∷ ys) ≡ length (xs ++ c ∷ ys)
    lengths = omega (arith, length-append {0} xs (b ∷ ys), length-append {0} xs (c ∷ ys))

    passes :
        check_crc (with_crc (xs ++ c ∷ ys) (crc16 (xs ++ c ∷ ys))) (length (xs ++ c ∷ ys) + 2)
        ≡ pos 0
    passes =
        ground
          (arith, check_crc-with_crc (xs ++ c ∷ ys) (crc16 (xs ++ c ∷ ys)) short (crc16-lt _ hc))

    fails :
        check_crc (with_crc (xs ++ b ∷ ys) (crc16 (xs ++ c ∷ ys))) (length (xs ++ b ∷ ys) + 2)
        ≡ negsuc 1
    fails = ground (
      arith,
      check_crc-with_crc (xs ++ b ∷ ys) (crc16 (xs ++ c ∷ ys)) (omega (arith, lengths))
          (crc16-lt _ hc),
      λ (e : crc16 (xs ++ b ∷ ys) ≡ crc16 (xs ++ c ∷ ys)). ne (crc16_one_byte xs ys b c hb hc e),
    )
