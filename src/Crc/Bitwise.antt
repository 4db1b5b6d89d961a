-- ===== src/Crc/Bitwise.antt =====
-- The tables of src/util.cpp against the polynomial: `crc16` is the bitwise CRC-16 of Modbus
-- (reflected polynomial 0xA001, start 0xFFFF).
use modbus_ssa_project.Prelude.{
  ℕ, zero, suc, ◌+◌, ◌*◌, ◌/◌, ◌%◌, ◌^◌, ◌<◌, bit_xor, ◌≡◌, refl, sym, ap, ◌∙◌, arith, Bool, true,
  ◌&&◌, List, [], ◌∷◌, All, get_or, ltb, ◌==◌, ==_iff, if◌then◌else◌, Bool-cases, inl, inr,
}
use modbus_ssa_project.Crc.{
  CrcState, crc_hi_table, crc_lo_table, crc_round, crc_loop, crc_start, crc16,
}
use modbus_ssa_project.Crc.Xor.{
  bit_xor-low, bit_xor-half, bit_xor_comm, bit_xor_right_comm, bit_xor-lt, bit_xor_fields,
  bit_or_fields, shifted-suc, half-shifted,
}

-- One bit: shift right, and subtract the polynomial if a one falls out.
pub crc_bit : ℕ → ℕ
crc_bit x = if x % 2 == 1 then bit_xor (x / 2) 0xA001 else x / 2

pub crc_bits : ℕ → ℕ → ℕ
crc_bits zero x = x
crc_bits (suc k) x = crc_bits k (crc_bit x)

pub crc_reference : ℕ → List ℕ → ℕ
crc_reference reg [] = reg
crc_reference reg (byte ∷ bytes) = crc_reference (crc_bits 8 (bit_xor reg byte)) bytes

-- The operation is linear; an even summand is only shifted.
crc_bit-xor_even : (a b : ℕ) → b % 2 ≡ 0 → crc_bit (bit_xor a b) ≡ bit_xor (crc_bit a) (b / 2)
unfolding crc_bit
crc_bit-xor_even a b even = elim (Bool-cases (a % 2 == 1)) [
  | inl odd ↦ rw (odd, low, odd, bit_xor-half a b) (bit_xor_right_comm (a / 2) (b / 2) 0xA001)
  | inr ev ↦ rw (ev, low, ev, bit_xor-half a b)
]
  where
    low : bit_xor a b % 2 ≡ a % 2
    low = omega (arith, bit_xor-low a b)

crc_bits-xor : (k a q : ℕ) → crc_bits k (bit_xor a (q * 2 ^ k)) ≡ bit_xor (crc_bits k a) q
unfolding crc_bits
crc_bits-xor zero a q = ap (bit_xor a) (omega arith)
crc_bits-xor (suc k) a q =
    rw (crc_bit-xor_even a (q * 2 ^ suc k) (omega (arith, shifted-suc q k)), half-shifted q k)
      (crc_bits-xor k (crc_bit a) q)

-- A test that holds of every number under a bound, by running it.
unfoldable pub passes : (ℕ → Bool) → ℕ → Bool
passes test zero = true
passes test (suc bound) = passes test bound && test bound

pub passes→test :
    (test : ℕ → Bool) (bound i : ℕ) → passes test bound ≡ true → i < bound → test i ≡ true
unfolding passes
passes→test test zero i all below = absurd (omega arith)
passes→test test (suc bound) i all below = ground (arith, passes→test test bound i)

abbrev hi_of : ℕ → ℕ
hi_of i = get_or crc_hi_table i 0

abbrev lo_of : ℕ → ℕ
lo_of i = get_or crc_lo_table i 0

entries : passes (λ i. lo_of i * 256 + hi_of i == crc_bits 8 i) 256 ≡ true
unfolding passes crc_bits crc_bit
entries = refl

bytes : passes (λ i. ltb (lo_of i) 256 && ltb (hi_of i) 256) 256 ≡ true
unfolding passes
bytes = refl

entry : (i : ℕ) → i < 256 → crc_bits 8 i ≡ lo_of i * 2 ^ 8 + hi_of i
entry i h =
    sym ((==_iff (lo_of i * 256 + hi_of i) (crc_bits 8 i)).0 (passes→test _ 256 i entries h))

pub table-lt : (i : ℕ) → i < 256 → (get_or crc_lo_table i 0 < 256) × (get_or crc_hi_table i 0 < 256)
table-lt i h = halves (lo_of i) (hi_of i) (passes→test _ 256 i bytes h)
  where
    halves : (x y : ℕ) → (ltb x 256 && ltb y 256) ≡ true → (x < 256) × (y < 256)
    halves x y e = ground arith

-- Both halves of the register are bytes.
pub record IsBytes (s : CrcState) : Type 0 where
  pub hi-lt : s.hi < 256
  pub lo-lt : s.lo < 256

pub index-lt : (s : CrcState) (byte : ℕ) → IsBytes s → byte < 256 → bit_xor s.hi byte < 256
index-lt s byte v h = bit_xor-lt 8 s.hi byte v.hi-lt h

pub crc_round-IsBytes :
    (s : CrcState) (byte : ℕ) → IsBytes s → byte < 256 → IsBytes (crc_round s byte)
unfolding crc_round
crc_round-IsBytes s byte v h =
    let t = table-lt (bit_xor s.hi byte) (index-lt s byte v h) in
    record { hi-lt = bit_xor-lt 8 s.lo _ v.lo-lt t.1; lo-lt = t.0 }

pub crc_loop-IsBytes :
    (s : CrcState) (bs : List ℕ) → IsBytes s → All (λ b. b < 256) bs → IsBytes (crc_loop s bs)
unfolding crc_loop
crc_loop-IsBytes s [] v h = v
crc_loop-IsBytes s (b ∷ bs) v h =
    crc_loop-IsBytes (crc_round s b) bs (crc_round-IsBytes s b v h.0) h.1

-- The register that the two halves stand for.
abbrev pub register : CrcState → ℕ
register s = s.lo * 2 ^ 8 + s.hi

register-round :
    (s : CrcState) (byte : ℕ)
    → IsBytes s
    → byte < 256
    → register (crc_round s byte) ≡ crc_bits 8 (bit_xor (register s) byte)
unfolding crc_round
register-round s byte v h = sym (
    rw
      (
        sym (bit_xor_fields 8 s.lo s.hi v.hi-lt),
        bit_xor_right_comm s.hi (s.lo * 2 ^ 8) byte,
        crc_bits-xor 8 (bit_xor s.hi byte) s.lo,
        entry (bit_xor s.hi byte) (index-lt s byte v h),
        sym (bit_xor_fields 8 (lo_of (bit_xor s.hi byte)) (hi_of (bit_xor s.hi byte)) t.1),
        bit_xor_right_comm _ _ s.lo,
        bit_xor_comm _ s.lo,
      )
      (bit_xor_fields 8 _ _ (bit_xor-lt 8 s.lo _ v.lo-lt t.1)))
  where
    t : (lo_of (bit_xor s.hi byte) < 256) × (hi_of (bit_xor s.hi byte) < 256)
    t = table-lt (bit_xor s.hi byte) (index-lt s byte v h)

register-loop :
    (s : CrcState) (bs : List ℕ)
    → IsBytes s
    → All (λ b. b < 256) bs
    → register (crc_loop s bs) ≡ crc_reference (register s) bs
unfolding crc_loop crc_reference
register-loop s [] v h = refl
register-loop s (b ∷ bs) v h =
    rw (sym (register-round s b v h.0))
      (register-loop (crc_round s b) bs (crc_round-IsBytes s b v h.0) h.1)

pub crc16-register :
    (bs : List ℕ) → All (λ b. b < 256) bs → crc16 bs ≡ register (crc_loop crc_start bs)
unfolding crc16
crc16-register bs h =
    let v = crc_loop-IsBytes crc_start bs (record { hi-lt = omega arith; lo-lt = omega arith }) h in
    bit_or_fields 8 _ _ v.hi-lt

-- On every string of bytes the table-driven `crc16` is the bitwise CRC with the reflected polynomial
-- 0xA001 and the start value 0xFFFF.
pub crc16-crc_reference : (bs : List ℕ) → All (λ b. b < 256) bs → crc16 bs ≡ crc_reference 0xFFFF bs
crc16-crc_reference bs h =
    crc16-register bs h
    ∙ register-loop crc_start bs (record { hi-lt = omega arith; lo-lt = omega arith }) h
