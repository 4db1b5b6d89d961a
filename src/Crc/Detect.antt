-- ===== src/Crc/Detect.antt =====
-- What the checksum of src/util.cpp finds.
use modbus_ssa_project.Prelude.{
  ℕ, suc, ◌<◌, bit_xor, ◌≡◌, refl, sym, ap, ◌∙◌, arith, true, List, [], ◌∷◌, ◌++◌, All, get_or,
  ◌==◌, ==_iff, if◌then◌else◌,
}
use modbus_ssa_project.Crc.{
  CrcState, crc_hi_table, crc_lo_table, crc_round, crc_loop, crc_start, crc16,
}
use modbus_ssa_project.Crc.Xor.{bit_xor_comm, bit_xor_cancel}
use modbus_ssa_project.Crc.Bitwise.{
  passes, passes→test, IsBytes, index-lt, crc_round-IsBytes, crc_loop-IsBytes, register,
  crc16-register,
}

index_of : ℕ → List ℕ → ℕ
index_of x [] = 0
index_of x (y ∷ ys) = if y == x then 0 else suc (index_of x ys)

abbrev lo_of : ℕ → ℕ
lo_of i = get_or crc_lo_table i 0

-- No value stands twice in the low table.
distinct : passes (λ i. index_of (lo_of i) crc_lo_table == i) 256 ≡ true
unfolding passes index_of
distinct = refl

lo_of-injective : (i j : ℕ) → i < 256 → j < 256 → lo_of i ≡ lo_of j → i ≡ j
lo_of-injective i j hi hj e = sym (found i hi) ∙ ap (λ x. index_of x crc_lo_table) e ∙ found j hj
  where
    found : (k : ℕ) → k < 256 → index_of (lo_of k) crc_lo_table ≡ k
    found k h = (==_iff (index_of (lo_of k) crc_lo_table) k).0 (passes→test _ 256 k distinct h)

cancel : (a b c : ℕ) → bit_xor a b ≡ bit_xor c b → a ≡ c
cancel a b c e = sym (bit_xor_cancel a b) ∙ ap (λ (x : ℕ). bit_xor x b) e ∙ bit_xor_cancel c b

-- Equal registers after a round had equal indices before it.
crc_round-index :
    (s t : CrcState) (b c : ℕ)
    → IsBytes s
    → IsBytes t
    → b < 256
    → c < 256
    → crc_round s b ≡ crc_round t c
    → bit_xor s.hi b ≡ bit_xor t.hi c
unfolding crc_round
crc_round-index s t b c v w hb hc e =
    lo_of-injective _ _ (index-lt s b v hb) (index-lt t c w hc) (ap (λ r. r.lo) e)

crc_round-injective :
    (s t : CrcState) (b : ℕ)
    → IsBytes s
    → IsBytes t
    → b < 256
    → crc_round s b ≡ crc_round t b
    → s ≡ t
unfolding crc_round
crc_round-injective s t b v w hb e = λ i. record { hi = hi-eq i; lo = lo-eq i }
  where
    index : bit_xor s.hi b ≡ bit_xor t.hi b
    index = crc_round-index s t b b v w hb hb e

    hi-eq : s.hi ≡ t.hi
    hi-eq = cancel s.hi b t.hi index

    lo-eq : s.lo ≡ t.lo
    lo-eq =
        cancel s.lo (get_or crc_hi_table (bit_xor s.hi b) 0) t.lo
          (ap (λ r. r.hi) e ∙ ap (λ (x : ℕ). bit_xor t.lo (get_or crc_hi_table x 0)) (sym index))

crc_loop-injective :
    (s t : CrcState) (bs : List ℕ)
    → IsBytes s
    → IsBytes t
    → All (λ b. b < 256) bs
    → crc_loop s bs ≡ crc_loop t bs
    → s ≡ t
unfolding crc_loop
crc_loop-injective s t [] v w h e = e
crc_loop-injective s t (b ∷ bs) v w h e = crc_round-injective s t b v w h.0 (
    crc_loop-injective (crc_round s b) (crc_round t b) bs (crc_round-IsBytes s b v h.0)
      (crc_round-IsBytes t b w h.0) h.1 e)

crc_loop-append :
    (s : CrcState) (xs ys : List ℕ) → crc_loop s (xs ++ ys) ≡ crc_loop (crc_loop s xs) ys
unfolding crc_loop
crc_loop-append s [] ys = refl
crc_loop-append s (x ∷ xs) ys = crc_loop-append (crc_round s x) xs ys

crc_round-injective_byte :
    (s : CrcState) (b c : ℕ) → IsBytes s → b < 256 → c < 256 → crc_round s b ≡ crc_round s c → b ≡ c
crc_round-injective_byte s b c v hb hc e =
    cancel b s.hi c
      (bit_xor_comm b s.hi ∙ crc_round-index s s b c v v hb hc e ∙ bit_xor_comm s.hi c)

register-injective : (s t : CrcState) → IsBytes s → IsBytes t → register s ≡ register t → s ≡ t
register-injective s t v w e = λ i. record { hi = hi-eq i; lo = lo-eq i }
  where
    hi-eq : s.hi ≡ t.hi
    hi-eq = omega (arith, e, v.hi-lt, w.hi-lt)

    lo-eq : s.lo ≡ t.lo
    lo-eq = omega (arith, e, v.hi-lt, w.hi-lt)

All-tail :
    (xs ys : List ℕ) → All (λ b. b < 256) (xs ++ ys) → All (λ b. b < 256) xs × All (λ b. b < 256) ys
All-tail [] ys h = (tt, h)
All-tail (x ∷ xs) ys h = let r = All-tail xs ys h.1 in ((h.0, r.0), r.1)

start-IsBytes : IsBytes crc_start
start-IsBytes = record { hi-lt = omega arith; lo-lt = omega arith }

-- Two strings of bytes that differ in one byte have different checksums: if the byte between `xs`
-- and `ys` is `b` in one and `c` in the other and the checksums agree, then `b` is `c`.
pub crc16_one_byte :
    (xs ys : List ℕ) (b c : ℕ)
    → All (λ x. x < 256) (xs ++ b ∷ ys)
    → All (λ x. x < 256) (xs ++ c ∷ ys)
    → crc16 (xs ++ b ∷ ys) ≡ crc16 (xs ++ c ∷ ys)
    → b ≡ c
unfolding crc_loop
crc16_one_byte xs ys b c h k e = crc_round-injective_byte s b c v hb.1.0 hc.1.0 (
    crc_loop-injective (crc_round s b) (crc_round s c) ys (crc_round-IsBytes s b v hb.1.0)
      (crc_round-IsBytes s c v hc.1.0) hb.1.1
      (sym (crc_loop-append crc_start xs (b ∷ ys)) ∙ whole ∙ crc_loop-append crc_start xs (c ∷ ys)))
  where
    s : CrcState
    s = crc_loop crc_start xs

    hb : All (λ x. x < 256) xs × All (λ x. x < 256) (b ∷ ys)
    hb = All-tail xs (b ∷ ys) h

    hc : All (λ x. x < 256) xs × All (λ x. x < 256) (c ∷ ys)
    hc = All-tail xs (c ∷ ys) k

    v : IsBytes s
    v = crc_loop-IsBytes crc_start xs start-IsBytes hb.0

    whole : crc_loop crc_start (xs ++ b ∷ ys) ≡ crc_loop crc_start (xs ++ c ∷ ys)
    whole =
        register-injective _ _ (crc_loop-IsBytes crc_start _ start-IsBytes h)
          (crc_loop-IsBytes crc_start _ start-IsBytes k)
          (sym (crc16-register _ h) ∙ e ∙ crc16-register _ k)
