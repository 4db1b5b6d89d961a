-- ===== src/Parse/Registers/Orders.antt =====
-- The byte orders of `analyticalType` in parseHR and parseIR of src/modbus_p.cpp.
use modbus_ssa_project.Prelude.{
  ℕ, ◌+◌, ◌/◌, ◌%◌, ◌^◌, ◌<◌, List, [], ◌∷◌, ◌++◌, ◌≡◌, ap, ◌∙◌, suc, length, arith,
}
use modbus_ssa_project.Prelude.Int.{ℤ, pos}
use modbus_ssa_project.Frame.{byte}
use modbus_ssa_project.Parse.Registers.{decode}

-- Where the highest, the second, the third and the lowest byte of a number stand.
pub data ByteOrder : Type 0 where
  high_first : ByteOrder
  low_first : ByteOrder
  high_first_swapped : ByteOrder
  words_swapped : ByteOrder

abbrev pub analytical_type : ByteOrder → ℤ
analytical_type high_first = pos 2
analytical_type low_first = pos 3
analytical_type high_first_swapped = pos 4
analytical_type words_swapped = pos 5

abbrev pub arranged : ByteOrder → ℕ → ℕ → ℕ → ℕ → List ℕ
arranged high_first a b c d = a ∷ b ∷ c ∷ d ∷ []
arranged low_first a b c d = d ∷ c ∷ b ∷ a ∷ []
arranged high_first_swapped a b c d = b ∷ a ∷ d ∷ c ∷ []
arranged words_swapped a b c d = c ∷ d ∷ a ∷ b ∷ []

-- The bytes of a number in an order.
abbrev pub encoded : ByteOrder → ℕ → List ℕ
encoded order n = arranged order (n / 2 ^ 24) (n / 2 ^ 16 % 256) (n / 2 ^ 8 % 256) (n % 256)

byte_behind :
    (before rest : List ℕ) (k : ℕ) → byte (before ++ rest) (length before + k) ≡ byte rest k
byte_behind [] rest k = ap (byte rest) (omega arith)
byte_behind (x ∷ before) rest k =
    ap (byte (x ∷ (before ++ rest))) (suc_plus (length before) k) ∙ byte_behind before rest k
  where
    suc_plus : (m n : ℕ) → suc m + n ≡ suc (m + n)
    suc_plus m n = omega arith

byte_next : (before rest : List ℕ) → byte (before ++ rest) (length before) ≡ byte rest 0
byte_next before rest =
    ap (byte (before ++ rest)) (plus_zero (length before)) ∙ byte_behind before rest 0
  where
    plus_zero : (n : ℕ) → n ≡ n + 0
    plus_zero n = omega arith

-- Four bytes in any of the four orders are read back as their number, cut to the width of the
-- variable: 32 bits in parseHR and 16 in parseIR.
pub decode-encoded :
    (order : ByteOrder) (width n : ℕ) (before after : List ℕ)
    → n < 2 ^ 32
    → decode width (before ++ (encoded order n ++ after)) (length before) 4 (analytical_type order)
      ≡ n % 2 ^ width
unfolding decode
decode-encoded high_first width n before after small =
    rw
      (
        byte_next before rest,
        byte_behind before rest 1,
        byte_behind before rest 2,
        byte_behind before rest 3,
      )
      (ap (λ t. t % 2 ^ width) (omega arith))
  where
    rest : List ℕ
    rest = encoded high_first n ++ after
decode-encoded low_first width n before after small =
    rw
      (
        byte_next before rest,
        byte_behind before rest 1,
        byte_behind before rest 2,
        byte_behind before rest 3,
      )
      (ap (λ t. t % 2 ^ width) (omega arith))
  where
    rest : List ℕ
    rest = encoded low_first n ++ after
decode-encoded high_first_swapped width n before after small =
    rw
      (
        byte_next before rest,
        byte_behind before rest 1,
        byte_behind before rest 2,
        byte_behind before rest 3,
      )
      (ap (λ t. t % 2 ^ width) (omega arith))
  where
    rest : List ℕ
    rest = encoded high_first_swapped n ++ after
decode-encoded words_swapped width n before after small =
    rw
      (
        byte_next before rest,
        byte_behind before rest 1,
        byte_behind before rest 2,
        byte_behind before rest 3,
      )
      (ap (λ t. t % 2 ^ width) (omega arith))
  where
    rest : List ℕ
    rest = encoded words_swapped n ++ after
