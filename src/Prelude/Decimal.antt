-- ===== src/Prelude/Decimal.antt =====
-- `atoi` reads back what `to_string` writes.
use Prim.Native.Nat.{ℕ, zero, suc, ◌+◌, ◌-◌, ◌*◌, ◌/◌, ◌%◌, ◌≤◌, ◌<◌}
use mathlib.Core.Path.{◌≡◌, refl, ap, sym, ◌∙◌}
use mathlib.Core.Logic.{inl, inr}
use mathlib.Core.Bool.{true}
use mathlib.Core.List.{[], ◌∷◌, ◌++◌, append_assoc, append-nil}
use native.Mathlib.Omega.{arith}
use modbus_ssa_project.Prelude.Tests.{ltb, Bool-cases}
use modbus_ssa_project.Prelude.Int.{ℤ, pos, negsuc}
use modbus_ssa_project.Prelude.Text.{
  Text, digits, to_text, to_string, is_digit, digits_value, negate, is_space, skip_space, signed,
  atoi,
}

digits_value-digit :
    (acc d : ℕ) (rest : Text)
    → d < 10
    → digits_value acc ((b'0' + d) ∷ rest) ≡ digits_value (acc * 10 + d) rest
unfolding digits_value is_digit
digits_value-digit acc d rest h = rw (test, cut) refl
  where
    test : is_digit (b'0' + d) ≡ true
    test = ground arith

    cut : b'0' + d - b'0' ≡ d
    cut = omega arith

digits_value-digits :
    (f n : ℕ) (rest : Text) → n < f → digits_value 0 (digits f n ++ rest) ≡ digits_value n rest
unfolding digits
digits_value-digits zero n rest h = absurd (omega arith)
digits_value-digits (suc f) n rest h = elim (Bool-cases (ltb n 10)) [
  | inl small ↦
      rw small
        (digits_value-digit 0 n rest (ground arith) ∙ ap (λ x. digits_value x rest) (omega arith))
  | inr large ↦
      rw (large, append_assoc (digits f (n / 10)) ((b'0' + n % 10) ∷ []) rest)
        (digits_value-digits f (n / 10) ((b'0' + n % 10) ∷ rest) (ground arith)
          ∙ (digits_value-digit (n / 10) (n % 10) rest (omega arith)
              ∙ ap (λ x. digits_value x rest) (omega arith)))
]

-- A text that begins with a digit.
Starts : Text → Type 0
Starts [] = 1 ≤ 0
Starts (c ∷ s) = (48 ≤ c) × (c ≤ 57)

Starts-append : (s t : Text) → Starts s → Starts (s ++ t)
unfolding Starts
Starts-append [] t h = absurd (omega arith)
Starts-append (c ∷ s) t h = h

digits-Starts : (f n : ℕ) → n < f → Starts (digits f n)
unfolding digits Starts
digits-Starts zero n h = absurd (omega arith)
digits-Starts (suc f) n h = elim (Bool-cases (ltb n 10)) [
  | inl small ↦ rw small (ground arith)
  | inr large ↦ rw large (
      Starts-append (digits f (n / 10)) ((b'0' + n % 10) ∷ [])
        (digits-Starts f (n / 10) (ground arith)))
]

atoi-Starts : (s : Text) → Starts s → atoi s ≡ pos (digits_value 0 s)
unfolding atoi skip_space signed is_space Starts
atoi-Starts [] h = absurd (omega arith)
atoi-Starts (c ∷ s) h = ground arith

to_text-value : (n : ℕ) → digits_value 0 (to_text n) ≡ n
unfolding to_text digits_value
to_text-value n =
    ap (digits_value 0) (sym (append-nil (digits (suc n) n)))
    ∙ digits_value-digits (suc n) n [] (omega arith)

pub atoi-to_string : (n : ℤ) → atoi (to_string n) ≡ n
unfolding to_string atoi digits_value
atoi-to_string (pos n) =
    atoi-Starts (to_text n) (digits-Starts (suc n) n (omega arith)) ∙ ap pos (to_text-value n)
atoi-to_string (negsuc n) = ap negate (to_text-value (suc n))
