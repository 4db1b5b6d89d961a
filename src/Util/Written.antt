-- ===== src/Util/Written.antt =====
-- unbat of src/util.cpp, against the field of a number as arithmetic, and bat behind it.
use native.Mathlib.Nat.{
  mod-eq_of_lt, mod-lt, mul-le-mul_right, mul_comm, add-mul, mul-add-mod_self_left,
  div-lt_iff_lt-mul, div-eq_of_lt-le,
}
use modbus_ssa_project.Prelude.{
  ℕ, ◌+◌, ◌-◌, ◌*◌, ◌/◌, ◌%◌, ◌^◌, ◌≤◌, ◌<◌, bit_and, bit_or, some, ◌≡◌, refl, ap, sym, ◌∙◌, arith,
}
use modbus_ssa_project.Prelude.Int.{ℤ, pos}
use modbus_ssa_project.Prelude.Text.{Text, text, same}
use modbus_ssa_project.Util.Decode.{pow_add}
use modbus_ssa_project.Util.Fields.{positive, bit_and-shifted, field_value, bat-field_value}
use modbus_ssa_project.Util.Around.{apart, bit_or_fuel, field_below, around, bit_and-around}
use modbus_ssa_project.Util.{bat, unbat, absolute_value}

-- The register `old` with the number `v` in place of its `nb` bits from `sb` on.
abbrev pub replaced : ℕ → ℕ → ℕ → ℕ → ℕ
replaced old sb nb v = old / 2 ^ (sb + nb) * 2 ^ (sb + nb) + (v * 2 ^ sb + old % 2 ^ sb)

module _ (old sb nb v : ℕ) (is_word : old < 2 ^ 16) (fits : sb + nb ≤ 16) (l : v < 2 ^ nb) where
  abbrev upper : ℕ
  upper = old / 2 ^ (sb + nb)

  lower-lt : old % 2 ^ sb < 2 ^ sb
  lower-lt = mod-lt old {m = 2 ^ sb} (positive sb)

  -- A number above the lower bits.
  over : (q : ℕ) → (q * 2 ^ sb + old % 2 ^ sb) / 2 ^ sb ≡ q
  over q =
      div-eq_of_lt-le {k = q} (2 ^ sb) (omega arith) (omega (arith, lower-lt, add-mul q 1 (2 ^ sb)))

  upper-place : upper * 2 ^ (sb + nb) ≡ upper * 2 ^ nb * 2 ^ sb
  upper-place = ap (◌*◌ upper) (pow_add sb nb) ∙ shuffle upper (2 ^ sb) (2 ^ nb)
    where
      shuffle : (a b c : ℕ) → a * (b * c) ≡ a * c * b
      shuffle a b c = grind arith

  around-apart : bit_and (around old sb nb) (v * 2 ^ sb) ≡ 0
  around-apart =
      bit_and-shifted sb (around old sb nb) v
      ∙ (ap (λ y. bit_and y v * 2 ^ sb)
            (ap (λ y. (y + old % 2 ^ sb) / 2 ^ sb) upper-place ∙ over (upper * 2 ^ nb))
          ∙ (ap (λ y. y * 2 ^ sb) (apart nb upper v l) ∙ omega arith))

  joined : bit_or (around old sb nb) (v * 2 ^ sb) ≡ replaced old sb nb v
  joined =
      bit_or_fuel (around old sb nb + v * 2 ^ sb) (around old sb nb) (v * 2 ^ sb) (omega arith)
        around-apart
      ∙ omega arith

  replaced-lt : replaced old sb nb v < 2 ^ 16
  replaced-lt = omega (
    arith,
    inside,
    add-mul upper 1 p,
    whole,
    mul-le-mul_right {m = upper + 1} {n = 2 ^ (16 - (sb + nb))} p above,
  )
    where
      p : ℕ
      p = 2 ^ (sb + nb)

      whole : 2 ^ (16 - (sb + nb)) * p ≡ 2 ^ 16
      whole = sym (pow_add (16 - (sb + nb)) (sb + nb)) ∙ ap (◌^◌ 2) all
        where
          all : 16 - (sb + nb) + (sb + nb) ≡ 16
          all = omega (arith, fits)

      below_power : upper < 2 ^ (16 - (sb + nb))
      below_power = (div-lt_iff_lt-mul (positive (sb + nb))).1 (omega (arith, is_word, whole))

      above : upper + 1 ≤ 2 ^ (16 - (sb + nb))
      above = omega (arith, below_power)

      inside : v * 2 ^ sb + old % 2 ^ sb < p
      inside = omega (
        arith,
        lower-lt,
        add-mul v 1 (2 ^ sb),
        mul-le-mul_right {m = v + 1} {n = 2 ^ nb} (2 ^ sb) (omega (arith, l)),
        pow_add sb nb,
        mul_comm (2 ^ sb) (2 ^ nb),
      )

  field-replaced : replaced old sb nb v / 2 ^ sb % 2 ^ nb ≡ v
  field-replaced =
      ap (λ y. y / 2 ^ sb % 2 ^ nb) regrouped
      ∙ (ap (λ y. y % 2 ^ nb) (over (upper * 2 ^ nb + v))
          ∙ (ap (λ y. (y + v) % 2 ^ nb) (mul_comm upper (2 ^ nb))
              ∙ (mul-add-mod_self_left (2 ^ nb) upper v ∙ mod-eq_of_lt l)))
    where
      regrouped : replaced old sb nb v ≡ (upper * 2 ^ nb + v) * 2 ^ sb + old % 2 ^ sb
      regrouped = omega (arith, upper-place, add-mul (upper * 2 ^ nb) v (2 ^ sb))

-- What unbat writes into a field, bat reads: where the field is within a register of 16 bits and the
-- value's absolute value fits it, the register has that in the field afterwards and its other bits as
-- before, and bat gives the field of the register as that, taken as two's complement if it is signed.
pub bat-unbat :
    (old sb nb : ℕ) (value : ℤ) (is_signed : Text)
    → old < 2 ^ 16
    → 0 < nb
    → sb + nb ≤ 16
    → absolute_value value < 2 ^ nb
    → (unbat old sb nb value
        ≡ some (replaced old sb nb (absolute_value value), pos (absolute_value value)))
      × (bat (replaced old sb nb (absolute_value value)) sb nb is_signed
          ≡ some (field_value (same is_signed (text "true")) nb (absolute_value value)))
unfolding unbat
bat-unbat old sb nb value is_signed is_word some_bits fits l = (
  rw
      (
        bit_and-around 32 old sb nb (omega (arith, is_word)) (omega (arith, fits)),
        joined old sb nb v is_word fits l,
      )
      (ground (
        arith,
        replaced-lt old sb nb v is_word fits l,
        field_below 31 sb nb (2 ^ nb - 1) (omega (arith, positive nb)) (omega (arith, fits)),
        field_below 31 sb nb v l (omega (arith, fits)),
      )),
  bat-field_value (replaced old sb nb v) sb nb is_signed
        (omega (arith, replaced-lt old sb nb v is_word fits l)) some_bits (omega (arith, fits))
      ∙ rw (field-replaced old sb nb v is_word fits l) refl,
)
  where
    v : ℕ
    v = absolute_value value
