-- ===== src/Model/Ranges.antt =====
-- The address ranges that `addCoil` and `addRegister` of src/modbus_model.cpp keep in TYPENUM.
pub mod Coverage
pub mod Bounds
use modbus_ssa_project.Prelude.{
  ℕ, suc, ◌+◌, ◌-◌, ◌/◌, Bool, true, false, List, [], ◌∷◌, Option, none, some, if◌then◌else◌, ◌≡◌,
  refl, sym, ap, ◌∙◌, ◌⊎◌, inl, inr, Bool-cases, Option-cases, arith,
}
use modbus_ssa_project.Prelude.Int.{
  ℤ, pos, negsuc, ◌+ℤ◌, ◌-ℤ◌, eq_ℤ, lt_ℤ, ◌<ℤ◌, eq_ℤ_iff, lt_ℤ→lt, lt_ℤ→le, -ℤ_parts, eq_ℤ-ne,
}
use modbus_ssa_project.Prelude.Text.{negate}
use modbus_ssa_project.Prelude.Map.{int_key, insert, last}
use modbus_ssa_project.Model.{RangeMap}

-- `it->second = it->second + n`, for `it` the last entry.
unfoldable pub grow_last : ℤ → RangeMap → RangeMap
grow_last n [] = []
grow_last n ((first, count) ∷ []) = (first, count +ℤ n) ∷ []
grow_last n (e ∷ e' ∷ m) = e ∷ grow_last n (e' ∷ m)

-- A coil at address `n` joins the last range if it is the next one, and else starts a range.
unfoldable pub add_coil_range : ℤ → RangeMap → RangeMap
unfolding grow_last
add_coil_range n m = elim (last m) [
  | none ↦ insert n (pos 1) m
  | some (first, count) ↦
      if eq_ℤ n (first +ℤ count) then grow_last (pos 1) m else insert n (pos 1) m
]

-- `/ 16` of an int, which rounds towards 0.
pub words : ℤ → ℤ
words (pos n) = pos (n / 16)
words (negsuc n) = negate (suc n / 16)

-- A register at address `n` of `bytes` words. A range that has 125 words is full.
unfoldable pub add_register_range : ℤ → ℤ → RangeMap → RangeMap
unfolding grow_last
add_register_range n bytes m = elim (last m) [
  | none ↦ insert n bytes m
  | some (first, count) ↦
      if lt_ℤ count (pos 125)
      then (if lt_ℤ (first +ℤ count) n
          then insert n bytes m
          else if eq_ℤ n (first +ℤ count)
          then grow_last bytes m
          else if eq_ℤ n (first +ℤ count -ℤ pos 1)
          then grow_last bytes m
          else m)
      else insert n bytes m
]

-- The result of adding a register, by what happens: a new entry, a longer last range (which was
-- not full, and next to the register or overlapping it by one), or nothing.
pub add_register_range_cases {ℓ} :
    (n bytes : ℤ) (m : RangeMap) (Q : RangeMap → Type ℓ)
    → Q (insert n bytes m)
    → ((first count : ℤ)
        → last m ≡ some (first, count)
        → count <ℤ pos 125
        → (n ≡ first +ℤ count) ⊎ (n ≡ first +ℤ count -ℤ pos 1)
        → Q (grow_last bytes m))
    → ((first count : ℤ) → last m ≡ some (first, count) → n <ℤ first +ℤ count -ℤ pos 1 → Q m)
    → Q (add_register_range n bytes m)
unfolding add_register_range
add_register_range_cases n bytes m Q new longer same = elim (Option-cases (last m)) [
  | inl e ↦ rw (e, add_register_range) new
  | inr ((first, count), e) ↦
      rw (e, add_register_range) (by_end first count e (first +ℤ count) refl)
]
  where
    by_end :
        (first count : ℤ)
        → last m ≡ some (first, count)
        → (end : ℤ) → end ≡ first +ℤ count
        → Q (
            if lt_ℤ count (pos 125)
            then (if lt_ℤ end n
                then insert n bytes m
                else if eq_ℤ n end
                then grow_last bytes m
                else if eq_ℤ n (end -ℤ pos 1)
                then grow_last bytes m
                else m)
            else insert n bytes m)
    by_end first count e end q = elim (Bool-cases (lt_ℤ count (pos 125))) [
      | inr full ↦ rw full new
      | inl room ↦ rw room (elim (Bool-cases (lt_ℤ end n)) [
        | inl beyond ↦ rw beyond new
        | inr near ↦ rw near (elim (Bool-cases (eq_ℤ n end)) [
          | inl next ↦ rw next (
              longer first count e (lt_ℤ→lt count (pos 125) room)
                (inl ((eq_ℤ_iff n end).0 next ∙ q)))
          | inr not_next ↦ rw not_next (elim (Bool-cases (eq_ℤ n (end -ℤ pos 1))) [
            | inl over ↦ rw over (
                longer first count e (lt_ℤ→lt count (pos 125) room)
                  (inr ((eq_ℤ_iff n (end -ℤ pos 1)).0 over ∙ ap (λ x. x -ℤ pos 1) q)))
            | inr not_over ↦ rw not_over (
                same first count e (
                  rw (sym q) (
                    omega (
                      arith,
                      -ℤ_parts end (pos 1),
                      lt_ℤ→le end n near,
                      eq_ℤ-ne n end not_next,
                      eq_ℤ-ne n (end -ℤ pos 1) not_over,
                    ))))
          ])
        ])
      ])
    ]
