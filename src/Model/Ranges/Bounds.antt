-- ===== src/Model/Ranges/Bounds.antt =====
-- How long the ranges become.
use modbus_ssa_project.Prelude.{
  ℕ, ◌+◌, ◌≡◌, inl, inr, [], ◌∷◌, some, arith, Bool-cases, Option-cases,
}
use modbus_ssa_project.Prelude.Int.{ℤ, pos, ◌+ℤ◌, ◌≤ℤ◌, eq_ℤ, +ℤ_parts}
use modbus_ssa_project.Prelude.Map.{
  int_key, insert, last, AllValues, insert-AllValues, last-AllValues,
}
use modbus_ssa_project.Model.{RangeMap}
use modbus_ssa_project.Model.Ranges.{
  grow_last, add_coil_range, add_register_range, add_register_range_cases,
}
use modbus_ssa_project.Model.Ranges.Coverage.{NoneEmpty}

module _ {ι} (P : ℤ → Type ι) where
  pub grow_last-AllValues :
      (n first count : ℤ) (m : RangeMap)
      → last m ≡ some (first, count)
      → P (count +ℤ n)
      → AllValues P m
      → AllValues P (grow_last n m)
  unfolding last grow_last
  grow_last-AllValues n first count [] e p h = cc
  grow_last-AllValues n first count ((f, c) ∷ []) e p h =
      let c-eq : c ≡ count = ground arith in (rw c-eq p, tt)
  grow_last-AllValues n first count ((f, c) ∷ e' ∷ m) e p h =
      (h.0, grow_last-AllValues n first count (e' ∷ m) e p h.1)

pub add_coil_range-NoneEmpty : (n : ℤ) (m : RangeMap) → NoneEmpty m → NoneEmpty (add_coil_range n m)
unfolding add_coil_range
add_coil_range-NoneEmpty n m h = elim (Option-cases (last m)) [
  | inl e ↦ rw (e, add_coil_range) new
  | inr ((first, count), e) ↦ elim (Bool-cases (eq_ℤ n (first +ℤ count))) [
    | inl next ↦ rw (e, add_coil_range, next) (longer first count e)
    | inr apart ↦ rw (e, add_coil_range, apart) new
  ]
]
  where
    new : NoneEmpty (insert n (pos 1) m)
    new = insert-AllValues (λ c. pos 1 ≤ℤ c) n (pos 1) m (omega arith) h

    longer : (first count : ℤ) → last m ≡ some (first, count) → NoneEmpty (grow_last (pos 1) m)
    longer first count e =
        let one = last-AllValues (λ c. pos 1 ≤ℤ c) first count m e h in
        grow_last-AllValues (λ c. pos 1 ≤ℤ c) (pos 1) first count m e
          (omega (arith, one, +ℤ_parts count (pos 1))) h

-- If no range has more than `124 + most` words and a register has `most` words at most, then
-- no range has more than `124 + most` words after it is added: 125, the limit of the protocol, for
-- registers of one word.
pub add_register_range-le :
    (n bytes : ℤ) (most : ℕ) (m : RangeMap)
    → bytes ≤ℤ pos most
    → AllValues (λ count. count ≤ℤ pos (124 + most)) m
    → AllValues (λ count. count ≤ℤ pos (124 + most)) (add_register_range n bytes m)
add_register_range-le n bytes most m short h =
    add_register_range_cases n bytes m (AllValues (λ count. count ≤ℤ pos (124 + most)))
      (insert-AllValues (λ count. count ≤ℤ pos (124 + most)) n bytes m (omega arith) h)
      (λ first count e room joins.
        grow_last-AllValues (λ count. count ≤ℤ pos (124 + most)) bytes first count m e
          (omega (arith, +ℤ_parts count bytes)) h)
      (λ first count e inside. h)
