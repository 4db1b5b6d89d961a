-- ===== src/Model/Ranges/Coverage.antt =====
-- Which addresses the ranges cover.
use modbus_ssa_project.Prelude.{
  ◌≡◌, sym, ◌↔◌, ◌⊎◌, inl, inr, true, false, [], ◌∷◌, some, arith, Bool-cases, Option-cases,
}
use modbus_ssa_project.Prelude.Int.{
  ℤ, pos, ◌+ℤ◌, ◌-ℤ◌, ◌≤ℤ◌, ◌<ℤ◌, eq_ℤ, lt_ℤ, eq_ℤ_iff, lt_ℤ→lt, lt_ℤ→le, +ℤ_parts, eq_of_parts,
  int_laws,
}
use modbus_ssa_project.Prelude.Map.{
  int_key, insert, last, contains, AllValues, place, last-AllValues,
}
use modbus_ssa_project.Model.{RangeMap}
use modbus_ssa_project.Model.Ranges.{
  grow_last, add_coil_range, add_register_range, add_register_range_cases,
}

-- The address `p` lies in the range of `count` addresses from `first` on.
abbrev pub Within : ℤ → ℤ → ℤ → Type 0
Within first count p = (first ≤ℤ p) × (p <ℤ first +ℤ count)

-- Some range holds the address `p`.
abbrev pub Covered : ℤ → RangeMap → Type 0
Covered p [] = ⊥
Covered p ((first, count) ∷ m) = Within first count p ⊎ Covered p m

-- Every range has an address.
abbrev pub NoneEmpty : RangeMap → Type 0
NoneEmpty = AllValues (λ count. pos 1 ≤ℤ count)

-- Two ways to take a disjunct out from behind another.
first_out {ℓ κ ι υ} :
    {A : Type ℓ} {B : Type κ} {C : Type ι} {D : Type υ} → D ↔ (C ⊎ B) → (A ⊎ D) ↔ (C ⊎ (A ⊎ B))
first_out {A} {B} {C} {D} e = (to, from)
  where
    to : A ⊎ D → C ⊎ (A ⊎ B)
    to (inl a) = inr (inl a)
    to (inr d) = elim (e.0 d) [ inl c ↦ inl c | inr b ↦ inr (inr b) ]

    from : C ⊎ (A ⊎ B) → A ⊎ D
    from (inl c) = inr (e.1 (inl c))
    from (inr (inl a)) = inl a
    from (inr (inr b)) = inr (e.1 (inr b))

last_out {ℓ κ ι υ} :
    {A : Type ℓ} {B : Type κ} {C : Type ι} {D : Type υ} → D ↔ (B ⊎ C) → (A ⊎ D) ↔ ((A ⊎ B) ⊎ C)
last_out {A} {B} {C} {D} e = (to, from)
  where
    to : A ⊎ D → (A ⊎ B) ⊎ C
    to (inl a) = inl (inl a)
    to (inr d) = elim (e.0 d) [ inl b ↦ inl (inr b) | inr c ↦ inr c ]

    from : (A ⊎ B) ⊎ C → A ⊎ D
    from (inl (inl a)) = inl a
    from (inl (inr b)) = inr (e.1 (inl b))
    from (inr c) = inr (e.1 (inr c))

Covered-place : (p k v : ℤ) (m : RangeMap) → Covered p (place k v m) ↔ (Within k v p ⊎ Covered p m)
unfolding place
Covered-place p k v [] = (λ h. h, λ h. h)
Covered-place p k v ((j, w) ∷ m) = elim (Bool-cases (lt_ℤ k j)) [
  | inl e ↦ rw e (λ h. h, λ h. h)
  | inr e ↦ rw e (first_out (Covered-place p k v m))
]

contains-Covered : (k : ℤ) (m : RangeMap) → NoneEmpty m → contains k m ≡ true → Covered k m
unfolding contains
contains-Covered k [] h e = cc
contains-Covered k ((j, w) ∷ m) h e = elim (Bool-cases (eq_ℤ j k)) [
  | inl same ↦ inl (rw (sym ((eq_ℤ_iff j k).0 same)) (omega (arith, +ℤ_parts j w, h.0)))
  | inr other ↦ inr (contains-Covered k m h.1 (rw other at e))
]

-- An entry `(k, count)` with at least one address.
Covered-insert_one :
    (p k : ℤ) (m : RangeMap)
    → NoneEmpty m
    → Covered p (insert k (pos 1) m) ↔ (Covered p m ⊎ (p ≡ k))
unfolding insert
Covered-insert_one p k m h = elim (Bool-cases (contains k m)) [
  | inl e ↦ rw e (λ c. inl c, λ c. old e c)
  | inr e ↦
      rw e
        (λ c. to ((Covered-place p k (pos 1) m).0 c), λ c. (Covered-place p k (pos 1) m).1 (from c))
]
  where
    old : contains k m ≡ true → Covered p m ⊎ (p ≡ k) → Covered p m
    old e (inl c) = c
    old e (inr q) = rw q (contains-Covered k m h e)

    to : Within k (pos 1) p ⊎ Covered p m → Covered p m ⊎ (p ≡ k)
    to (inl w) = inr (omega (arith, +ℤ_parts k (pos 1), eq_of_parts p k))
    to (inr c) = inl c

    from : Covered p m ⊎ (p ≡ k) → Within k (pos 1) p ⊎ Covered p m
    from (inl c) = inr c
    from (inr q) = inl (rw q (omega (arith, +ℤ_parts k (pos 1))))

-- A longer range is the old one and the addresses behind its old end.
Within-grow :
    (p n first count : ℤ)
    → pos 0 ≤ℤ n
    → pos 0 ≤ℤ count
    → Within first (count +ℤ n) p ↔ (Within first count p ⊎ Within (first +ℤ count) n p)
Within-grow p n first count h k = (to, from)
  where
    to : Within first (count +ℤ n) p → Within first count p ⊎ Within (first +ℤ count) n p
    to w = elim (Bool-cases (lt_ℤ p (first +ℤ count))) [
      | inl e ↦ inl (w.0, lt_ℤ→lt p (first +ℤ count) e)
      | inr e ↦ inr (lt_ℤ→le p (first +ℤ count) e, omega int_laws)
    ]

    from : Within first count p ⊎ Within (first +ℤ count) n p → Within first (count +ℤ n) p
    from (inl w) = omega int_laws
    from (inr w) = omega int_laws

-- Growing the last range adds the addresses from its old end on.
Covered-grow_last :
    (p n first count : ℤ) (m : RangeMap)
    → last m ≡ some (first, count)
    → pos 0 ≤ℤ n
    → pos 0 ≤ℤ count
    → Covered p (grow_last n m) ↔ (Covered p m ⊎ Within (first +ℤ count) n p)
unfolding last grow_last
Covered-grow_last p n first count [] e h k = cc
Covered-grow_last p n first count ((f, c) ∷ []) e h k = rw (f-eq, c-eq) ((λ x. to x), (λ x. from x))
  where
    f-eq : f ≡ first
    f-eq = ground arith

    c-eq : c ≡ count
    c-eq = ground arith

    to : Within first (count +ℤ n) p ⊎ ⊥ → (Within first count p ⊎ ⊥) ⊎ Within (first +ℤ count) n p
    to (inl w) = elim ((Within-grow p n first count h k).0 w) [
      | inl a ↦ inl (inl a)
      | inr b ↦ inr b
    ]
    to (inr w) = absurd w

    from :
        (Within first count p ⊎ ⊥) ⊎ Within (first +ℤ count) n p → Within first (count +ℤ n) p ⊎ ⊥
    from (inl (inl w)) = inl ((Within-grow p n first count h k).1 (inl w))
    from (inl (inr w)) = absurd w
    from (inr w) = inl ((Within-grow p n first count h k).1 (inr w))
Covered-grow_last p n first count ((f, c) ∷ (f', c') ∷ m) e h k =
    last_out (Covered-grow_last p n first count ((f', c') ∷ m) e h k)

-- Adding a coil covers its address and none but it: an address lies in a range afterwards exactly
-- if it did before or is the new one, as long as no range is empty.
pub Covered-add_coil_range :
    (p n : ℤ) (m : RangeMap)
    → NoneEmpty m
    → Covered p (add_coil_range n m) ↔ (Covered p m ⊎ (p ≡ n))
unfolding add_coil_range
Covered-add_coil_range p n m h = elim (Option-cases (last m)) [
  | inl e ↦ rw (e, add_coil_range) (Covered-insert_one p n m h)
  | inr ((first, count), e) ↦ elim (Bool-cases (eq_ℤ n (first +ℤ count))) [
    | inl next ↦
        rw (e, add_coil_range, next) (joins first count e ((eq_ℤ_iff n (first +ℤ count)).0 next))
    | inr apart ↦ rw (e, add_coil_range, apart) (Covered-insert_one p n m h)
  ]
]
  where
    to :
        (first count : ℤ)
        → n ≡ first +ℤ count
        → Covered p m ⊎ Within (first +ℤ count) (pos 1) p
        → Covered p m ⊎ (p ≡ n)
    to first count next (inl c) = inl c
    to first count next (inr w) =
        inr (
          rw next
            (omega (arith, +ℤ_parts (first +ℤ count) (pos 1), eq_of_parts p (first +ℤ count))))

    from :
        (first count : ℤ)
        → n ≡ first +ℤ count
        → Covered p m ⊎ (p ≡ n)
        → Covered p m ⊎ Within (first +ℤ count) (pos 1) p
    from first count next (inl c) = inl c
    from first count next (inr q) =
        inr (rw (q, next) (omega (arith, +ℤ_parts (first +ℤ count) (pos 1))))

    joins :
        (first count : ℤ)
        → last m ≡ some (first, count)
        → n ≡ first +ℤ count
        → Covered p (grow_last (pos 1) m) ↔ (Covered p m ⊎ (p ≡ n))
    joins first count e next =
        let some_address = last-AllValues (λ c. pos 1 ≤ℤ c) first count m e h in
        let grown = Covered-grow_last p (pos 1) first count m e (omega arith) (omega arith) in
        (λ c. to first count next (grown.0 c), λ c. grown.1 (from first count next c))

last-Covered :
    (p first count : ℤ) (m : RangeMap)
    → last m ≡ some (first, count)
    → Within first count p
    → Covered p m
unfolding last
last-Covered p first count [] e w = cc
last-Covered p first count ((f, c) ∷ []) e w =
    let f-eq : f ≡ first = ground arith in
    let c-eq : c ≡ count = ground arith in inl (rw (f-eq, c-eq) w)
last-Covered p first count ((f, c) ∷ (f', c') ∷ m) e w =
    inr (last-Covered p first count ((f', c') ∷ m) e w)

-- A register that overlaps the range `first`, `count` by one lies in it and behind its end.
Within-overlap :
    (p n bytes first count : ℤ)
    → pos 1 ≤ℤ count
    → first +ℤ count -ℤ pos 1 ≤ℤ n
    → n ≤ℤ first +ℤ count
    → Within n bytes p
    → Within first count p ⊎ Within (first +ℤ count) bytes p
Within-overlap p n bytes first count h low high w = elim (Bool-cases (lt_ℤ p (first +ℤ count))) [
  | inl e ↦ inl (omega int_laws, lt_ℤ→lt p (first +ℤ count) e)
  | inr e ↦ inr (lt_ℤ→le p (first +ℤ count) e, omega int_laws)
]

module _ (p n bytes : ℤ) (m : RangeMap) (words_nonneg : pos 0 ≤ℤ bytes) where
  Covered-insert : Covered p m → Covered p (insert n bytes m)
  unfolding insert
  Covered-insert c = elim (Bool-cases (contains n m)) [
    | inl e ↦ rw e c
    | inr e ↦ rw e ((Covered-place p n bytes m).1 (inr c))
  ]

  Within-insert : contains n m ≡ false → Within n bytes p → Covered p (insert n bytes m)
  unfolding insert
  Within-insert e w = rw e ((Covered-place p n bytes m).1 (inl w))

  -- Adding a register of a non-negative number of words, to ranges none of which is empty,
  -- uncovers no address. If it does not start before the last address of the last range, and
  -- no range starts where it does, then all its words are covered.
  pub Covered-add_register_range :
      NoneEmpty m
      → (Covered p m → Covered p (add_register_range n bytes m))
        × (((first count : ℤ) → last m ≡ some (first, count) → first +ℤ count -ℤ pos 1 ≤ℤ n)
            → contains n m ≡ false
            → Within n bytes p
            → Covered p (add_register_range n bytes m))
  Covered-add_register_range h =
      add_register_range_cases n bytes m
        (λ result.
          (Covered p m → Covered p result)
          × (((first count : ℤ) → last m ≡ some (first, count) → first +ℤ count -ℤ pos 1 ≤ℤ n)
              → contains n m ≡ false
              → Within n bytes p
              → Covered p result))
        (Covered-insert, λ a b c. Within-insert b c)
        (λ first count e room joins.
          let nonempty = last-AllValues (λ c. pos 1 ≤ℤ c) first count m e h in
          let grown = Covered-grow_last p bytes first count m e words_nonneg (omega arith) in
          (
            λ c. grown.1 (inl c),
            λ low absent w.
                grown.1
                  (elim (Within-overlap p n bytes first count nonempty (low first count e)
                    (elim joins [ inl q ↦ rw q (omega arith) | inr q ↦ rw q (omega int_laws) ]) w) [
                      | inl old ↦ inl (last-Covered p first count m e old)
                      | inr beyond ↦ inr beyond
                    ]),
          ))
        (λ first count e inside.
          (λ c. c, λ low absent w. absurd (omega (arith, low first count e))))
