-- ===== src/Prelude/Keys.antt =====
-- Which keys a `std::map` has after it is changed.
use modbus_ssa_project.Prelude.Tests.{Bool-cases}
use mathlib.Core.Path.{◌≡◌, refl, ◌∙◌, sym}
use mathlib.Core.Logic.{inl, inr}
use mathlib.Core.Bool.{true, ◌||◌}
use mathlib.Core.List.{[], ◌∷◌}
use native.Mathlib.Omega.{arith}
use modbus_ssa_project.Prelude.Map.{Key, Map, contains, replace, place, modify, assign}

module _ {ℓ κ} {K : Type ℓ} {V : Type κ} ⦃key : Key K⦄ where
  contains-replace : (k j : K) (f : V → V) (m : Map K V) → contains k (replace j f m) ≡ contains k m
  unfolding contains replace
  contains-replace k j f [] = refl
  contains-replace k j f ((i, v) ∷ m) = ground (arith, contains-replace k j f m)

  contains-place :
      (k j : K) (v : V) (m : Map K V) → contains k (place j v m) ≡ (contains k m || key.eq j k)
  unfolding contains place
  contains-place k j v [] = ground arith
  contains-place k j v ((i, w) ∷ m) = ground (arith, contains-place k j v m)

  -- A key that the map has had already.
  known_key :
      (k j : K) (m : Map K V) → contains j m ≡ true → contains k m ≡ (contains k m || key.eq j k)
  known_key k j m h = elim (Bool-cases (key.eq j k)) [
    | inl e ↦ rw (sym ((key.eq_iff j k).0 e), h) refl
    | inr e ↦ rw e (ground arith)
  ]

  pub contains-modify_eq :
      (d : V) (k j : K) (f : V → V) (m : Map K V)
      → contains k (modify d j f m) ≡ (contains k m || key.eq j k)
  unfolding modify
  contains-modify_eq d k j f m = elim (Bool-cases (contains j m)) [
    | inl e ↦ rw e (contains-replace k j f m ∙ known_key k j m e)
    | inr e ↦ rw e (contains-place k j (f d) m)
  ]

  pub contains-assign_eq :
      (k j : K) (v : V) (m : Map K V) → contains k (assign j v m) ≡ (contains k m || key.eq j k)
  unfolding assign
  contains-assign_eq k j v m = elim (Bool-cases (contains j m)) [
    | inl e ↦ rw e (contains-replace k j (λ w. v) m ∙ known_key k j m e)
    | inr e ↦ rw e (contains-place k j v m)
  ]
