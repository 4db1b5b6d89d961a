-- ===== src/Prelude/Map.antt =====
-- `std::map` as an association list in the order of its keys. `operator[]` creates a missing
-- entry; `insert` leaves an entry that is there alone.
use mathlib.Core.Path.{◌≡◌, refl, subst}
use mathlib.Core.Logic.{◌↔◌, inl, inr}
use mathlib.Core.Bool.{Bool, true, false, ◌||◌}
use mathlib.Core.Option.{Option, none, some}
use mathlib.Core.List.{List, [], ◌∷◌}
use native.Mathlib.Omega.{arith}
use modbus_ssa_project.Prelude.Tests.{if◌then◌else◌, Bool-cases}
use modbus_ssa_project.Prelude.Int.{ℤ, eq_ℤ, eq_ℤ_iff, lt_ℤ}
use modbus_ssa_project.Prelude.Text.{Text, same, same_iff, before}

-- What a key type brings: equality, and the order in which a map is walked.
pub record Key {ℓ} (K : Type ℓ) : Type ℓ where
  pub eq : K → K → Bool
  pub lt : K → K → Bool
  pub eq_iff : (a b : K) → (eq a b ≡ true) ↔ (a ≡ b)

instance abbrev pub text_key : Key Text
text_key = record { eq = same; lt = before; eq_iff = same_iff }

instance abbrev pub int_key : Key ℤ
int_key = record { eq = eq_ℤ; lt = lt_ℤ; eq_iff = eq_ℤ_iff }

abbrev pub Map {ℓ κ} : Type ℓ → Type κ → Type (ℓ ⊔ κ)
Map K V = List (K × V)

pub key_refl {ℓ} : {K : Type ℓ} ⦃key : Key K⦄ → (k : K) → key.eq k k ≡ true
key_refl ⦃key⦄ k = (key.eq_iff k k).1 refl

module _ {ℓ κ} {K : Type ℓ} {V : Type κ} ⦃key : Key K⦄ where
  unfoldable pub lookup : K → Map K V → Option V
  lookup k [] = none
  lookup k ((j, v) ∷ m) = if key.eq j k then some v else lookup k m

  unfoldable pub contains : K → Map K V → Bool
  contains k [] = false
  contains k ((j, v) ∷ m) = key.eq j k || contains k m

  -- The value at a key, or a default where there is none.
  unfoldable pub get : V → K → Map K V → V
  get d k [] = d
  get d k ((j, v) ∷ m) = if key.eq j k then v else get d k m

  unfoldable pub replace : K → (V → V) → Map K V → Map K V
  replace k f [] = []
  replace k f ((j, v) ∷ m) = if key.eq j k then (j, f v) ∷ m else (j, v) ∷ replace k f m

  unfoldable pub place : K → V → Map K V → Map K V
  place k v [] = (k, v) ∷ []
  place k v ((j, w) ∷ m) = if key.lt k j then (k, v) ∷ (j, w) ∷ m else (j, w) ∷ place k v m

  -- `f(m[k])`: changes the value at a key, which is created with the default if it is missing.
  unfoldable pub modify : V → K → (V → V) → Map K V → Map K V
  unfolding contains replace place
  modify d k f m = if contains k m then replace k f m else place k (f d) m

  -- `m[k] = v`.
  unfoldable pub assign : K → V → Map K V → Map K V
  unfolding contains replace place
  assign k v m = if contains k m then replace k (λ w. v) m else place k v m

  -- `m.insert(pair(k, v))`.
  unfoldable pub insert : K → V → Map K V → Map K V
  unfolding contains place
  insert k v m = if contains k m then m else place k v m

  -- `m.erase(k)`.
  unfoldable pub erase : K → Map K V → Map K V
  erase k [] = []
  erase k ((j, v) ∷ m) = let rest = erase k m in if key.eq j k then rest else (j, v) ∷ rest

  -- The last entry, `*m.rbegin()`.
  unfoldable pub last : Map K V → Option (K × V)
  last [] = none
  last (e ∷ []) = some e
  last (e ∷ e' ∷ m) = last (e' ∷ m)

  pub get_absent : (d : V) (k : K) (m : Map K V) → contains k m ≡ false → get d k m ≡ d
  unfolding get contains
  get_absent d k [] h = refl
  get_absent d k ((j, v) ∷ m) h = ground (arith, get_absent d k m)

  get-replace :
      (d : V) (k j : K) (f : V → V) (m : Map K V)
      → contains k m ≡ true
      → get d j (replace k f m) ≡ (if key.eq k j then f (get d k m) else get d j m)
  unfolding get contains replace
  get-replace d k j f [] h = cc
  get-replace d k j f ((i, v) ∷ m) h =
      ground (arith, key.eq_iff k j, key.eq_iff i k, key.eq_iff i j, get-replace d k j f m)

  get-place :
      (d : V) (k j : K) (v : V) (m : Map K V)
      → contains k m ≡ false
      → get d j (place k v m) ≡ (if key.eq k j then v else get d j m)
  unfolding get contains place
  get-place d k j v [] h = refl
  get-place d k j v ((i, w) ∷ m) h =
      ground (arith, key.eq_iff k j, key.eq_iff i k, key.eq_iff i j, get-place d k j v m)

  -- After a change at one key that key has the new value and every other key its old one.
  pub get-modify :
      (d : V) (k j : K) (f : V → V) (m : Map K V)
      → get d j (modify d k f m) ≡ (if key.eq k j then f (get d k m) else get d j m)
  unfolding modify
  get-modify d k j f m = elim (Bool-cases (contains k m)) [
    | inl h ↦ rw h (get-replace d k j f m h)
    | inr h ↦ rw (h, get_absent d k m h) (get-place d k j (f d) m h)
  ]

  pub get-assign :
      (d : V) (k j : K) (v : V) (m : Map K V)
      → get d j (assign k v m) ≡ (if key.eq k j then v else get d j m)
  unfolding assign
  get-assign d k j v m = elim (Bool-cases (contains k m)) [
    | inl h ↦ rw h (get-replace d k j (λ w. v) m h)
    | inr h ↦ rw h (get-place d k j v m h)
  ]

  pub get-modify_self :
      (d : V) (k : K) (f : V → V) (m : Map K V) → get d k (modify d k f m) ≡ f (get d k m)
  get-modify_self d k f m = rw (get-modify d k k f m, key_refl k)

  pub get-assign_self : (d : V) (k : K) (v : V) (m : Map K V) → get d k (assign k v m) ≡ v
  get-assign_self d k v m = rw (get-assign d k k v m, key_refl k)

  pub get-erase :
      (d : V) (k j : K) (m : Map K V) → get d j (erase k m) ≡ (if key.eq k j then d else get d j m)
  unfolding get erase
  get-erase d k j [] = ground arith
  get-erase d k j ((i, w) ∷ m) =
      ground (arith, key.eq_iff k j, key.eq_iff i k, key.eq_iff i j, get-erase d k j m)

-- A predicate of every value of a map.
module _ {ℓ κ ι} {K : Type ℓ} {V : Type κ} ⦃key : Key K⦄ (P : V → Type ι) where
  abbrev pub AllValues : Map K V → Type ι
  AllValues [] = Unit
  AllValues ((k, v) ∷ m) = P v × AllValues m

  replace-AllValues :
      (k : K) (f : V → V) (m : Map K V)
      → ((v : V) → P v → P (f v))
      → AllValues m
      → AllValues (replace k f m)
  unfolding replace
  replace-AllValues k f [] s h = h
  replace-AllValues k f ((j, v) ∷ m) s h = elim (Bool-cases (key.eq j k)) [
    | inl e ↦ rw e (s v h.0, h.1)
    | inr e ↦ rw e (h.0, replace-AllValues k f m s h.1)
  ]

  place-AllValues : (k : K) (v : V) (m : Map K V) → P v → AllValues m → AllValues (place k v m)
  unfolding place
  place-AllValues k v [] p h = (p, h)
  place-AllValues k v ((j, w) ∷ m) p h = elim (Bool-cases (key.lt k j)) [
    | inl e ↦ rw e (p, h)
    | inr e ↦ rw e (h.0, place-AllValues k v m p h.1)
  ]

  pub modify-AllValues :
      (d : V) (k : K) (f : V → V) (m : Map K V)
      → P (f d)
      → ((v : V) → P v → P (f v))
      → AllValues m
      → AllValues (modify d k f m)
  unfolding modify
  modify-AllValues d k f m p s h = elim (Bool-cases (contains k m)) [
    | inl e ↦ rw e (replace-AllValues k f m s h)
    | inr e ↦ rw e (place-AllValues k (f d) m p h)
  ]

  pub assign-AllValues :
      (k : K) (v : V) (m : Map K V) → P v → AllValues m → AllValues (assign k v m)
  unfolding assign
  assign-AllValues k v m p h = elim (Bool-cases (contains k m)) [
    | inl e ↦ rw e (replace-AllValues k (λ w. v) m (λ w q. p) h)
    | inr e ↦ rw e (place-AllValues k v m p h)
  ]

  pub insert-AllValues :
      (k : K) (v : V) (m : Map K V) → P v → AllValues m → AllValues (insert k v m)
  unfolding insert
  insert-AllValues k v m p h = elim (Bool-cases (contains k m)) [
    | inl e ↦ rw e h
    | inr e ↦ rw e (place-AllValues k v m p h)
  ]

  pub erase-AllValues : (k : K) (m : Map K V) → AllValues m → AllValues (erase k m)
  unfolding erase
  erase-AllValues k [] h = h
  erase-AllValues k ((j, v) ∷ m) h = elim (Bool-cases (key.eq j k)) [
    | inl e ↦ rw e (erase-AllValues k m h.1)
    | inr e ↦ rw e (h.0, erase-AllValues k m h.1)
  ]

  pub last-AllValues : (k : K) (v : V) (m : Map K V) → last m ≡ some (k, v) → AllValues m → P v
  unfolding last
  last-AllValues k v [] e h = cc
  last-AllValues k v ((j, w) ∷ []) e h = subst P (ground arith) h.0
  last-AllValues k v ((j, w) ∷ (j', w') ∷ m) e h = last-AllValues k v ((j', w') ∷ m) e h.1

  pub get-AllValues : (d : V) (k : K) (m : Map K V) → P d → AllValues m → P (get d k m)
  unfolding get
  get-AllValues d k [] p h = p
  get-AllValues d k ((j, v) ∷ m) p h = elim (Bool-cases (key.eq j k)) [
    | inl e ↦ rw e h.0
    | inr e ↦ rw e (get-AllValues d k m p h.1)
  ]

module _ {ℓ κ} {K : Type ℓ} {V : Type κ} ⦃key : Key K⦄ where
  contains-replace : (k j : K) (f : V → V) (m : Map K V) → contains j (replace k f m) ≡ contains j m
  unfolding contains replace
  contains-replace k j f [] = refl
  contains-replace k j f ((i, w) ∷ m) = ground (arith, contains-replace k j f m)

  contains-place :
      (k j : K) (v : V) (m : Map K V) → contains j m ≡ true → contains j (place k v m) ≡ true
  unfolding contains place
  contains-place k j v [] h = cc
  contains-place k j v ((i, w) ∷ m) h = ground (arith, contains-place k j v m)

  -- A write keeps every key.
  pub contains-assign :
      (k j : K) (v : V) (m : Map K V) → contains j m ≡ true → contains j (assign k v m) ≡ true
  unfolding assign
  contains-assign k j v m h = elim (Bool-cases (contains k m)) [
    | inl e ↦ rw (e, contains-replace k j (λ w. v) m) h
    | inr e ↦ rw e (contains-place k j v m h)
  ]

  contains-place_self : (k : K) (v : V) (m : Map K V) → contains k (place k v m) ≡ true
  unfolding contains place
  contains-place_self k v [] = ground (arith, key_refl k)
  contains-place_self k v ((i, w) ∷ m) = ground (arith, key_refl k, contains-place_self k v m)

  -- `operator[]` keeps every key, and its own is there afterwards.
  pub contains-modify :
      (d : V) (k j : K) (f : V → V) (m : Map K V)
      → contains j m ≡ true
      → contains j (modify d k f m) ≡ true
  unfolding modify
  contains-modify d k j f m h = elim (Bool-cases (contains k m)) [
    | inl e ↦ rw (e, contains-replace k j f m) h
    | inr e ↦ rw e (contains-place k j (f d) m h)
  ]

  pub contains-modify_self :
      (d : V) (k : K) (f : V → V) (m : Map K V) → contains k (modify d k f m) ≡ true
  unfolding modify
  contains-modify_self d k f m = elim (Bool-cases (contains k m)) [
    | inl e ↦ rw (e, contains-replace k k f m) e
    | inr e ↦ rw e (contains-place_self k (f d) m)
  ]

  pub contains-erase :
      (k j : K) (m : Map K V)
      → contains j m ≡ true
      → key.eq k j ≡ false
      → contains j (erase k m) ≡ true
  unfolding contains erase
  contains-erase k j [] h e = cc
  contains-erase k j ((i, w) ∷ m) h e =
      ground (arith, key.eq_iff k j, key.eq_iff i k, key.eq_iff i j, contains-erase k j m)

  pub AllValues-imp {ι ν} :
      (P : V → Type ι) (Q : V → Type ν) (m : Map K V)
      → ((v : V) → P v → Q v)
      → AllValues P m
      → AllValues Q m
  AllValues-imp P Q [] f h = tt
  AllValues-imp P Q ((k, v) ∷ m) f h = (f v h.0, AllValues-imp P Q m f h.1)

  pub get-AllValues_of_contains {ι} :
      (P : V → Type ι) (d : V) (k : K) (m : Map K V)
      → contains k m ≡ true
      → AllValues P m
      → P (get d k m)
  unfolding get contains
  get-AllValues_of_contains P d k [] e h = cc
  get-AllValues_of_contains P d k ((j, v) ∷ m) e h = elim (Bool-cases (key.eq j k)) [
    | inl q ↦ rw q h.0
    | inr q ↦ rw q (get-AllValues_of_contains P d k m (rw q at e) h.1)
  ]
