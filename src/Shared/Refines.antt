-- ===== src/Shared/Refines.antt =====
-- What include/map.h promises: the map is a partial function from keys to values.
use mathlib.Core.Path.{fun_ext}
use modbus_ssa_project.Prelude.{
  Bool, true, false, Option, none, some, [], ◌∷◌, if◌then◌else◌, ◌≡◌, refl, ap, sym, ◌∙◌,
  Bool-cases, inl, inr, arith,
}
use modbus_ssa_project.Prelude.Map.{
  Map, Key, key_refl, lookup, get, get_absent, contains, replace, place, modify,
}
use modbus_ssa_project.Prelude.Map as Std
use modbus_ssa_project.Shared.{insert, erase, index, erase_value}

abbrev pub or_else {ℓ} : {V : Type ℓ} → V → Option V → V
or_else d none = d
or_else d (some v) = v

module _ {ℓ κ} {K : Type ℓ} {V : Type κ} ⦃key : Key K⦄ where
  get-lookup : (d : V) (k : K) (m : Map K V) → get d k m ≡ or_else d (lookup k m)
  unfolding get lookup
  get-lookup d k [] = refl
  get-lookup d k ((j, v) ∷ m) = ground (arith, get-lookup d k m)

  contains-lookup :
      (k : K) (m : Map K V) → contains k m ≡ elim (lookup k m) [ none ↦ false | some v ↦ true ]
  unfolding contains lookup
  contains-lookup k [] = refl
  contains-lookup k ((j, v) ∷ m) = ground (arith, contains-lookup k m)

  lookup-place :
      (k j : K) (v : V) (m : Map K V)
      → contains k m ≡ false
      → lookup j (place k v m) ≡ (if key.eq k j then some v else lookup j m)
  unfolding lookup contains place
  lookup-place k j v [] h = refl
  lookup-place k j v ((i, w) ∷ m) h =
      ground (arith, key.eq_iff k j, key.eq_iff i k, key.eq_iff i j, lookup-place k j v m)

  lookup-replace_self : (k j : K) (m : Map K V) → lookup j (replace k (λ v. v) m) ≡ lookup j m
  unfolding lookup replace
  lookup-replace_self k j [] = refl
  lookup-replace_self k j ((i, w) ∷ m) = ground (arith, lookup-replace_self k j m)

  lookup-erase :
      (k j : K) (m : Map K V) → lookup j (Std.erase k m) ≡ (if key.eq k j then none else lookup j m)
  unfolding lookup Std.erase
  lookup-erase k j [] = ground arith
  lookup-erase k j ((i, w) ∷ m) =
      ground (arith, key.eq_iff k j, key.eq_iff i k, key.eq_iff i j, lookup-erase k j m)

  -- `insert` and `operator[]`: a missing entry is created, and every other stays.
  lookup-created :
      (k j : K) (v : V) (m n : Map K V)
      → (contains k m ≡ true → (i : K) → lookup i n ≡ lookup i m)
      → (contains k m ≡ false → n ≡ place k v m)
      → lookup j n ≡ (if key.eq k j then some (get v k m) else lookup j m)
  lookup-created k j v m n old new = elim (Bool-cases (contains k m)) [
    | inl h ↦ ground (arith, old h j, contains-lookup k m, get-lookup v k m, key.eq_iff k j)
    | inr h ↦ rw (new h, lookup-place k j v m h, get_absent v k m h)
  ]

  lookup-insert :
      (k j : K) (v : V) (m : Map K V)
      → lookup j (Std.insert k v m) ≡ (if key.eq k j then some (get v k m) else lookup j m)
  unfolding Std.insert
  lookup-insert k j v m = lookup-created k j v m (Std.insert k v m) (λ h i. rw h) (λ h. rw h)

  lookup-modify_self :
      (k j : K) (v : V) (m : Map K V)
      → lookup j (modify v k (λ w. w) m) ≡ (if key.eq k j then some (get v k m) else lookup j m)
  unfolding modify
  lookup-modify_self k j v m =
      lookup-created k j v m (modify v k (λ w. w) m) (λ h i. rw h (lookup-replace_self k i m))
        (λ h. rw h)

-- A partial function, and what the operations do to it.
abbrev pub Partial {ℓ κ} : Type ℓ → Type κ → Type (ℓ ⊔ κ)
Partial K V = K → Option V

module _ {ℓ κ} {K : Type ℓ} {V : Type κ} ⦃key : Key K⦄ where
  abbrev pub view : Map K V → Partial K V
  view m j = lookup j m

  abbrev pub with_default : K → V → Partial K V → Partial K V
  with_default k v f j = if key.eq k j then some (or_else v (f k)) else f j

  abbrev pub without : K → Partial K V → Partial K V
  without k f j = if key.eq k j then none else f j

  -- The operations of the map are those on the partial function that it stands for: `insert` gives a
  -- key a value if it has none, and `operator[]` the default; `erase(key)` takes the value away, and
  -- `erase(key, value)` only if it is the given one.
  pub Map_refines_Partial :
      (d : V) (eq : V → V → Bool) (k : K) (v : V) (m : Map K V)
      → (view (insert d eq k v m) ≡ with_default k v (view m))
        × (view (erase d eq k m) ≡ without k (view m))
        × ((index d eq k m).0 ≡ or_else d (view m k))
        × (view (index d eq k m).1 ≡ with_default k d (view m))
        × (view (erase_value d eq k v m) ≡ (
            if eq (or_else d (view m k)) v then without k (view m) else with_default k d (view m)))
  unfolding insert erase index erase_value
  Map_refines_Partial d eq k v m = (
    fun_ext (λ j. rw (lookup-insert k j v m, get-lookup v k m) refl),
    fun_ext (λ j. lookup-erase k j m),
    get-lookup d k m,
    fun_ext found,
    fun_ext (λ j. elim (Bool-cases (eq (get d k m) v)) [
      | inl e ↦
          rw (e, seen true e) (ground (arith, lookup-erase k j (modify d k (λ w. w) m), found j))
      | inr e ↦ rw (e, seen false e) (found j)
    ]),
  )
    where
      seen : (b : Bool) → eq (get d k m) v ≡ b → eq (or_else d (lookup k m)) v ≡ b
      seen b e = ap (λ w. eq w v) (sym (get-lookup d k m)) ∙ e

      found : (j : K) → lookup j (modify d k (λ w. w) m) ≡ with_default k d (view m) j
      found j = rw (lookup-modify_self k j d m, get-lookup d k m) refl
