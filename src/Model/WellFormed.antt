-- ===== src/Model/WellFormed.antt =====
-- The invariant of the point tables, kept by every message and every new device: the rows have
-- the lengths at which they are read, and every vector of TYPENUM has its four range maps.
use modbus_ssa_project.Prelude.{
  ℕ, zero, suc, ◌<◌, ◌≤◌, ◌≡◌, ◌≢◌, refl, inl, inr, true, List, [], ◌∷◌, some, arith, Bool-cases,
  Option-cases, length, length-set, get_elem?, All,
}
use modbus_ssa_project.Prelude.Text.{Text}
use modbus_ssa_project.Prelude.Map.{
  Map, text_key, get, contains, AllValues, modify-AllValues, assign-AllValues, get_absent,
  get-AllValues_of_contains,
}
use modbus_ssa_project.Model.{Row, MbTypes, new_mbtypes, RangeMap, MbTypeTable}
use modbus_ssa_project.Model.Types.{on_current, on_ranges}
use modbus_ssa_project.Model.Dispatch.{Handled, handled, bad_call, undefined, of_option}

abbrev pub HasRows : ℕ → List Row → Type 0
HasRows n = All (λ v. length v ≡ n)

-- A coil has 6 values, a register 15.
pub record IsTyped (t : MbTypes) : Type 0 where
  pub co-rows : HasRows 6 t.co
  pub di-rows : HasRows 6 t.di
  pub hr-rows : HasRows 15 t.hr
  pub ir-rows : HasRows 15 t.ir

abbrev pub FourMaps : List RangeMap → Type 0
FourMaps v = 4 ≤ length v

pub record IsWellFormed (s : MbTypeTable) : Type 0 where
  pub typed : AllValues IsTyped s.types
  pub vectors : AllValues FourMaps s.typenum

pub new-IsTyped : IsTyped new_mbtypes
new-IsTyped = record { co-rows = tt; di-rows = tt; hr-rows = tt; ir-rows = tt }

pub on_current-IsWellFormed :
    (f : MbTypes → MbTypes) (s : MbTypeTable)
    → ((t : MbTypes) → IsTyped t → IsTyped (f t))
    → IsWellFormed s
    → IsWellFormed (on_current f s)
unfolding on_current
on_current-IsWellFormed f s keep v = record {
  typed =
      modify-AllValues IsTyped new_mbtypes s.current_type f s.types (keep new_mbtypes new-IsTyped)
        keep v.typed;
  vectors = v.vectors;
}

-- What holds of the state after a message, also if the message throws.
abbrev pub Yields {ℓ κ} : {S : Type ℓ} → (S → Type κ) → Handled S → Type κ
Yields P (handled s) = P s
Yields P (bad_call s) = P s
Yields P undefined = Unit

-- A vector that has a map at some place is that of a known type.
pub known_of_map :
    (type : Text) (typenum : Map Text (List RangeMap)) (place : ℕ) (m : RangeMap)
    → get_elem? (get [] type typenum) place ≡ some m
    → contains type typenum ≡ true
known_of_map type typenum place m e = elim (Bool-cases (contains type typenum)) [
  | inl h ↦ h
  | inr h ↦ cc (rw (get_absent [] type typenum h) at e)
]

pub on_ranges-IsWellFormed :
    (place : ℕ) (f : RangeMap → RangeMap) (s : MbTypeTable)
    → IsWellFormed s
    → Yields IsWellFormed (of_option (on_ranges place f s))
unfolding on_ranges
on_ranges-IsWellFormed place f s v =
    elim (Option-cases (get_elem? (get [] s.current_type s.typenum) place)) [
      | inl e ↦ rw (e, on_ranges) tt
      | inr (m, e) ↦
          rw (e, on_ranges)
            (record {
              typed = v.typed;
              vectors =
                  assign-AllValues FourMaps s.current_type _ s.typenum
                    (rw (length-set (get [] s.current_type s.typenum) place (f m)) (
                      get-AllValues_of_contains FourMaps [] s.current_type s.typenum
                        (known_of_map s.current_type s.typenum place m e) v.vectors))
                    v.vectors;
            })
    ]

-- With four maps there is one at each of the four places.
pub get_elem?_of_FourMaps :
    (v : List RangeMap) (place : ℕ)
    → FourMaps v
    → place < 4
    → (m : RangeMap) × (get_elem? v place ≡ some m)
get_elem?_of_FourMaps (a ∷ b ∷ c ∷ d ∷ v) zero h p = (a, refl)
get_elem?_of_FourMaps (a ∷ b ∷ c ∷ d ∷ v) (suc zero) h p = (b, refl)
get_elem?_of_FourMaps (a ∷ b ∷ c ∷ d ∷ v) (suc (suc zero)) h p = (c, refl)
get_elem?_of_FourMaps (a ∷ b ∷ c ∷ d ∷ v) (suc (suc (suc zero))) h p = (d, refl)
get_elem?_of_FourMaps (a ∷ b ∷ c ∷ d ∷ v) (suc (suc (suc (suc i)))) h p = absurd (omega arith)
get_elem?_of_FourMaps [] place h p = absurd (omega arith)
get_elem?_of_FourMaps (a ∷ []) place h p = absurd (omega arith)
get_elem?_of_FourMaps (a ∷ b ∷ []) place h p = absurd (omega arith)
get_elem?_of_FourMaps (a ∷ b ∷ c ∷ []) place h p = absurd (omega arith)

abbrev pub IsKnown : MbTypeTable → Type 0
IsKnown s = contains s.current_type s.typenum ≡ true

pub on_ranges-defined :
    (place : ℕ) (f : RangeMap → RangeMap) (s : MbTypeTable)
    → place < 4
    → AllValues FourMaps s.typenum
    → IsKnown s
    → of_option (on_ranges place f s) ≢ undefined
unfolding on_ranges
on_ranges-defined place f s p v k =
    let h = get-AllValues_of_contains FourMaps [] s.current_type s.typenum k v in
    let found = get_elem?_of_FourMaps (get [] s.current_type s.typenum) place h p in
    rw (found.1, on_ranges) (λ e. cc)
