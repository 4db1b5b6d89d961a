-- ===== src/Model/Rows.antt =====
-- The changes of the rows of points (src/modbus_model.cpp) read and write them within their lengths.
use modbus_ssa_project.Prelude.{
  ℕ, zero, suc, ◌<◌, ◌≡◌, ◌≢◌, ◌∙◌, Bool, List, [], ◌∷◌, some, arith, if-intro, length, length-set,
  get_elem?, Option, none, ◌>>=◌,
}
use modbus_ssa_project.Prelude.Text.{Text, text, same}
use modbus_ssa_project.Prelude.Map.{text_key, get, assign-AllValues, get-AllValues}
use modbus_ssa_project.Model.{SrRecord, Row, MbTypes, new_mbtypes, MbTypeTable}
use modbus_ssa_project.Model.Types.{
  on_rows, put, has_number, has_start, change_first, on_coil, on_register,
}
use modbus_ssa_project.Model.Dispatch.{undefined, of_option}
use modbus_ssa_project.Model.WellFormed.{HasRows, IsTyped, new-IsTyped, IsWellFormed, Yields}

-- The result is there, and has the property.
abbrev pub Makes {ℓ} : {A : Type ℓ} → (A → Type 0) → Option A → Type 0
Makes P none = ⊥
Makes P (some a) = P a

pub bind-Makes {ℓ κ} :
    {A : Type ℓ} {B : Type κ} (P : A → Type 0) (Q : B → Type 0) (o : Option A) (k : A → Option B)
    → Makes P o
    → ((a : A) → P a → Makes Q (k a))
    → Makes Q (o >>= k)
bind-Makes P Q (some a) k h next = next a h
bind-Makes P Q none k h next = absurd h

abbrev pub HasLength : ℕ → Row → Type 0
HasLength n v = length v ≡ n

abbrev Any {ℓ} : {A : Type ℓ} → A → Type 0
Any a = Unit

-- A row is read within its length.
get_elem?-Makes : (v : Row) (i : ℕ) → i < length v → Makes Any (get_elem? v i)
get_elem?-Makes [] i h = absurd (omega arith)
get_elem?-Makes (x ∷ v) zero h = tt
get_elem?-Makes (x ∷ v) (suc i) h = get_elem?-Makes v i (omega arith)

pub put-Makes :
    (n i : ℕ) (x : Text) (v : Row) → i < n → HasLength n v → Makes (HasLength n) (put i x v)
unfolding put
put-Makes n i x v p h =
    bind-Makes Any (HasLength n) (get_elem? v i) _ (get_elem?-Makes v i (omega (arith, h, p)))
      (λ y there. length-set v i x ∙ h)

pub put-put-Makes :
    (n i j : ℕ) (x y : Text) (v : Row)
    → i < n
    → j < n
    → HasLength n v
    → Makes (HasLength n) (put i x v >>= λ w. put j y w)
put-put-Makes n i j x y v p q h =
    bind-Makes (HasLength n) (HasLength n) (put i x v) _ (put-Makes n i x v p h)
      (λ w k. put-Makes n j y w q k)

has_number-Makes : (number : Text) (v : Row) → 0 < length v → Makes Any (has_number number v)
unfolding has_number
has_number-Makes number v h =
    bind-Makes Any Any (get_elem? v 0) _ (get_elem?-Makes v 0 h) (λ n there. tt)

has_start-Makes :
    (number start_bit : Text) (v : Row) → 4 < length v → Makes Any (has_start number start_bit v)
unfolding has_start
has_start-Makes number start_bit v h =
    bind-Makes Any Any (get_elem? v 0) _ (get_elem?-Makes v 0 (omega (arith, h))) (λ n there.
      if-intro (Makes Any) (same n number) _ _
        (bind-Makes Any Any (get_elem? v 4) _ (get_elem?-Makes v 4 h) (λ b there'. tt)) tt)

change_first-Makes :
    (n : ℕ) (fits : Row → Option Bool) (f : Row → Option Row) (rows : List Row)
    → ((v : Row) → HasLength n v → Makes Any (fits v))
    → ((v : Row) → HasLength n v → Makes (HasLength n) (f v))
    → HasRows n rows
    → Makes (HasRows n) (change_first fits f rows)
unfolding change_first
change_first-Makes n fits f [] looks changes h = tt
change_first-Makes n fits f (v ∷ rows) looks changes h =
    bind-Makes Any (HasRows n) (fits v) _ (looks v h.0) (λ fit there.
      if-intro (Makes (HasRows n)) fit _ _
        (bind-Makes (HasLength n) (HasRows n) (f v) _ (changes v h.0) (λ w k. (k, h.1)))
        (bind-Makes (HasRows n) (HasRows n) (change_first fits f rows) _
          (change_first-Makes n fits f rows looks changes h.1) (λ rest k. (h.0, k))))

on_rows-Makes :
    (f : MbTypes → Option MbTypes) (s : MbTypeTable)
    → ((t : MbTypes) → IsTyped t → Makes IsTyped (f t))
    → IsWellFormed s
    → Makes IsWellFormed (on_rows f s)
unfolding on_rows
on_rows-Makes f s keep v =
    bind-Makes IsTyped IsWellFormed (f (get new_mbtypes s.current_type s.types)) _
      (keep (get new_mbtypes s.current_type s.types)
        (get-AllValues IsTyped new_mbtypes s.current_type s.types new-IsTyped v.typed))
      (λ t h. record {
        typed = assign-AllValues IsTyped s.current_type t s.types h v.typed;
        vectors = v.vectors;
      })

module _ (r : SrRecord) (f : Row → Option Row) where
  pub on_coil-Makes :
      (s : MbTypeTable)
      → ((v : Row) → HasLength 6 v → Makes (HasLength 6) (f v))
      → IsWellFormed s
      → Makes IsWellFormed (on_coil r f s)
  unfolding on_coil
  on_coil-Makes s keeps v =
      if-intro (Makes IsWellFormed) (same (r.value 4) (text "false")) _ _
        (on_rows-Makes _ s
          (λ t h.
            bind-Makes (HasRows 6) IsTyped (change_first (has_number (r.value 2)) f t.co)
              (λ rows. some (record t { co = rows })) (changed t.co h.co-rows)
              (λ rows k. record {
                co-rows = k;
                di-rows = h.di-rows;
                hr-rows = h.hr-rows;
                ir-rows = h.ir-rows;
              }))
          v)
        (on_rows-Makes _ s
          (λ t h.
            bind-Makes (HasRows 6) IsTyped (change_first (has_number (r.value 2)) f t.di)
              (λ rows. some (record t { di = rows })) (changed t.di h.di-rows)
              (λ rows k. record {
                co-rows = h.co-rows;
                di-rows = k;
                hr-rows = h.hr-rows;
                ir-rows = h.ir-rows;
              }))
          v)
    where
      changed :
          (rows : List Row)
          → HasRows 6 rows
          → Makes (HasRows 6) (change_first (has_number (r.value 2)) f rows)
      changed rows h =
          change_first-Makes 6 _ f rows (λ w l. has_number-Makes (r.value 2) w (omega (arith, l)))
            keeps h

  pub on_register-Makes :
      (s : MbTypeTable)
      → ((v : Row) → HasLength 15 v → Makes (HasLength 15) (f v))
      → IsWellFormed s
      → Makes IsWellFormed (on_register r f s)
  unfolding on_register
  on_register-Makes s keeps v =
      if-intro (Makes IsWellFormed) (same (r.value 5) (text "false")) _ _
        (on_rows-Makes _ s
          (λ t h.
            bind-Makes (HasRows 15) IsTyped (change_first fits f t.hr)
              (λ rows. some (record t { hr = rows })) (changed t.hr h.hr-rows)
              (λ rows k. record {
                co-rows = h.co-rows;
                di-rows = h.di-rows;
                hr-rows = k;
                ir-rows = h.ir-rows;
              }))
          v)
        (on_rows-Makes _ s
          (λ t h.
            bind-Makes (HasRows 15) IsTyped (change_first fits f t.ir)
              (λ rows. some (record t { ir = rows })) (changed t.ir h.ir-rows)
              (λ rows k. record {
                co-rows = h.co-rows;
                di-rows = h.di-rows;
                hr-rows = h.hr-rows;
                ir-rows = k;
              }))
          v)
    where
      fits : Row → Option Bool
      fits = has_start (r.value 2) (r.value 3)

      changed : (rows : List Row) → HasRows 15 rows → Makes (HasRows 15) (change_first fits f rows)
      changed rows h =
          change_first-Makes 15 fits f rows
            (λ w l. has_start-Makes (r.value 2) (r.value 3) w (omega (arith, l))) keeps h

-- What is there is handled.
pub of_option-Yields {ℓ} :
    {S : Type ℓ} (P : S → Type 0) (o : Option S) → Makes P o → Yields P (of_option o)
of_option-Yields P (some s) h = h
of_option-Yields P none h = absurd h

pub of_option-defined {ℓ} :
    {S : Type ℓ} (P : S → Type 0) (o : Option S) → Makes P o → of_option o ≢ undefined
of_option-defined P (some s) h e = cc
of_option-defined P none h e = absurd h
