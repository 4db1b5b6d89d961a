-- ===== src/Model/Types.antt =====
-- src/modbus_model.cpp: the messages that fill the point tables of class MBTYPES. A handler gives
-- `none` where the source reads a vector out of its range, which is undefined.
use modbus_ssa_project.Prelude.{
  ℕ, Bool, false, List, [], ◌∷◌, ◌++◌, Option, none, some, set, get_elem?, if◌then◌else◌, ◌>>=◌,
}
use modbus_ssa_project.Prelude.Text.{Text, text, same, atoi}
use modbus_ssa_project.Prelude.Map.{text_key, get, modify, assign}
use modbus_ssa_project.Model.Position
use modbus_ssa_project.Model.Ranges.{add_coil_range, add_register_range, words}
use modbus_ssa_project.Model.{SrRecord, Floats, Row, MbTypes, new_mbtypes, RangeMap, MbTypeTable}

-- `_m[_current_type]`, changed by a function.
unfoldable pub on_current : (MbTypes → MbTypes) → MbTypeTable → MbTypeTable
on_current f s = record s { types = modify new_mbtypes s.current_type f s.types }

-- `TYPENUM[_current_type][place]`, changed by a function. The vector of a type that no device has
-- brought in is empty.
unfoldable pub on_ranges : ℕ → (RangeMap → RangeMap) → MbTypeTable → Option MbTypeTable
on_ranges place f s =
    let vector = get [] s.current_type s.typenum in
    elim (get_elem? vector place) [
      | none ↦ none
      | some m ↦
          some (record s { typenum = assign s.current_type (set vector place (f m)) s.typenum })
    ]

-- `_m[_current_type]`, changed by a function that may read or write a row out of its range.
unfoldable pub on_rows : (MbTypes → Option MbTypes) → MbTypeTable → Option MbTypeTable
on_rows f s = f (get new_mbtypes s.current_type s.types) >>= λ t.
    some (record s { types = assign s.current_type t s.types })

-- `v[i] = x`
unfoldable pub put : ℕ → Text → Row → Option Row
put i x v = get_elem? v i >>= λ y. some (set v i x)

-- The loop that changes the first row that fits, and breaks.
unfoldable pub change_first :
    (Row → Option Bool) → (Row → Option Row) → List Row → Option (List Row)
change_first fits f [] = some []
change_first fits f (v ∷ rows) =
    let rest = change_first fits f rows in
    fits v >>= λ fit.
    if fit then (f v >>= λ w. some (w ∷ rows)) else (rest >>= λ changed. some (v ∷ changed))

-- 821
unfoldable pub add_coil : SrRecord → MbTypeTable → Option MbTypeTable
unfolding on_current on_ranges
add_coil r s =
    let number = r.value 2 in
    let v : Row = number ∷ [] ∷ [] ∷ [] ∷ [] ∷ [] ∷ [] in
    let n = atoi number in
    if same (r.value 3) (text "false")
    then on_ranges Position.co_pos (add_coil_range n)
        (on_current (λ t. record t { co = t.co ++ v ∷ [] }) s)
    else on_ranges Position.di_pos (add_coil_range n)
        (on_current (λ t. record t { di = t.di ++ v ∷ [] }) s)

unfoldable pub has_number : Text → Row → Option Bool
has_number number v = get_elem? v Position.number >>= λ n. some (same n number)

unfoldable pub has_start : Text → Text → Row → Option Bool
has_start number start_bit v = get_elem? v Position.number >>= λ n.
    if same n number
    then (get_elem? v Position.start_bits >>= λ b. some (same b start_bit))
    else some false

-- A change of the first coil, or discrete input, of the record's number.
unfoldable pub on_coil : SrRecord → (Row → Option Row) → MbTypeTable → Option MbTypeTable
unfolding on_rows change_first has_number
on_coil r f s =
    if same (r.value 4) (text "false")
    then on_rows
        (λ t.
          change_first (has_number (r.value 2)) f t.co >>= λ rows. some (record t { co = rows }))
        s
    else on_rows
        (λ t.
          change_first (has_number (r.value 2)) f t.di >>= λ rows. some (record t { di = rows }))
        s

-- 822
unfoldable pub add_coil_alarm : SrRecord → MbTypeTable → Option MbTypeTable
unfolding on_coil put
add_coil_alarm r s =
    on_coil r
      (λ v. put Position.alarm (r.value 3) v >>= λ w. put Position.alarm_condition (r.value 5) w) s

-- 824
unfoldable pub add_coil_event : SrRecord → MbTypeTable → Option MbTypeTable
unfolding on_coil put
add_coil_event r s =
    on_coil r
      (λ v. put Position.event (r.value 3) v >>= λ w. put Position.event_condition (r.value 5) w) s

-- 830
unfoldable pub add_coil_status : SrRecord → MbTypeTable → Option MbTypeTable
unfolding on_coil put
add_coil_status r s = on_coil r (λ v. put Position.status (text "100") v) s

-- The row that 825 adds: number, alarm, event, status, start bit, number of bits, factor,
-- measurement, signed, float, forward, weight, bias, point, analytical type.
unfoldable pub register_row : Floats → SrRecord → Row
register_row fl r =
    let f = fl.of_int (atoi (r.value 5)) in
    let a = fl.of_int (atoi (r.value 6)) in
    let c = fl.pow_ten (atoi (r.value 7)) in
    let factor = fl.print (fl.div (fl.div f a) c) in
    r.value 2
    ∷ []
    ∷ []
    ∷ []
    ∷ r.value 3
    ∷ r.value 4
    ∷ factor
    ∷ []
    ∷ r.value 9
    ∷ r.value 10
    ∷ []
    ∷ r.value 11
    ∷ r.value 12
    ∷ r.value 13
    ∷ r.value 14
    ∷ []

-- 825
unfoldable pub add_register : Floats → SrRecord → MbTypeTable → Option MbTypeTable
unfolding on_current on_ranges register_row
add_register fl r s =
    let v = register_row fl r in
    let n = atoi (r.value 2) in
    let bytes = words (atoi (r.value 4)) in
    if same (r.value 8) (text "false")
    then on_ranges Position.hr_pos (add_register_range n bytes)
        (on_current (λ t. record t { hr = t.hr ++ v ∷ [] }) s)
    else on_ranges Position.ir_pos (add_register_range n bytes)
        (on_current (λ t. record t { ir = t.ir ++ v ∷ [] }) s)

-- A change of the first holding register, or input register, of the record's number and start bit.
unfoldable pub on_register : SrRecord → (Row → Option Row) → MbTypeTable → Option MbTypeTable
unfolding on_rows change_first has_start
on_register r f s =
    let fits = has_start (r.value 2) (r.value 3) in
    if same (r.value 5) (text "false")
    then on_rows (λ t. change_first fits f t.hr >>= λ rows. some (record t { hr = rows })) s
    else on_rows (λ t. change_first fits f t.ir >>= λ rows. some (record t { ir = rows })) s

-- 826
unfoldable pub add_register_alarm : SrRecord → MbTypeTable → Option MbTypeTable
unfolding on_register put
add_register_alarm r s = on_register r (λ v. put Position.alarm (r.value 4) v) s

-- 827
unfoldable pub add_register_measurement : SrRecord → MbTypeTable → Option MbTypeTable
unfolding on_register put
add_register_measurement r s =
    on_register r
      (λ v. put Position.measurement (r.value 4) v >>= λ w. put Position.is_forward (r.value 6) w) s

-- 828
unfoldable pub add_register_event : SrRecord → MbTypeTable → Option MbTypeTable
unfolding on_register put
add_register_event r s = on_register r (λ v. put Position.event (r.value 4) v) s

-- 831
unfoldable pub add_register_status : SrRecord → MbTypeTable → Option MbTypeTable
unfolding on_register put
add_register_status r s = on_register r (λ v. put Position.status (text "101") v) s

-- 839, 840
unfoldable pub set_mbtype : SrRecord → MbTypeTable → MbTypeTable
unfolding on_current
set_mbtype r s =
    let named = record s { current_type = r.value 2 } in
    let cleared =
      if same (r.value 0) (text "839")
      then on_current (λ t. record t { co = []; di = [] }) named
      else on_current (λ t. record t { hr = []; ir = [] }) named in
    on_current (λ t. record t { is_server_time = text "false" }) cleared

-- 829
unfoldable pub set_server_time : SrRecord → MbTypeTable → MbTypeTable
unfolding on_current
set_server_time r s = on_current (λ t. record t { is_server_time = r.value 2 }) s
