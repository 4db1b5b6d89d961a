-- ===== src/Parse/Registers/Layout.antt =====
-- Where parseHR and parseIR of src/modbus_p.cpp read the points of a response: the protocol gives each
-- address two bytes, from the fourth byte of the response on.
use modbus_ssa_project.Prelude.{
  ℕ, zero, suc, ◌+◌, ◌*◌, Bool, true, List, [], ◌∷◌, Option, none, some, if◌then◌else◌, ◌≡◌,
}
use modbus_ssa_project.Prelude.Int.{ℤ, pos, ◌+ℤ◌}
use modbus_ssa_project.Prelude.Text.{Text, text, same, to_string}
use modbus_ssa_project.Model.Position
use modbus_ssa_project.Model.{Floats, Row, field}
use modbus_ssa_project.Prelude.{◌>>=◌}
use modbus_ssa_project.Parse.Registers.{Registers, bytes_of, register_point}

-- The point of an address: the first row of its number.
unfoldable pub first_row : Text → List Row → Option Row
first_row number [] = none
first_row number (v ∷ rows) =
    if same (field v Position.number) number then some v else first_row number rows

abbrev pub point_of : List Row → ℤ → ℕ → Option Row
point_of rows cn i = first_row (to_string (cn +ℤ pos i)) rows

abbrev pub IsInteger : Row → Type 0
IsInteger v = same (field v Position.is_float_type) (text "0") ≡ true

-- None of `left` addresses from the `i`th on has a point.
abbrev pub IsBlank : List Row → ℤ → ℕ → ℕ → Type 0
IsBlank rows cn i zero = Unit
IsBlank rows cn i (suc left) = (point_of rows cn i ≡ none) × IsBlank rows cn (i + 1) left

-- The points cover `left` addresses from the `i`th on, the first `owed` of which belong to the point
-- before them. Each point is a number with as many bytes as its addresses have, and only the last may
-- be any point, and the addresses behind it have none.
pub data IsTiled (rows : List Row) (cn : ℤ) : ℕ → ℕ → ℕ → Type 0 where
  ends : {i owed : ℕ} → IsTiled rows cn i owed 0
  covered :
      {i owed left : ℕ}
      → point_of rows cn i ≡ none
      → IsTiled rows cn (i + 1) owed left
      → IsTiled rows cn i (suc owed) (suc left)
  integer :
      {i left : ℕ} (v : Row) (more : ℕ)
      → point_of rows cn i ≡ some v
      → IsInteger v
      → bytes_of v ≡ some (2 * suc more)
      → IsTiled rows cn (i + 1) more left
      → IsTiled rows cn i 0 (suc left)
  last_point :
      {i left : ℕ} (v : Row)
      → point_of rows cn i ≡ some v
      → IsBlank rows cn (i + 1) left
      → IsTiled rows cn i 0 (suc left)

module _ (fl : Floats) (ends_equal : Bool) (width : ℕ) (buffer : List ℕ) (rows : List Row)
    (cn : ℤ) where
  -- The points of `left` addresses from the `i`th on, each read at the two bytes of its address.
  unfoldable pub read_words : ℕ → ℕ → Registers → Option Registers
  read_words i zero r = some r
  read_words i (suc left) r =
      elim (point_of rows cn i) [
        | none ↦ some r
        | some v ↦ register_point fl ends_equal width buffer v (record r { p = 3 + 2 * i })
      ]
      >>= λ r'. read_words (i + 1) left r'
