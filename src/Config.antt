-- ===== src/Config.antt =====
-- src/util.cpp: readConfig, over the bytes of the file. A line is read into 200 characters with its
-- NUL; the end of the file ends its last line.
pub mod RoundTrip
use modbus_ssa_project.Prelude.{
  ℕ, List, [], ◌∷◌, Option, none, some, if◌then◌else◌, ◌==◌, ltb, length, take,
}
use modbus_ssa_project.Prelude.Text.{Text, same, c_str}

abbrev on_first : ℕ → List Text → List Text
on_first c [] = (c ∷ []) ∷ []
on_first c (l ∷ ls) = (c ∷ l) ∷ ls

-- The parts of a file between its line ends.
unfoldable pub split_lines : List ℕ → List Text
split_lines [] = [] ∷ []
split_lines (c ∷ s) = let rest = split_lines s in if c == b'\n' then [] ∷ rest else on_first c rest

abbrev before_first : ℕ → Option (Text × Text) → Option (Text × Text)
before_first c none = none
before_first c (some (k, v)) = some (c ∷ k, v)

-- A line at its first `=`, if it has one.
unfoldable pub at_equals : Text → Option (Text × Text)
at_equals [] = none
at_equals (c ∷ s) =
    let rest = at_equals s in if c == b'=' then some ([], s) else before_first c rest

-- The loop over the lines. The file is closed where a line has no `=`; after a match it is closed too,
-- and after a line that is too long the stream has failed: then the next line reads as an empty one,
-- which ends the loop.
unfoldable pub scan_config : Text → Text → List Text → Text
unfolding at_equals
scan_config key out [] = out
scan_config key out (part ∷ parts) =
    let rest = scan_config key out parts in
    elim (at_equals (c_str (take 199 part))) [
      | none ↦ out
      | some (k, v) ↦ if same key k then v else if ltb 199 (length part) then out else rest
    ]

-- readConfig; `none` is a file that cannot be opened.
unfoldable pub read_config : Option (List ℕ) → Text → Text → Text
unfolding scan_config split_lines
read_config none key out = out
read_config (some file) key out = scan_config key out (split_lines file)
