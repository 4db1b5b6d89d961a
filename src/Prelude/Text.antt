-- ===== src/Prelude/Text.antt =====
-- `std::string` as a list of bytes, with what the source uses of the C and C++ libraries on texts:
-- comparison, `atoi`, `to_string`, `find`, `substr`, and the C strings of a buffer.
use Prim.Native.Nat.{ℕ, zero, suc, ◌+◌, ◌-◌, ◌*◌, ◌/◌, ◌%◌}
use Prim.Native.Char.{code}
use Prim.Native.String.{String}
use mathlib.Core.Path.{◌≡◌}
use mathlib.Core.Logic.{◌↔◌}
use mathlib.Core.Bool.{Bool, true, false, ◌&&◌, ◌||◌}
use mathlib.Core.Option.{Option, none, some}
use mathlib.Core.List.{List, [], ◌∷◌, ◌++◌}
use native.Mathlib.Omega.{arith}
use modbus_ssa_project.Prelude.Tests.{ltb, leb, ◌==◌, if◌then◌else◌}
use modbus_ssa_project.Prelude.Lists.{drop, take, length}
use modbus_ssa_project.Prelude.Int.{ℤ, pos, negsuc}

abbrev pub Text : Type 0
Text = List ℕ

-- The bytes of an ASCII literal.
abbrev pub text : String → Text
text String.[] = []
text (String.◌∷◌ c s) = code c ∷ text s

-- `==` of two texts.
unfoldable pub same : Text → Text → Bool
same [] [] = true
same [] (y ∷ ys) = false
same (x ∷ xs) [] = false
same (x ∷ xs) (y ∷ ys) = x == y && same xs ys

pub same_iff : (s t : Text) → (same s t ≡ true) ↔ (s ≡ t)
unfolding same
same_iff [] [] = ground arith
same_iff [] (y ∷ ys) = ground arith
same_iff (x ∷ xs) [] = ground arith
same_iff (x ∷ xs) (y ∷ ys) = ground (arith, same_iff xs ys)

-- `<` of two texts: the first difference decides, and a proper prefix is smaller.
unfoldable pub before : Text → Text → Bool
before [] [] = false
before [] (y ∷ ys) = true
before (x ∷ xs) [] = false
before (x ∷ xs) (y ∷ ys) = ltb x y || (x == y && before xs ys)

unfoldable pub empty : Text → Bool
empty [] = true
empty (x ∷ xs) = false

unfoldable pub starts_with : Text → Text → Bool
starts_with [] s = true
starts_with (p ∷ ps) [] = false
starts_with (p ∷ ps) (x ∷ xs) = p == x && starts_with ps xs

-- The rest of a text behind the first occurrence of a key, if the key occurs.
unfoldable pub behind : Text → Text → Option Text
unfolding starts_with empty
behind key [] = if empty key then some [] else none
behind key (x ∷ xs) =
    let rest = behind key xs in
    if starts_with key (x ∷ xs) then some (drop (length key) (x ∷ xs)) else rest

-- The C string that stands in a buffer: the bytes in front of the first NUL.
unfoldable pub c_str : List ℕ → Text
c_str [] = []
c_str (zero ∷ xs) = []
c_str (suc x ∷ xs) = suc x ∷ c_str xs

-- `substr(first, count)` of a text that is long enough.
abbrev pub substr : ℕ → ℕ → Text → Text
substr first count s = take count (drop first s)

-- The decimal digits of a number; `to_string` gives enough fuel.
unfoldable pub digits : ℕ → ℕ → Text
digits zero n = []
digits (suc f) n =
    let front = digits f (n / 10) in
    if ltb n 10 then (b'0' + n) ∷ [] else front ++ (b'0' + n % 10) ∷ []

-- `to_string` of an unsigned number.
unfoldable pub to_text : ℕ → Text
unfolding digits
to_text n = digits (suc n) n

-- `to_string` of an `int`.
unfoldable pub to_string : ℤ → Text
unfolding to_text
to_string (pos n) = to_text n
to_string (negsuc n) = b'-' ∷ to_text (suc n)

unfoldable pub is_digit : ℕ → Bool
is_digit c = leb b'0' c && leb c b'9'

unfoldable pub digits_value : ℕ → Text → ℕ
unfolding is_digit
digits_value acc [] = acc
digits_value acc (c ∷ s) =
    let rest = digits_value (acc * 10 + (c - b'0')) s in if is_digit c then rest else acc

-- `- n`, as an integer.
abbrev pub negate : ℕ → ℤ
negate zero = pos 0
negate (suc n) = negsuc n

unfoldable pub is_space : ℕ → Bool
is_space c = c == 32 || (leb 9 c && leb c 13)

unfoldable pub skip_space : Text → Text
unfolding is_space
skip_space [] = []
skip_space (c ∷ s) = let rest = skip_space s in if is_space c then rest else c ∷ s

unfoldable pub signed : Text → ℤ
unfolding digits_value
signed [] = pos 0
signed (c ∷ s) =
    if c == b'-'
    then negate (digits_value 0 s)
    else if c == b'+'
    then pos (digits_value 0 s)
    else pos (digits_value 0 (c ∷ s))

-- `atoi`: white space, a sign, the digits up to the first other byte; 0 without digits. A value
-- that no `int` holds is undefined in the source, and exact here.
unfoldable pub atoi : Text → ℤ
unfolding signed skip_space
atoi s = signed (skip_space s)
