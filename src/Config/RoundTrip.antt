-- ===== src/Config/RoundTrip.antt =====
-- readConfig (src/util.cpp) reads what is written a setting to a line.
use mathlib.Core.List.{append_assoc, append-nil}
use modbus_ssa_project.Prelude.{
  ℕ, zero, suc, ◌≤◌, List, [], ◌∷◌, ◌++◌, none, some, if◌then◌else◌, length, take, All, All-append,
  ◌≡◌, ◌≢◌, refl, ap, sym, ◌∙◌, arith,
}
use modbus_ssa_project.Prelude.Text.{Text, same, same_iff, c_str}
use modbus_ssa_project.Prelude.Map.{Map, text_key, get}
use modbus_ssa_project.Config.{split_lines, at_equals, scan_config, read_config}

-- A file of settings.
abbrev pub setting : Text × Text → Text
setting (k, v) = k ++ b'=' ∷ v

unfoldable pub print_config : Map Text Text → List ℕ
print_config [] = []
print_config ((k, v) ∷ m) = (k ++ b'=' ∷ v) ++ b'\n' ∷ print_config m

-- Bytes that a line of settings can have.
abbrev pub IsPlain : ℕ → Type 0
IsPlain c = (c ≢ b'\n') × (c ≢ 0)

abbrev pub IsKey : ℕ → Type 0
IsKey c = (c ≢ b'\n') × (c ≢ 0) × (c ≢ b'=')

-- Settings that can be written: keys and values of plain bytes, keys without `=`, lines that fit.
abbrev pub IsWritable : Map Text Text → Type 0
IsWritable [] = Unit
IsWritable ((k, v) ∷ m) =
    All IsKey k × All IsPlain v × (length (k ++ b'=' ∷ v) ≤ 199) × IsWritable m

split-line :
    (l : Text) (s : List ℕ) → All IsPlain l → split_lines (l ++ b'\n' ∷ s) ≡ l ∷ split_lines s
unfolding split_lines
split-line [] s h = refl
split-line (c ∷ l) s h = ground (arith, split-line l s h.1)

at_equals-setting : (k v : Text) → All IsKey k → at_equals (k ++ b'=' ∷ v) ≡ some (k, v)
unfolding at_equals
at_equals-setting [] v h = refl
at_equals-setting (c ∷ k) v h = ground (arith, at_equals-setting k v h.1)

c_str-plain : (l : Text) → All IsPlain l → c_str l ≡ l
unfolding c_str
c_str-plain [] h = refl
c_str-plain (zero ∷ l) h = absurd ((h.0).1 refl)
c_str-plain (suc c ∷ l) h = ap (◌∷◌ (suc c)) (c_str-plain l h.1)

IsPlain-key : (k : Text) → All IsKey k → All IsPlain k
IsPlain-key [] h = tt
IsPlain-key (c ∷ k) h = (((h.0).0, (h.0).1), IsPlain-key k h.1)

take_all : (n : ℕ) (l : Text) → length l ≤ n → take n l ≡ l
take_all zero [] h = refl
take_all zero (c ∷ l) h = absurd (omega arith)
take_all (suc n) [] h = refl
take_all (suc n) (c ∷ l) h = ap (◌∷◌ c) (take_all n l (omega arith))

IsPlain-setting : (k v : Text) → All IsKey k → All IsPlain v → All IsPlain (k ++ b'=' ∷ v)
IsPlain-setting k v hk hv =
    All-append IsPlain k (b'=' ∷ v) (IsPlain-key k hk)
      (((λ e. absurd (omega (arith, e))), (λ e. absurd (omega (arith, e)))), hv)

-- One line of the loop.
scan-setting :
    (k v : Text) (parts : List Text) (key out : Text)
    → All IsKey k
    → All IsPlain v
    → length (k ++ b'=' ∷ v) ≤ 199
    → scan_config key out ((k ++ b'=' ∷ v) ∷ parts)
      ≡ (if same key k then v else scan_config key out parts)
unfolding scan_config
scan-setting k v parts key out hk hv short = ground (arith, parsed)
  where
    parsed : at_equals (c_str (take 199 (k ++ b'=' ∷ v))) ≡ some (k, v)
    parsed =
        ap (λ l. at_equals (c_str l)) (take_all 199 (k ++ b'=' ∷ v) short)
        ∙ (ap at_equals (c_str-plain (k ++ b'=' ∷ v) (IsPlain-setting k v hk hv))
            ∙ at_equals-setting k v hk)

-- The settings, and then what is behind them.
scan-get :
    (m : Map Text Text) (tail key out : Text)
    → IsWritable m
    → scan_config key out (split_lines (print_config m ++ tail))
      ≡ get (scan_config key out (split_lines tail)) key m
unfolding print_config get
scan-get [] tail key out h = refl
scan-get ((k, v) ∷ m) tail key out (hk, hv, short, hm) =
    rw
      (
        append_assoc (k ++ b'=' ∷ v) (b'\n' ∷ print_config m) tail,
        split-line (k ++ b'=' ∷ v) (print_config m ++ tail) (IsPlain-setting k v hk hv),
      )
      (scan-setting k v (split_lines (print_config m ++ tail)) key out hk hv short
        ∙ ground (arith, scan-get m tail key out hm, same_iff key k, same_iff k key))

at_equals-plain : (l : Text) → All IsKey l → at_equals l ≡ none
unfolding at_equals
at_equals-plain [] h = refl
at_equals-plain (c ∷ l) h = ground (arith, at_equals-plain l h.1)

-- A file of settings, a line each, is read back: readConfig gives the value of the first setting of a
-- key, and leaves the variable as it is where there is none.
pub read_config-print_config :
    (m : Map Text Text) (key out : Text)
    → IsWritable m
    → read_config (some (print_config m)) key out ≡ get out key m
unfolding read_config scan_config split_lines c_str
read_config-print_config m key out h =
    ap (λ f. scan_config key out (split_lines f)) (sym (append-nil (print_config m)))
    ∙ (scan-get m [] key out h ∙ ap (λ d. get d key m) nothing)
  where
    nothing : scan_config key out (split_lines []) ≡ out
    nothing = refl

-- A line without `=`, an empty one among them, hides every setting behind it.
pub read_config_stops :
    (m : Map Text Text) (line rest key out : Text)
    → IsWritable m
    → All IsKey line
    → length line ≤ 199
    → read_config (some (print_config m ++ (line ++ b'\n' ∷ rest))) key out ≡ get out key m
unfolding read_config scan_config
read_config_stops m line rest key out h hl short =
    scan-get m (line ++ b'\n' ∷ rest) key out h ∙ ap (λ d. get d key m) nothing
  where
    no_equals : at_equals (c_str (take 199 line)) ≡ none
    no_equals =
        ap (λ l. at_equals (c_str l)) (take_all 199 line short)
        ∙ (ap at_equals (c_str-plain line (IsPlain-key line hl)) ∙ at_equals-plain line hl)

    nothing : scan_config key out (split_lines (line ++ b'\n' ∷ rest)) ≡ out
    nothing = rw (split-line line rest (IsPlain-key line hl)) (ground (arith, no_equals))
