-- ===== src/Parse/Registers/Walk.antt =====
-- The walk of parseHR and parseIR of src/modbus_p.cpp over a response, against one that reads the
-- point of each address at the two bytes of the address.
use modbus_ssa_project.Prelude.{
  ℕ, zero, suc, ◌+◌, ◌*◌, Bool, true, List, [], ◌∷◌, Option, none, some, if◌then◌else◌, ◌≡◌, refl,
  sym, ap, ◌∙◌, Bool-cases, inl, inr, arith,
}
use modbus_ssa_project.Prelude.Int.{ℤ, pos, ◌+ℤ◌}
use modbus_ssa_project.Prelude.Text.{Text, text, same, atoi, to_string}
use modbus_ssa_project.Model.Position
use modbus_ssa_project.Model.{Floats, Row, field}
use modbus_ssa_project.Util.{float_reserve}
use modbus_ssa_project.Parse.Effects.{register_effect, forward_effect}
use modbus_ssa_project.Prelude.{◌>>=◌}
use modbus_ssa_project.Parse.Registers.{
  Registers, bytes_of, integer_value, float_value, read_point, register_point, register_rows,
  register_words,
}
use modbus_ssa_project.Parse.Registers.Layout.{
  first_row, point_of, IsInteger, IsBlank, IsTiled, ends, covered, integer, last_point, read_words,
}
use modbus_ssa_project.Session.Sound.{IfSome}

module _ (fl : Floats) (ends_equal : Bool) (width : ℕ) (buffer : List ℕ) (rows : List Row)
    (cn : ℤ) where
  read_words_at : ℕ → ℕ → Registers → Option Registers
  read_words_at = read_words fl ends_equal width buffer rows cn

  words : ℕ → ℕ → Registers → Option Registers
  words = register_words fl ends_equal width buffer rows cn

  point : Row → Registers → Option Registers
  point = register_point fl ends_equal width buffer

  register_rows-first :
      (number : Text) (vs : List Row) (r : Registers)
      → register_rows fl ends_equal width buffer number vs r
        ≡ elim (first_row number vs) [ none ↦ some r | some v ↦ point v r ]
  unfolding register_rows first_row point
  register_rows-first n [] r = refl
  register_rows-first n (v ∷ vs) r = elim (Bool-cases (same (field v Position.number) n)) [
    | inl e ↦ rw e refl
    | inr e ↦ rw e (register_rows-first n vs r)
  ]

  -- What follows the reading of the bits of a point, a number or not.
  scaled-p :
      (F : fl.Double → fl.Double) (p bytes : ℕ) (o : Option ℕ) (is_number : Bool)
      (as_number as_float : Option (fl.Double))
      → o ≡ some bytes
      → is_number ≡ true
      → IfSome {A = fl.Double × ℕ}
          (λ x. x.1 ≡ p + bytes)
          (o >>= λ b. (if is_number then as_number else as_float) >>= λ raw.
            some (F raw, if is_number then p + b else p))
  scaled-p F p bytes o is_number none as_float e h = rw (e, h) tt
  scaled-p F p bytes o is_number (some raw) as_float e h = rw (e, h) refl

  read_point-p :
      (v : Row) (p bytes : ℕ)
      → IsInteger v
      → bytes_of v ≡ some bytes
      → IfSome (λ x. x.1 ≡ p + bytes) (read_point fl ends_equal width buffer v p)
  unfolding read_point
  read_point-p v p bytes is_number e =
      scaled-p
        (λ raw.
          fl.add (fl.mul (fl.atof (field v Position.weight)) raw) (fl.atof (field v Position.bias)))
        p bytes (bytes_of v) (same (field v Position.is_float_type) (text "0"))
        (integer_value fl ends_equal width buffer v p) (float_value fl ends_equal width buffer v p)
        e is_number

  -- Behind a number the pointer stands behind its bytes.
  register_point-p :
      (v : Row) (r : Registers) (bytes : ℕ)
      → IsInteger v
      → bytes_of v ≡ some bytes
      → IfSome (λ r'. r'.p ≡ r.p + bytes) (point v r)
  unfolding point register_point
  register_point-p v r bytes is_number e =
      moved (read_point fl ends_equal width buffer v r.p) (read_point-p v r.p bytes is_number e)
    where
      moved :
          (o : Option (fl.Double × ℕ))
          → IfSome (λ x. x.1 ≡ r.p + bytes) o
          → IfSome {A = Registers}
              (λ r'. r'.p ≡ r.p + bytes)
              (o >>= λ value. some (record {
                p = value.1;
                num = r.num + 1;
                maps =
                    register_effect ends_equal v
                      (fl.positive value.0)
                      (float_reserve fl value.0 (atoi (field v Position.point)))
                      r.maps;
                forward =
                    forward_effect v
                      (float_reserve fl value.0 (atoi (field v Position.point)))
                      r.forward;
              }))
      moved none h = tt
      moved (some x) h = h

  -- One address of the code's walk.
  words-suc :
      (i left : ℕ) (r : Registers)
      → words i (suc left) r
        ≡ elim (point_of rows cn i) [ none ↦ some r | some v ↦ point v r ] >>= λ r'.
            words (i + 1) left r'
  unfolding words register_words point
  words-suc i left r =
      ap (λ o. o >>= λ r'. register_words fl ends_equal width buffer rows cn (i + 1) left r')
        (register_rows-first (to_string (cn +ℤ pos i)) rows r)

  words-IsBlank : (i left : ℕ) (r : Registers) → IsBlank rows cn i left → words i left r ≡ some r
  words-IsBlank i zero r h = unfold words register_words in refl
  words-IsBlank i (suc left) r h = words-suc i left r ∙ rw h.0 (words-IsBlank (i + 1) left r h.1)

  read_words-IsBlank :
      (i left : ℕ) (r : Registers) → IsBlank rows cn i left → read_words_at i left r ≡ some r
  unfolding read_words read_words_at
  read_words-IsBlank i zero r h = refl
  read_words-IsBlank i (suc left) r h = rw h.0 (read_words-IsBlank (i + 1) left r h.1)

  read_words-suc :
      (i left : ℕ) (r : Registers)
      → read_words_at i (suc left) r
        ≡ elim (point_of rows cn i) [
          | none ↦ some r
          | some v ↦ point v (record r { p = 3 + 2 * i })
        ]
          >>= λ r'. read_words_at (i + 1) left r'
  unfolding read_words point read_words_at
  read_words-suc i left r = refl

  -- The pointer stands at the address, so its point is read there.
  read_there :
      (v : Row) (i left : ℕ) (r : Registers)
      → point_of rows cn i ≡ some v
      → r.p ≡ 3 + 2 * i
      → IfSome (λ r'. words (i + 1) left r' ≡ read_words_at (i + 1) left r') (point v r)
      → words i (suc left) r ≡ read_words_at i (suc left) r
  read_there v i left r here at rest =
      words-suc i left r
      ∙ (rw here (
            same_after (point v r) rest
            ∙ ap (λ k. point v (record r { p = k }) >>= λ r'. read_words_at (i + 1) left r') at)
          ∙ sym (read_words-suc i left r))
    where
      same_after :
          (o : Option Registers)
          → IfSome (λ r'. words (i + 1) left r' ≡ read_words_at (i + 1) left r') o
          → (o >>= λ r'. words (i + 1) left r') ≡ (o >>= λ r'. read_words_at (i + 1) left r')
      same_after none h = refl
      same_after (some r') h = h

  IfSome-imp :
      (P Q : Registers → Type 0) (o : Option Registers)
      → ((r : Registers) → P r → Q r)
      → IfSome P o
      → IfSome Q o
  IfSome-imp P Q none f h = tt
  IfSome-imp P Q (some r) f h = f r h

  any : (P : Registers → Type 0) (o : Option Registers) → ((r : Registers) → P r) → IfSome P o
  any P none f = tt
  any P (some r) f = f r

  -- Where the points cover the addresses, the pointer stands at the bytes of each address.
  words-read_words :
      (i owed left : ℕ) (r : Registers)
      → IsTiled rows cn i owed left
      → r.p ≡ 3 + 2 * (i + owed)
      → words i left r ≡ read_words_at i left r
  words-read_words i owed left r ends at =
      words-IsBlank i 0 r tt ∙ sym (read_words-IsBlank i 0 r tt)
  words-read_words i owed left r (covered {owed = o} {left = l} none_here rest) at =
      words-suc i l r
      ∙ (rw none_here (words-read_words (i + 1) o l r rest (omega (arith, at)))
          ∙ sym (read_words-suc i l r))
  words-read_words i owed left r (integer {left = l} v more here is_number size rest) at =
      read_there v i l r here (omega (arith, at)) (
        IfSome-imp _ _ (point v r)
          (λ r' moved. words-read_words (i + 1) more l r' rest (omega (arith, at, moved)))
          (register_point-p v r (2 * suc more) is_number size))
  words-read_words i owed left r (last_point {left = l} v here blank) at =
      read_there v i l r here (omega (arith, at)) (
        any (λ r'. words (i + 1) l r' ≡ read_words_at (i + 1) l r') (point v r)
          (λ r'. words-IsBlank (i + 1) l r' blank ∙ sym (read_words-IsBlank (i + 1) l r' blank)))

  pub register_words-read_words :
      (left : ℕ) (r : Registers)
      → IsTiled rows cn 0 0 left
      → r.p ≡ 3
      → register_words fl ends_equal width buffer rows cn 0 left r
        ≡ read_words fl ends_equal width buffer rows cn 0 left r
  unfolding words read_words_at
  register_words-read_words left r tiled at = words-read_words 0 0 left r tiled (omega (arith, at))
