-- ===== src/Parse/Registers/Messages.antt =====
-- Which messages a response of registers raises (parseHR and parseIR of src/modbus_p.cpp): the alarms,
-- events, measurements and statuses of its points, by the values at the bytes of their addresses.
use mathlib.Core.Path.{subst}
use modbus_ssa_project.Prelude.{
  ℕ, zero, suc, ◌+◌, ◌*◌, ◌/◌, Bool, false, ◌||◌, List, Option, none, some, ◌≡◌, refl, sym, ap, ◌∙◌,
  arith,
}
use modbus_ssa_project.Prelude.Int.{ℤ}
use modbus_ssa_project.Prelude.Text.{Text, atoi}
use modbus_ssa_project.Prelude.Map.{text_key, contains, get, get-assign_self}
use modbus_ssa_project.Model.Position
use modbus_ssa_project.Model.{Floats, Row, field, MbDevices, new_mbdevices}
use modbus_ssa_project.Frame.{byte}
use modbus_ssa_project.Util.{float_reserve}
use modbus_ssa_project.Parse.Effects.{register_effect, forward_effect}
use modbus_ssa_project.Prelude.{◌>>=◌}
use modbus_ssa_project.Parse.Coils.{put_device}
use modbus_ssa_project.Parse.Coils.Raises.{grouped}
use modbus_ssa_project.Parse.Registers.{Registers, read_point, register_point, locate_device}
use modbus_ssa_project.Parse.Registers.Raises.{raises, contains-register_effect}
use modbus_ssa_project.Parse.Registers.Layout.{point_of, IsTiled, read_words}
use modbus_ssa_project.Parse.Registers.Responses.{
  RegisterKind, holding, input, parse_of, width_of, rows_of, unread, with_registers,
  parse_of-read_words,
}
use modbus_ssa_project.Session.Record.{Session}
use modbus_ssa_project.Session.Sound.{IfSome}

module _ (fl : Floats) (ends_equal : Bool) (width : ℕ) (buffer : List ℕ) (rows : List Row) (cn : ℤ)
    (id : Text) where
  -- The point of a row raises it, with the value at the byte `p`.
  unfoldable pub raised_at : Row → ℕ → Bool
  raised_at v p = elim (read_point fl ends_equal width buffer v p) [
    | none ↦ false
    | some value ↦ raises id v (fl.positive value.0)
  ]

  -- One of `left` addresses from the `i`th on has a point that raises it.
  unfoldable pub raised : ℕ → ℕ → Bool
  unfolding raised_at
  raised i zero = false
  raised i (suc left) =
      (elim (point_of rows cn i) [ none ↦ false | some v ↦ raised_at v (3 + 2 * i) ])
      || raised (i + 1) left

  Raises : Bool → Registers → Registers → Type 0
  Raises b r r' = contains id (r'.maps).tm ≡ (contains id (r.maps).tm || b)

  register_point-Raises :
      (v : Row) (r : Registers)
      → IfSome (Raises (raised_at v r.p) r) (register_point fl ends_equal width buffer v r)
  unfolding register_point raised_at Raises
  register_point-Raises v r = after (read_point fl ends_equal width buffer v r.p)
    where
      after :
          (o : Option (fl.Double × ℕ))
          → IfSome
              (Raises
                (elim o as (λ _. Bool) [
                  | none ↦ false
                  | some value ↦ raises id v (fl.positive value.0)
                ])
                r)
              (o >>= λ value. some (record {
                p = value.1;
                num = r.num + 1;
                maps =
                    register_effect ends_equal v
                      (fl.positive value.0)
                      (float_reserve fl value.0 (atoi (field v Position.point)))
                      r.maps;
                forward =
                    forward_effect v
                      (float_reserve fl value.0 (atoi (field v Position.point)))
                      r.forward;
              }))
      after none = tt
      after (some value) =
          contains-register_effect ends_equal id v (fl.positive value.0)
            (float_reserve fl value.0 (atoi (field v Position.point))) r.maps

  Raises-trans :
      (a b : Bool) (r r' : Registers) (o : Option Registers)
      → Raises a r r'
      → IfSome (Raises b r') o
      → IfSome (Raises (a || b) r) o
  unfolding Raises
  Raises-trans a b r r' none h k = tt
  Raises-trans a b r r' (some r'') h k =
      k ∙ (ap (λ x. x || b) h ∙ grouped (contains id (r.maps).tm) a b)

  -- A point, and the rest of the response.
  bind-Raises :
      (a b : Bool) (r : Registers) (o : Option Registers) (f : Registers → Option Registers)
      → IfSome (Raises a r) o
      → ((r' : Registers) → IfSome (Raises b r') (f r'))
      → IfSome (Raises (a || b) r) (o >>= f)
  bind-Raises a b r none f h rest = tt
  bind-Raises a b r (some r') f h rest = Raises-trans a b r r' (f r') h (rest r')

  read_words-Raises :
      (i left : ℕ) (r : Registers)
      → IfSome (Raises (raised i left) r) (read_words fl ends_equal width buffer rows cn i left r)
  unfolding read_words raised Raises
  read_words-Raises i zero r = ground arith
  read_words-Raises i (suc left) r =
      at_point (point_of rows cn i) (λ r'. read_words-Raises (i + 1) left r')
    where
      rest : Registers → Option Registers
      rest r' = read_words fl ends_equal width buffer rows cn (i + 1) left r'

      at_point :
          (o : Option Row)
          → ((r' : Registers) → IfSome (Raises (raised (i + 1) left) r') (rest r'))
          → IfSome
              (Raises
                ((elim o as (λ _. Bool) [ none ↦ false | some v ↦ raised_at v (3 + 2 * i) ])
                  || raised (i + 1) left)
                r)
              ((elim o as (λ _. Option Registers) [
                | none ↦ some r
                | some v ↦ register_point fl ends_equal width buffer v (record r { p = 3 + 2 * i })
              ])
                >>= rest)
      at_point none h = h r
      at_point (some v) h =
          bind-Raises (raised_at v (3 + 2 * i)) (raised (i + 1) left) r
            (register_point fl ends_equal width buffer v (record r { p = 3 + 2 * i })) rest
            (register_point-Raises v (record r { p = 3 + 2 * i })) h

template_msg-with_registers :
    (kind : RegisterKind) (d : MbDevices) (r : Registers)
    → (with_registers kind d r).template_msg ≡ (r.maps).tm
template_msg-with_registers holding d r = refl
template_msg-with_registers input d r = refl

template_msg-unread :
    (kind : RegisterKind) (d : MbDevices) → ((unread kind d).maps).tm ≡ d.template_msg
template_msg-unread holding d = refl
template_msg-unread input d = refl

-- A response of registers raises the messages of its points and no other: where the points cover the
-- addresses of the response, each but the last a number with as many bytes as its addresses have, and
-- the response is read, the device's messages afterwards are those that it had before and, of the
-- points at the addresses of the response, the events, measurements and statuses, and the alarms of
-- those whose value, read at the two bytes of the address, is positive.
pub parse_of-raises :
    (kind : RegisterKind) (fl : Floats) (ends_equal : Bool) (cs cs' : Session) (id : Text)
    → IsTiled (rows_of kind (locate_device cs).2) (atoi cs.current_num) 0 0 (byte cs.buffer 2 / 2)
    → parse_of kind fl ends_equal cs ≡ some cs'
    → contains id (get new_mbdevices (locate_device cs).0 cs'.mbdevices).template_msg ≡ (
        contains id ((locate_device cs).1).template_msg
        || raised fl ends_equal
            (width_of kind)
            cs.buffer
            (rows_of kind (locate_device cs).2)
            (atoi cs.current_num)
            id
            0
            (byte cs.buffer 2 / 2))
unfolding Raises put_device
parse_of-raises kind fl ends_equal cs cs' id tiled parsed =
    subst (IfSome Raised) (sym (parse_of-read_words kind fl ends_equal cs tiled) ∙ parsed) (
      stored read (
        read_words-Raises fl ends_equal (width_of kind) cs.buffer
          (rows_of kind (locate_device cs).2) (atoi cs.current_num) id 0 (byte cs.buffer 2 / 2)
          (unread kind device)))
  where
    device : MbDevices
    device = (locate_device cs).1

    here : Bool
    here =
        raised fl ends_equal (width_of kind) cs.buffer (rows_of kind (locate_device cs).2)
          (atoi cs.current_num) id 0 (byte cs.buffer 2 / 2)

    Raised : Session → Type 0
    Raised s =
        contains id (get new_mbdevices (locate_device cs).0 s.mbdevices).template_msg
        ≡ (contains id device.template_msg || here)

    read : Option Registers
    read =
        read_words fl ends_equal (width_of kind) cs.buffer (rows_of kind (locate_device cs).2)
          (atoi cs.current_num) 0 (byte cs.buffer 2 / 2) (unread kind device)

    stored :
        (o : Option Registers)
        → IfSome
            (λ r. contains id (r.maps).tm ≡ (contains id ((unread kind device).maps).tm || here))
            o
        → IfSome Raised (
            o >>= λ r.
            some
              (put_device (locate_device cs).0 (with_registers kind device r) (locate_device cs).3))
    stored none h = tt
    stored (some r) h =
        ap (λ d. contains id d.template_msg)
          (get-assign_self new_mbdevices (locate_device cs).0 (with_registers kind device r)
            ((locate_device cs).3).mbdevices)
        ∙ (ap (contains id) (template_msg-with_registers kind device r)
            ∙ (h ∙ ap (λ m. contains id m || here) (template_msg-unread kind device)))
