-- ===== src/Parse/Coils/Raises.antt =====
-- Which messages a response of coils or discrete inputs raises (parseCO and parseDI of
-- src/modbus_p.cpp): the alarms, events and statuses of its points, by the bits of the response.
use mathlib.Core.Path.{subst}
use modbus_ssa_project.Prelude.{
  ℕ, zero, suc, ◌+◌, ◌*◌, ◌≤◌, Bool, true, false, not, ◌&&◌, ◌||◌, List, [], ◌∷◌, ◌++◌, some,
  if◌then◌else◌, ◌≡◌, refl, sym, ap, ◌∙◌, Bool-cases, inl, inr, arith,
}
use modbus_ssa_project.Prelude.Int.{ℤ, pos, ◌+ℤ◌, pos_part}
use modbus_ssa_project.Prelude.Text.{Text, text, same, empty, to_text, to_string}
use modbus_ssa_project.Prelude.Map.{text_key, contains, get, get-assign_self}
use modbus_ssa_project.Prelude.Keys.{contains-modify_eq, contains-assign_eq}
use modbus_ssa_project.Model.Position
use modbus_ssa_project.Model.{Row, field, MbDevices, new_mbdevices}
use modbus_ssa_project.Frame.{byte}
use modbus_ssa_project.Parse.Effects.{
  Maps, fires, push_value, push_both, assign_both, status_effect, coil_effect,
}
use modbus_ssa_project.Parse.Coils.{Collected, Located, coil_rows, locate, put_device}
use modbus_ssa_project.Parse.Coils.Bits.{
  IsBytes, response_bit, CoilKind, coils, inputs, place_of, rows_of, parse_bits, before, with_bits,
  read_bits, parse_bits-read_bits,
}
use modbus_ssa_project.Session.Record.{Session}
use modbus_ssa_project.Session.Sound.{IfSome}

-- The message is the point's alarm or event, and the bit meets its condition; or it is its status.
abbrev pub raises : Text → Row → ℕ → Bool
raises id v d =
    let alarm = field v Position.alarm in
    let event = field v Position.event in
    let status = field v Position.status in
    (not (empty alarm) && (fires (field v Position.alarm_condition) d && same alarm id))
    || ((not (empty event) && (fires (field v Position.event_condition) d && same event id))
        || (not (empty status) && same status id))

-- One of the points at an address raises it.
unfoldable pub raised_at : Text → Text → ℕ → List Row → Bool
raised_at id number d [] = false
raised_at id number d (v ∷ rows) =
    (same (field v Position.number) number && raises id v d) || raised_at id number d rows

-- One of `left` addresses from the `j`th on raises it, with its bit of the response.
unfoldable pub raised : Text → List Row → List ℕ → ℤ → ℕ → ℕ → Bool
unfolding raised_at
raised id rows buffer cn j zero = false
raised id rows buffer cn j (suc left) =
    raised_at id (to_string (cn +ℤ pos j)) (response_bit buffer j) rows
    || raised id rows buffer cn (j + 1) left

pub contains-push_both :
    (id k value : Text) (m : Maps)
    → contains id (push_both k value m).tm ≡ (contains id m.tm || same k id)
unfolding push_both push_value
contains-push_both id k value m = contains-modify_eq [] id k (λ vs. vs ++ value ∷ []) m.tm

pub contains-assign_both :
    (id k : Text) (values : List Text) (m : Maps)
    → contains id (assign_both k values m).tm ≡ (contains id m.tm || same k id)
unfolding assign_both
contains-assign_both id k values m = contains-assign_eq id k values m.tm

pub contains-status_effect :
    (ends_equal : Bool) (id status value : Text) (m : Maps)
    → contains id (status_effect ends_equal status value m).tm
      ≡ (contains id m.tm || (not (empty status) && same status id))
unfolding status_effect
contains-status_effect ends_equal id status value m =
    ground
      (arith, contains-push_both id status value m, contains-assign_both id status (value ∷ []) m)

alarmed : Text → Bool → Maps → Maps
alarmed alarm fired m = if empty alarm then m else if fired then assign_both alarm [] m else m

evented : Text → Bool → Text → Maps → Maps
evented event fired value m =
    if empty event then m else if fired then push_both event value m else m

contains-alarmed :
    (id alarm : Text) (fired : Bool) (m : Maps)
    → contains id (alarmed alarm fired m).tm
      ≡ (contains id m.tm || (not (empty alarm) && (fired && same alarm id)))
unfolding alarmed
contains-alarmed id alarm fired m = ground (arith, contains-assign_both id alarm [] m)

contains-evented :
    (id event value : Text) (fired : Bool) (m : Maps)
    → contains id (evented event fired value m).tm
      ≡ (contains id m.tm || (not (empty event) && (fired && same event id)))
unfolding evented
contains-evented id event value fired m = ground (arith, contains-push_both id event value m)

regrouped : (x a e s : Bool) → (((x || a) || e) || s) ≡ (x || (a || (e || s)))
regrouped true a e s = refl
regrouped false true e s = refl
regrouped false false e s = refl

contains-coil_effect :
    (ends_equal : Bool) (id : Text) (v : Row) (d : ℕ) (m : Maps)
    → contains id (coil_effect ends_equal v d m).tm ≡ (contains id m.tm || raises id v d)
unfolding coil_effect alarmed evented
contains-coil_effect ends_equal id v d m =
    contains-status_effect ends_equal id (field v Position.status) value with_event
    ∙ (ap (λ b. b || by_status)
          (contains-evented id (field v Position.event) value event_fired with_alarm
            ∙ ap (λ b. b || by_event) (contains-alarmed id (field v Position.alarm) alarm_fired m))
        ∙ regrouped (contains id m.tm) by_alarm by_event by_status)
  where
    value : Text
    value = text "," ++ to_text d

    alarm_fired : Bool
    alarm_fired = fires (field v Position.alarm_condition) d

    event_fired : Bool
    event_fired = fires (field v Position.event_condition) d

    with_alarm : Maps
    with_alarm = alarmed (field v Position.alarm) alarm_fired m

    with_event : Maps
    with_event = evented (field v Position.event) event_fired value with_alarm

    by_alarm : Bool
    by_alarm =
        not (empty (field v Position.alarm)) && (alarm_fired && same (field v Position.alarm) id)

    by_event : Bool
    by_event =
        not (empty (field v Position.event)) && (event_fired && same (field v Position.event) id)

    by_status : Bool
    by_status = not (empty (field v Position.status)) && same (field v Position.status) id

pub grouped : (x a b : Bool) → ((x || a) || b) ≡ (x || (a || b))
grouped true a b = refl
grouped false a b = refl

module _ (ends_equal : Bool) (id : Text) where
  contains-coil_rows :
      (number : Text) (d : ℕ) (rows : List Row) (c : Collected)
      → contains id ((coil_rows ends_equal number d rows c).maps).tm
        ≡ (contains id (c.maps).tm || raised_at id number d rows)
  unfolding coil_rows raised_at
  contains-coil_rows number d [] c = ground arith
  contains-coil_rows number d (v ∷ rows) c =
      elim (Bool-cases (same (field v Position.number) number)) [
        | inl e ↦
            rw (coil_rows, e)
              (contains-coil_rows number d rows
                  (record { num = c.num + 1; maps = coil_effect ends_equal v d c.maps })
                ∙ (ap (λ b. b || raised_at id number d rows)
                      (contains-coil_effect ends_equal id v d c.maps)
                    ∙ grouped (contains id (c.maps).tm) (raises id v d)
                        (raised_at id number d rows)))
        | inr e ↦ rw (coil_rows, e) (contains-coil_rows number d rows c)
      ]

  contains-read_bits :
      (rows : List Row) (buffer : List ℕ) (cn : ℤ) (j left : ℕ) (c : Collected)
      → contains id ((read_bits ends_equal rows buffer cn j left c).maps).tm
        ≡ (contains id (c.maps).tm || raised id rows buffer cn j left)
  unfolding read_bits raised
  contains-read_bits rows buffer cn j zero c = ground arith
  contains-read_bits rows buffer cn j (suc left) c =
      contains-read_bits rows buffer cn (j + 1) left (coil_rows ends_equal number bit rows c)
      ∙ (ap (λ b. b || raised id rows buffer cn (j + 1) left) (contains-coil_rows number bit rows c)
          ∙ grouped (contains id (c.maps).tm) (raised_at id number bit rows)
              (raised id rows buffer cn (j + 1) left))
    where
      number : Text
      number = to_string (cn +ℤ pos j)

      bit : ℕ
      bit = response_bit buffer j

template_msg-with_bits :
    (kind : CoilKind) (d : MbDevices) (c : Collected)
    → (with_bits kind d c).template_msg ≡ (c.maps).tm
template_msg-with_bits coils d c = refl
template_msg-with_bits inputs d c = refl

template_msg-before : (kind : CoilKind) (d : MbDevices) → ((before kind d).maps).tm ≡ d.template_msg
template_msg-before coils d = refl
template_msg-before inputs d = refl

-- A response of coils or discrete inputs raises the alarms, events and statuses of its points and no
-- other message: where it is read, up to four bytes and no more addresses than they have bits, the
-- device's messages afterwards are those that it had before and the statuses of the points at the
-- addresses that were asked for, and of these points the alarms and events whose condition is met by
-- the bit that the protocol gives the address.
pub parse_bits-raises :
    (kind : CoilKind) (ends_equal : Bool) (cs cs' : Session) (l : Located) (id : Text)
    → IsBytes cs.buffer
    → locate (place_of kind) cs ≡ some l
    → byte cs.buffer 2 ≤ 4
    → pos_part l.count ≤ 8 * byte cs.buffer 2
    → parse_bits kind ends_equal cs ≡ some cs'
    → contains id (get new_mbdevices l.sid cs'.mbdevices).template_msg ≡ (
        contains id (l.device).template_msg
        || raised id (rows_of kind l.points) cs.buffer l.cn 0 (pos_part l.count))
unfolding put_device
parse_bits-raises kind ends_equal cs cs' l id bytes found fits count parsed =
    subst (IfSome Raised)
      (sym (parse_bits-read_bits kind ends_equal cs l bytes found fits count) ∙ parsed)
      (ap (λ d. contains id d.template_msg)
          (get-assign_self new_mbdevices l.sid (with_bits kind l.device c) (l.cs).mbdevices)
        ∙ (ap (contains id) (template_msg-with_bits kind l.device c)
            ∙ (contains-read_bits ends_equal id (rows_of kind l.points) cs.buffer l.cn 0
                  (pos_part l.count) (before kind l.device)
                ∙ ap (λ m. contains id m || here) (template_msg-before kind l.device))))
  where
    c : Collected
    c =
        read_bits ends_equal (rows_of kind l.points) cs.buffer l.cn 0 (pos_part l.count)
          (before kind l.device)

    here : Bool
    here = raised id (rows_of kind l.points) cs.buffer l.cn 0 (pos_part l.count)

    Raised : Session → Type 0
    Raised s =
        contains id (get new_mbdevices l.sid s.mbdevices).template_msg
        ≡ (contains id (l.device).template_msg || here)
