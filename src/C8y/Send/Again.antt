-- ===== src/C8y/Send/Again.antt =====
-- sendMsg of src/c8y.cpp compares what it would send with what it has sent last, without the times.
use modbus_ssa_project.Prelude.{
  Bool, true, false, not, ◌||◌, List, [], ◌∷◌, ◌++◌, ◌≡◌, refl, ap, ap₂, ◌∙◌, Bool-cases, inl, inr,
  arith,
}
use modbus_ssa_project.Prelude.Int.{pos}
use modbus_ssa_project.Prelude.Text.{Text, text, same, same_iff, empty}
use modbus_ssa_project.Prelude.Map.{key_refl, text_key, get, modify, get-modify}
use modbus_ssa_project.Model.{MsgMap, MbDevices, new_mbdevices, new_mbtypes}
use modbus_ssa_project.Platform.{Platform}
use modbus_ssa_project.Session.Record.{Session}
use modbus_ssa_project.C8y.Send.{line, lines, forward_line, forward_lines, send_msg}

line_untimed :
    (sid time time' msg_id : Text) (values : List Text)
    → line sid false time msg_id values ≡ line sid false time' msg_id values
unfolding line
line_untimed sid time time' msg_id values = ground arith

-- Without the time, the time does not matter.
lines_untimed :
    (sid time time' : Text) (m : MsgMap) → lines sid false time m ≡ lines sid false time' m
unfolding lines line
lines_untimed sid time time' [] = refl
lines_untimed sid time time' ((msg_id, values) ∷ m) =
    ap₂ ◌++◌ (line_untimed sid time time' msg_id values) (lines_untimed sid time time' m)

forward_lines_untimed :
    (sid time time' : Text) (m : MsgMap)
    → forward_lines sid false time m ≡ forward_lines sid false time' m
unfolding forward_lines forward_line
forward_lines_untimed sid time time' [] = refl
forward_lines_untimed sid time time' ((msg_id, values) ∷ m) =
    ap (λ rest. forward_line sid false time' msg_id values ++ rest)
      (forward_lines_untimed sid time time' m)

-- Whether there is a message.
fresh : MsgMap → Bool
fresh [] = false
fresh (e ∷ m) = true

lines-empty :
    (sid : Text) (timed : Bool) (time : Text) (m : MsgMap)
    → empty (lines sid timed time m) ≡ not (fresh m)
unfolding lines line fresh empty
lines-empty sid timed time [] = refl
lines-empty sid timed time (([], values) ∷ m) = refl
lines-empty sid timed time ((c ∷ msg_id, values) ∷ m) = refl

forward_lines-empty :
    (sid : Text) (timed : Bool) (time : Text) (m : MsgMap)
    → empty (forward_lines sid timed time m) ≡ not (fresh m)
unfolding forward_lines forward_line fresh empty
forward_lines-empty sid timed time [] = refl
forward_lines-empty sid timed time (([], values) ∷ m) = refl
forward_lines-empty sid timed time ((c ∷ msg_id, values) ∷ m) = refl

-- The device, and whether its type has its times sent, as sendMsg finds them.
abbrev looked : Text → Session → MbDevices
looked sid cs = get new_mbdevices sid (modify new_mbdevices sid (λ d. d) cs.mbdevices)

abbrev is_timed : Text → Session → Bool
is_timed sid cs =
    let type = (looked sid cs).type in
    same (get new_mbtypes type (modify new_mbtypes type (λ t. t) cs.mbtypes.types)).is_server_time
      (text "false")

looked-device :
    (sid : Text) (cs : Session)
    → get new_mbdevices sid (modify new_mbdevices sid (λ d. d) cs.mbdevices)
      ≡ get new_mbdevices sid cs.mbdevices
looked-device sid cs =
    ground (arith, get-modify new_mbdevices sid sid (λ d. d) cs.mbdevices, key_refl sid)

module _ (pf : Platform) where
  open pf use {World, server_time}

  recorded :
      (sid : Text) (cs : Session) (w : World)
      → (send_msg pf sid cs w).0 ≡ pos 0
      → (fresh (get new_mbdevices sid cs.mbdevices).template_msg
          || fresh (get new_mbdevices sid cs.mbdevices).forward_msg)
        ≡ true
      → (((send_msg pf sid cs w).1).msg
          ≡ lines sid false (server_time w) (get new_mbdevices sid cs.mbdevices).template_msg)
        × (((send_msg pf sid cs w).1).forward_msg
            ≡ forward_lines cs.sid false
                (server_time w)
                (get new_mbdevices sid cs.mbdevices).forward_msg)
  unfolding send_msg
  recorded sid cs w sent some_message = ground (
    arith,
    looked-device sid cs,
    lines-empty sid (is_timed sid cs) (server_time w) (looked sid cs).template_msg,
    forward_lines-empty cs.sid (is_timed sid cs) (server_time w) (looked sid cs).forward_msg,
  )

  repeated :
      (sid : Text) (cs : Session) (w : World)
      → cs.msg ≡ lines sid false (server_time w) (get new_mbdevices sid cs.mbdevices).template_msg
      → cs.forward_msg
        ≡ forward_lines cs.sid false
            (server_time w)
            (get new_mbdevices sid cs.mbdevices).forward_msg
      → (send_msg pf sid cs w).2 ≡ w
  unfolding send_msg
  repeated sid cs w same_msg same_forward = ground (
    arith,
    looked-device sid cs,
    same_iff cs.msg (lines sid false (server_time w) (looked sid cs).template_msg),
    same_iff cs.forward_msg
        (forward_lines cs.sid false (server_time w) (looked sid cs).forward_msg),
  )

  nothing_to_send :
      (sid : Text) (cs : Session) (w : World)
      → (fresh (get new_mbdevices sid cs.mbdevices).template_msg
          || fresh (get new_mbdevices sid cs.mbdevices).forward_msg)
        ≡ false
      → (send_msg pf sid cs w).2 ≡ w
  unfolding send_msg
  nothing_to_send sid cs w no_message = ground (
    arith,
    looked-device sid cs,
    lines-empty sid (is_timed sid cs) (server_time w) (looked sid cs).template_msg,
    forward_lines-empty cs.sid (is_timed sid cs) (server_time w) (looked sid cs).forward_msg,
  )

  -- What has not changed is not sent again: after a complete upload for a device, an upload in which
  -- the device has the same messages, and the session still has what it last sent, posts nothing,
  -- whatever the time is.
  pub send_msg_again :
      (sid : Text) (cs next : Session) (w w' : World)
      → (send_msg pf sid cs w).0 ≡ pos 0
      → next.sid ≡ cs.sid
      → get new_mbdevices sid next.mbdevices ≡ get new_mbdevices sid cs.mbdevices
      → next.msg ≡ ((send_msg pf sid cs w).1).msg
      → next.forward_msg ≡ ((send_msg pf sid cs w).1).forward_msg
      → (send_msg pf sid next w').2 ≡ w'
  send_msg_again sid cs next w w' sent same_sid same_device same_msg same_forward =
      elim (Bool-cases (fresh mbd.template_msg || fresh mbd.forward_msg)) [
        | inr none_fresh ↦ nothing_to_send sid next w' (rw same_device none_fresh)
        | inl some_fresh ↦
            repeated sid next w'
              (same_msg
                ∙ ((recorded sid cs w sent some_fresh).0
                    ∙ rw same_device
                        (lines_untimed sid (server_time w) (server_time w') mbd.template_msg)))
              (same_forward
                ∙ ((recorded sid cs w sent some_fresh).1
                    ∙ rw (same_device, same_sid)
                        (forward_lines_untimed cs.sid (server_time w) (server_time w')
                          mbd.forward_msg)))
      ]
    where
      mbd : MbDevices
      mbd = get new_mbdevices sid cs.mbdevices
