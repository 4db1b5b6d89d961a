-- ===== src/Session/Reading.antt =====
-- src/client_session.cpp: onRead and process, the messages of a registered device.
use modbus_ssa_project.Prelude.{
  ℕ, zero, suc, ◌+◌, Bool, true, false, not, List, ◌++◌, Option, none, some, if◌then◌else◌,
}
use modbus_ssa_project.Prelude.Int.{pos, negsuc}
use modbus_ssa_project.Prelude.Text.{text}
use modbus_ssa_project.Model.{Floats}
use modbus_ssa_project.Platform.{Platform}
use modbus_ssa_project.Frame.{check_msg}
use modbus_ssa_project.Parse.Msg.{parse_msg}
use modbus_ssa_project.C8y.Send.{send_msg}
use modbus_ssa_project.Session.Record.{Session}
use modbus_ssa_project.Session.Machine.{
  Machine, on_cs, read, reset_buffer, replaced, look_up, finish,
}

module _ (pf : Platform) (fl : Floats) (ends_equal : Bool) where
  open pf use {World, post}

  -- process: the response is read and sent on, and the next request may go out.
  unfoldable pub process : Session → World → Option (Session × World)
  process cs w =
      let posted = (post (text "107," ++ cs.sid) w).1 in
      elim (parse_msg fl ends_equal cs) [
        | none ↦ none
        | some (ret, cs') ↦
            let sent = send_msg pf cs'.current_sid cs' posted in
            some (record (sent.1) { locked = false; count = 0 }, sent.2)
      ]

  -- onRead, over the bytes that the buffer holds then. The check of a heartbeat posts 107, and so
  -- does the handler.
  unfoldable pub on_read : Bool → Bool → List ℕ → ℕ → Machine → World → Option (Machine × World)
  unfolding on_cs read reset_buffer process finish replaced look_up
  on_read error has_http buffer bytes m w =
      let m₁ =
        on_cs (λ c. record c { is_close = false; rece_heart_beat = true; buffer = buffer }) m in
      let closing = on_cs (λ c. record c { is_close = true }) in
      let m₂ = on_cs (λ c. record c { len = c.len + bytes }) (look_up m₁) in
      let check = check_msg (m₂.cs).buffer (m₂.cs).len (m₂.cs).tcp_flag in
      let m₃ = on_cs (λ c. record c { tcp_flag = check.tcp_flag }) m₂ in
      let heartbeat = text "107," ++ (m₃.cs).sid in
      if error
      then some (finish (closing m₁), w)
      else if replaced m₁
      then some (finish (closing (look_up m₁)), w)
      else if not has_http
      then some (finish (look_up m₁), w)
      else elim check.result [
        | pos zero ↦ elim (process m₃.cs w) [
          | none ↦ none
          | some (cs, w') ↦ some (finish (read 3 (reset_buffer (record m₃ { cs = cs }))), w')
        ]
        | pos (suc more) ↦ some (finish (read (suc more) m₃), w)
        | negsuc zero ↦
            some (finish (read 3 (reset_buffer m₃)), (post heartbeat (post heartbeat w).1).1)
        | negsuc (suc n) ↦ some (finish (closing m₃), w)
      ]
