-- ===== src/C8y/Send.antt =====
-- src/c8y.cpp: sendMsg, the upload of what a poll of a device has collected.
pub mod Again
use modbus_ssa_project.Prelude.{
  Bool, false, ◌&&◌, ◌||◌, not, List, [], ◌∷◌, ◌++◌, if◌then◌else◌, ◌==◌, length,
}
use modbus_ssa_project.Prelude.Int.{ℤ, pos, negsuc}
use modbus_ssa_project.Prelude.Text.{Text, text, same, empty}
use modbus_ssa_project.Prelude.Map.{text_key, get, modify, assign}
use modbus_ssa_project.Model.{MbTypes, new_mbtypes, MsgMap, MbDevices, new_mbdevices}
use modbus_ssa_project.Platform.{Platform}
use modbus_ssa_project.Session.Record.{Session}

-- The values of a message, one behind the other.
unfoldable pub joined : List Text → Text
joined [] = []
joined (v ∷ vs) = v ++ joined vs

-- A line of the upload; the messages 100 and 101 carry no time.
unfoldable pub line : Text → Bool → Text → Text → List Text → Text
unfolding joined
line sid timed time msg_id values =
    let stamp =
      if not (same msg_id (text "101")) && not (same msg_id (text "100")) && timed
      then text "," ++ time
      else [] in
    msg_id ++ (text "," ++ (sid ++ (stamp ++ (joined values ++ 10 ∷ []))))

unfoldable pub lines : Text → Bool → Text → MsgMap → Text
unfolding line
lines sid timed time [] = []
lines sid timed time ((msg_id, values) ∷ m) =
    line sid timed time msg_id values ++ lines sid timed time m

-- A line of the forwarded messages, which all carry the time.
unfoldable pub forward_line : Text → Bool → Text → Text → List Text → Text
unfolding joined
forward_line sid timed time msg_id values =
    let stamp = if timed then text "," ++ time else [] in
    msg_id ++ (text "," ++ (sid ++ (stamp ++ (joined values ++ 10 ∷ []))))

unfoldable pub forward_lines : Text → Bool → Text → MsgMap → Text
unfolding forward_line
forward_lines sid timed time [] = []
forward_lines sid timed time ((msg_id, values) ∷ m) =
    forward_line sid timed time msg_id values ++ forward_lines sid timed time m

-- Every point of the type has been read once.
abbrev pub is_complete : MbDevices → MbTypes → Bool
is_complete mbd t =
    mbd.co_num == length t.co
    && (mbd.di_num == length t.di && (mbd.hr_num == length t.hr && mbd.ir_num == length t.ir))

unfoldable pub emptied : MbDevices → MbDevices
emptied mbd = record mbd {
  template_msg = [];
  forward_msg = [];
  co_num = 0;
  di_num = 0;
  hr_num = 0;
  ir_num = 0;
  co = [];
  di = [];
  hr = [];
  ir = [];
}

module _ (pf : Platform) where
  open pf use {World, post_as, server_time}

  -- sendMsg, for the device `_mbdevices._m[sid]`. What is compared with the last upload has no
  -- times in it.
  unfoldable pub send_msg : Text → Session → World → ℤ × Session × World
  unfolding lines forward_lines emptied
  send_msg sid cs w =
      let devices = modify new_mbdevices sid (λ d. d) cs.mbdevices in
      let mbd = get new_mbdevices sid devices in
      let type = mbd.type in
      let types = modify new_mbtypes type (λ t. t) cs.mbtypes.types in
      let t = get new_mbtypes type types in
      let looked = record cs {
        mbdevices = devices;
        mbtypes = record (cs.mbtypes) { types = types };
      } in
      let timed = same t.is_server_time (text "false") in
      let time = server_time w in
      let send_text = lines sid timed time mbd.template_msg in
      let s = lines sid false time mbd.template_msg in
      let forward_text = forward_lines cs.sid timed time mbd.forward_msg in
      let forward_s = forward_lines cs.sid false time mbd.forward_msg in
      let cleared = record looked { mbdevices = assign sid (emptied mbd) devices } in
      let changed = not (same cs.msg s) in
      let forward_changed = not (same cs.forward_msg forward_s) in
      let w₁ = if changed then post_as type send_text w else w in
      let w₂ = if forward_changed then post_as type forward_text w₁ else w₁ in
      if is_complete mbd t
      then (if not (empty send_text) || not (empty forward_text)
          then (pos 0, record cleared { msg = s; forward_msg = forward_s }, w₂)
          else (pos 0, cleared, w))
      else (negsuc 0, looked, w)
