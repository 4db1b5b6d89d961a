-- ===== src/Session/Sound/Responses.antt =====
-- Responses and uploads (src/modbus_p.cpp, src/c8y.cpp) keep a session sound.
use mathlib.Core.Path.{subst}
use modbus_ssa_project.Prelude.{
  Bool, false, ◌++◌, Option, none, some, ◌==◌, ◌/◌, ◌≡◌, refl, ◌∙◌, Bool-cases, if◌then◌else◌,
  if-intro, inl, inr, arith,
}
use modbus_ssa_project.Prelude.Int.{ℤ, pos, pos_part}
use modbus_ssa_project.Prelude.Text.{Text, text, atoi}
use modbus_ssa_project.Prelude.Map.{text_key, get, modify, assign}
use modbus_ssa_project.Model.{Floats, MbDevices, MbTypes, new_mbdevices, new_mbtypes}
use modbus_ssa_project.Platform.{Platform}
use modbus_ssa_project.Frame.{byte}
use modbus_ssa_project.Prelude.{◌>>=◌}
use modbus_ssa_project.Parse.Coils.{locate, collect, coil_bits, put_device, parse_co, parse_di}
use modbus_ssa_project.Parse.Registers.{locate_device, register_words, parse_hr, parse_ir}
use modbus_ssa_project.Parse.Msg.{parse_msg}
use modbus_ssa_project.C8y.Send.{emptied, is_complete, send_msg}
use modbus_ssa_project.Session.Record.{Session}
use modbus_ssa_project.Session.Reading.{process}
use modbus_ssa_project.Session.Sound.{Keeps, Keeps-trans, Keeps-of_same, IfSome}
use modbus_ssa_project.Session.Sound.Lookups.{
  looked-Keeps, put_device-Keeps, device-IsServed, Looked, locate-Looked, put_located-Keeps,
  locate_device-Keeps,
}

bind-IfSome {ℓ κ ι} :
    {A : Type ℓ} {B : Type κ} (P : B → Type ι) (o : Option A) (k : A → Option B)
    → ((a : A) → o ≡ some a → IfSome P (k a))
    → IfSome P (o >>= k)
bind-IfSome P none k h = tt
bind-IfSome P (some a) k h = h a refl

IfSome-of {ℓ κ} :
    {A : Type ℓ} (P : A → Type κ) (o : Option A) (a : A) → o ≡ some a → IfSome P o → P a
IfSome-of P o a e h = subst (IfSome P) e h

parse_co-Keeps : (ends_equal : Bool) (cs : Session) → IfSome (Keeps cs) (parse_co ends_equal cs)
unfolding parse_co
parse_co-Keeps ends_equal cs = bind-IfSome (Keeps cs) (locate 0 cs) _ (λ l e.
    bind-IfSome (Keeps cs) (collect cs.buffer 0 (byte cs.buffer 2) 0) _ (λ sum f.
      bind-IfSome (Keeps cs)
        (coil_bits ends_equal (l.points).co sum l.cn 0 (pos_part l.count) (record {
          num = (l.device).co_num;
          maps = record { mp = (l.device).co; tm = (l.device).template_msg };
        }))
        (λ c. some (
          put_device l.sid
            (record (l.device) { co_num = c.num; co = (c.maps).mp; template_msg = (c.maps).tm })
            l.cs))
        (λ c g.
          put_located-Keeps cs l
            (record (l.device) { co_num = c.num; co = (c.maps).mp; template_msg = (c.maps).tm })
            refl refl (IfSome-of (Looked cs) (locate 0 cs) l e (locate-Looked 0 cs)))))

parse_di-Keeps : (ends_equal : Bool) (cs : Session) → IfSome (Keeps cs) (parse_di ends_equal cs)
unfolding parse_di
parse_di-Keeps ends_equal cs = bind-IfSome (Keeps cs) (locate 1 cs) _ (λ l e.
    bind-IfSome (Keeps cs) (collect cs.buffer 0 (byte cs.buffer 2) 0) _ (λ sum f.
      bind-IfSome (Keeps cs)
        (coil_bits ends_equal (l.points).di sum l.cn 0 (pos_part l.count) (record {
          num = (l.device).di_num;
          maps = record { mp = (l.device).di; tm = (l.device).template_msg };
        }))
        (λ c. some (
          put_device l.sid
            (record (l.device) { di_num = c.num; di = (c.maps).mp; template_msg = (c.maps).tm })
            l.cs))
        (λ c g.
          put_located-Keeps cs l
            (record (l.device) { di_num = c.num; di = (c.maps).mp; template_msg = (c.maps).tm })
            refl refl (IfSome-of (Looked cs) (locate 1 cs) l e (locate-Looked 1 cs)))))

parse_hr-Keeps :
    (fl : Floats) (ends_equal : Bool) (cs : Session) → IfSome (Keeps cs) (parse_hr fl ends_equal cs)
unfolding parse_hr
parse_hr-Keeps fl ends_equal cs =
    let l = locate_device cs in
    bind-IfSome (Keeps cs)
      (register_words fl ends_equal 32 cs.buffer (l.2).hr (atoi cs.current_num) 0
        (byte cs.buffer 2 / 2)
        (record {
          p = 3;
          num = (l.1).hr_num;
          maps = record { mp = (l.1).hr; tm = (l.1).template_msg };
          forward = (l.1).forward_msg;
        }))
      (λ r. some (
        put_device l.0
          (record (l.1) {
            hr_num = r.num;
            hr = (r.maps).mp;
            template_msg = (r.maps).tm;
            forward_msg = r.forward;
          })
          l.3))
      (λ r e.
        locate_device-Keeps cs
          (record (l.1) {
            hr_num = r.num;
            hr = (r.maps).mp;
            template_msg = (r.maps).tm;
            forward_msg = r.forward;
          })
          refl refl)

parse_ir-Keeps :
    (fl : Floats) (ends_equal : Bool) (cs : Session) → IfSome (Keeps cs) (parse_ir fl ends_equal cs)
unfolding parse_ir
parse_ir-Keeps fl ends_equal cs =
    let l = locate_device cs in
    bind-IfSome (Keeps cs)
      (register_words fl ends_equal 16 cs.buffer (l.2).ir (atoi cs.current_num) 0
        (byte cs.buffer 2 / 2)
        (record {
          p = 3;
          num = (l.1).ir_num;
          maps = record { mp = (l.1).ir; tm = (l.1).template_msg };
          forward = (l.1).forward_msg;
        }))
      (λ r. some (
        put_device l.0
          (record (l.1) {
            ir_num = r.num;
            ir = (r.maps).mp;
            template_msg = (r.maps).tm;
            forward_msg = r.forward;
          })
          l.3))
      (λ r e.
        locate_device-Keeps cs
          (record (l.1) {
            ir_num = r.num;
            ir = (r.maps).mp;
            template_msg = (r.maps).tm;
            forward_msg = r.forward;
          })
          refl refl)

-- The same of a result with a code.
pub CodeKeeps : Session → ℤ × Session → Type 0
CodeKeeps cs r = Keeps cs r.1

read-Keeps :
    (cs : Session) (o : Option Session)
    → IfSome (Keeps cs) o
    → IfSome (CodeKeeps cs) (o >>= λ cs'. some (pos 0, cs'))
unfolding CodeKeeps
read-Keeps cs none h = tt
read-Keeps cs (some cs') h = h

-- A response keeps the session sound.
pub parse_msg-Keeps :
    (fl : Floats) (ends_equal : Bool) (cs : Session)
    → IfSome (CodeKeeps cs) (parse_msg fl ends_equal cs)
unfolding parse_msg CodeKeeps
parse_msg-Keeps fl ends_equal cs =
    if-intro (IfSome (CodeKeeps cs)) cs.tcp_flag _ _ (Keeps-of_same cs cs refl refl) (
      if-intro (IfSome (CodeKeeps cs)) (byte cs.buffer 1 == 0x01) _ _
        (read-Keeps cs (parse_co ends_equal cs) (parse_co-Keeps ends_equal cs))
        (if-intro (IfSome (CodeKeeps cs)) (byte cs.buffer 1 == 0x02) _ _
          (read-Keeps cs (parse_di ends_equal cs) (parse_di-Keeps ends_equal cs))
          (if-intro (IfSome (CodeKeeps cs)) (byte cs.buffer 1 == 0x03) _ _
            (read-Keeps cs (parse_hr fl ends_equal cs) (parse_hr-Keeps fl ends_equal cs))
            (if-intro (IfSome (CodeKeeps cs)) (byte cs.buffer 1 == 0x04) _ _
              (read-Keeps cs (parse_ir fl ends_equal cs) (parse_ir-Keeps fl ends_equal cs))
              (Keeps-of_same cs cs refl refl)))))

module _ (pf : Platform) where
  open pf use {World}

  -- What a handler of the platform's answers leaves.
  unfoldable pub ResultKeeps : Session → Session × World → Type 0
  ResultKeeps cs r = Keeps cs r.0

  -- An upload keeps it too.
  send_msg-Keeps : (sid : Text) (cs : Session) (w : World) → Keeps cs (send_msg pf sid cs w).1
  send_msg-Keeps sid cs w = elim (Bool-cases (is_complete mbd t)) [
    | inl e ↦
        Keeps-trans cs cleared sent kept (Keeps-of_same cleared sent types (devices ∙ rw e refl))
    | inr e ↦
        Keeps-trans cs looked sent (looked-Keeps sid mbd.type cs)
          (Keeps-of_same looked sent types (devices ∙ rw e refl))
  ]
    where
      mbd : MbDevices
      mbd = get new_mbdevices sid (modify new_mbdevices sid (λ d. d) cs.mbdevices)

      t : MbTypes
      t = get new_mbtypes mbd.type (modify new_mbtypes mbd.type (λ t. t) (cs.mbtypes).types)

      looked : Session
      looked = record cs {
        mbdevices = modify new_mbdevices sid (λ d. d) cs.mbdevices;
        mbtypes = record (cs.mbtypes) {
          types = modify new_mbtypes mbd.type (λ t. t) (cs.mbtypes).types;
        };
      }

      cleared : Session
      cleared = record looked { mbdevices = assign sid (emptied mbd) looked.mbdevices }

      sent : Session
      sent = (send_msg pf sid cs w).1

      types : sent.mbtypes ≡ looked.mbtypes
      types = unfold send_msg in ground arith

      devices : sent.mbdevices ≡ (if is_complete mbd t then cleared.mbdevices else looked.mbdevices)
      devices = unfold send_msg in ground arith

      kept : Keeps cs cleared
      kept s =
          unfold emptied put_device in
          let there = looked-Keeps sid mbd.type cs s in
          put_device-Keeps sid (emptied mbd) looked (device-IsServed sid cs s) there.0

  -- And so does the whole of process.
  pub process-Keeps :
      (fl : Floats) (ends_equal : Bool) (cs : Session) (w : World)
      → IfSome (ResultKeeps cs) (process pf fl ends_equal cs w)
  unfolding process CodeKeeps ResultKeeps
  process-Keeps fl ends_equal cs w =
      next (parse_msg fl ends_equal cs) (parse_msg-Keeps fl ends_equal cs)
    where
      posted : World
      posted = (pf.post (text "107," ++ cs.sid) w).1

      next :
          (o : Option (ℤ × Session))
          → IfSome (CodeKeeps cs) o
          → IfSome (ResultKeeps cs) (elim o [
            | none ↦ none
            | some (ret, cs') ↦
                let sent = send_msg pf cs'.current_sid cs' posted in
                some (record (sent.1) { locked = false; count = 0 }, sent.2)
          ])
      next none h = tt
      next (some (ret, cs')) h =
          let sent = send_msg pf cs'.current_sid cs' posted in
          Keeps-trans cs cs' (record (sent.1) { locked = false; count = 0 }) h
            (Keeps-trans cs' sent.1 (record (sent.1) { locked = false; count = 0 })
              (send_msg-Keeps cs'.current_sid cs' posted) (Keeps-of_same sent.1 _ refl refl))
