-- ===== src/Session/Sound/Handlers.antt =====
-- The handlers of a registered session (src/client_session.cpp) keep it sound.
use mathlib.Core.Path.{subst}
use modbus_ssa_project.Prelude.{
  ℕ, suc, ◌+◌, Bool, true, false, List, Option, none, some, ◌≡◌, refl, ◌∙◌, if-intro, Bool-cases,
  inl, inr, arith,
}
use modbus_ssa_project.Frame.{Check, check_msg}
use modbus_ssa_project.Model.{Floats}
use modbus_ssa_project.Platform.{Platform}
use modbus_ssa_project.Session.Record.{Session}
use modbus_ssa_project.Session.Machine.{
  Machine, act, on_cs, read, reset_buffer, to_close, finish, look_up, replaced, close,
  check_deadline, check_slave_deadline, on_write,
}
use modbus_ssa_project.Session.Reading.{process, on_read}
use modbus_ssa_project.Session.Polling.Handlers.{result_cases}
use modbus_ssa_project.Session.Sound.{Keeps, Keeps-trans, Keeps-of_same, IfSome}
use modbus_ssa_project.Session.Sound.Responses.{ResultKeeps, process-Keeps}

-- The tables of two sessions are the same.
abbrev pub Same : Session → Session → Type 0
Same a b = (b.mbtypes ≡ a.mbtypes) × (b.mbdevices ≡ a.mbdevices)

pub Same-Keeps : (a b : Session) → Same a b → Keeps a b
Same-Keeps a b h = Keeps-of_same a b h.0 h.1

pub Same-trans : (a b c : Session) → Same a b → Same b c → Same a c
Same-trans a b c h k = (k.0 ∙ h.0, k.1 ∙ h.1)

to_close-Same : (m : Machine) → Same m.cs (to_close m).cs
unfolding to_close act on_cs
to_close-Same m = ground arith

pub finish-Same : (m : Machine) → Same m.cs (finish m).cs
unfolding finish
finish-Same m = ground (arith, to_close-Same m)

pub look_up-Same : (m : Machine) → Same m.cs (look_up m).cs
unfolding look_up
look_up-Same m = ground arith

pub read-Same : (len : ℕ) (m : Machine) → Same m.cs (read len m).cs
unfolding read act
read-Same len m = ground arith

pub close-Keeps : (cancelled : Bool) (m : Machine) → Keeps m.cs (close cancelled m).cs
close-Keeps cancelled m = Same-Keeps m.cs (close cancelled m).cs same
  where
    same : Same m.cs (close cancelled m).cs
    same = unfold close act on_cs in ground arith

pub check_deadline-Keeps : (error : Bool) (m : Machine) → Keeps m.cs (check_deadline error m).cs
check_deadline-Keeps error m = Same-Keeps m.cs (check_deadline error m).cs same
  where
    same : Same m.cs (check_deadline error m).cs
    same = unfold check_deadline act on_cs in ground (arith, to_close-Same m)

pub check_slave_deadline-Keeps :
    (error : Bool) (m : Machine) → Keeps m.cs (check_slave_deadline error m).cs
check_slave_deadline-Keeps error m = Same-Keeps m.cs (check_slave_deadline error m).cs same
  where
    same : Same m.cs (check_slave_deadline error m).cs
    same = unfold check_slave_deadline on_cs in ground arith

pub on_write-Keeps : (error : Bool) (m : Machine) → Keeps m.cs (on_write error m).cs
on_write-Keeps error m = Same-Keeps m.cs (on_write error m).cs same
  where
    m₁ : Machine
    m₁ = unfold on_cs in on_cs (λ c. record c { is_close = false }) m

    closing : Machine → Machine
    closing n = on_cs (λ c. record c { is_close = true }) n

    same : Same m.cs (on_write error m).cs
    same =
        unfold on_write on_cs in
        ground (
          arith,
          look_up-Same m₁,
          finish-Same (closing m₁),
          finish-Same (closing (look_up m₁)),
          finish-Same (look_up m₁),
        )

module _ (pf : Platform) (fl : Floats) (ends_equal : Bool) where
  open pf use {World}

  ReadKeeps : Machine → Machine × World → Type 0
  ReadKeeps m r = Keeps m.cs (r.0).cs

  finished :
      (m n : Machine) (w : World) → Same m.cs n.cs → IfSome (ReadKeeps m) (some (finish n, w))
  unfolding ReadKeeps
  finished m n w h =
      Keeps-trans m.cs n.cs (finish n).cs (Same-Keeps m.cs n.cs h)
        (Same-Keeps n.cs (finish n).cs (finish-Same n))

  on_read-Keeps :
      (error has_http : Bool) (buffer : List ℕ) (bytes : ℕ) (m : Machine) (w : World)
      → IfSome (ReadKeeps m) (on_read pf fl ends_equal error has_http buffer bytes m w)
  unfolding on_read on_cs reset_buffer
  on_read-Keeps true has_http buffer bytes m w =
      finished m
        (on_cs (λ c. record c { is_close = true })
          (on_cs (λ c. record c { is_close = false; rece_heart_beat = true; buffer = buffer }) m))
        w (refl, refl)
  on_read-Keeps false false buffer bytes m w =
      if-intro (IfSome (ReadKeeps m)) (replaced m₁) _ _
        (finished m (on_cs (λ c. record c { is_close = true }) (look_up m₁)) w (look_up-Same m₁))
        (finished m (look_up m₁) w (look_up-Same m₁))
    where
      m₁ : Machine
      m₁ = on_cs (λ c. record c { is_close = false; rece_heart_beat = true; buffer = buffer }) m
  on_read-Keeps false true buffer bytes m w = elim (Bool-cases (replaced m₁)) [
    | inl e ↦
        rw e
          (finished m (on_cs (λ c. record c { is_close = true }) (look_up m₁)) w (look_up-Same m₁))
    | inr e ↦ rw e (elim (result_cases check.result) [
      | inl (inl c) ↦
          rw c
            (processed (process pf fl ends_equal m₃.cs w) (process-Keeps pf fl ends_equal m₃.cs w))
      | inl (inr (more, c)) ↦ rw c (
          finished m (read (suc more) m₃) w (
            Same-trans m.cs m₃.cs (read (suc more) m₃).cs (look_up-Same m₁)
              (read-Same (suc more) m₃)))
      | inr (inl c) ↦ rw c (
          finished m (read 3 (reset_buffer m₃)) _ (
            Same-trans m.cs m₃.cs (read 3 (reset_buffer m₃)).cs (look_up-Same m₁)
              (read-Same 3 (reset_buffer m₃))))
      | inr (inr (n, c)) ↦
          rw c (finished m (on_cs (λ c. record c { is_close = true }) m₃) w (look_up-Same m₁))
    ])
  ]
    where
      m₁ : Machine
      m₁ = on_cs (λ c. record c { is_close = false; rece_heart_beat = true; buffer = buffer }) m

      m₂ : Machine
      m₂ = on_cs (λ c. record c { len = c.len + bytes }) (look_up m₁)

      check : Check
      check = check_msg (m₂.cs).buffer (m₂.cs).len (m₂.cs).tcp_flag

      m₃ : Machine
      m₃ = on_cs (λ c. record c { tcp_flag = check.tcp_flag }) m₂

      processed :
          (o : Option (Session × World))
          → IfSome (ResultKeeps pf m₃.cs) o
          → IfSome (ReadKeeps m) (elim o [
            | none ↦ none
            | some (cs, w') ↦ some (finish (read 3 (reset_buffer (record m₃ { cs = cs }))), w')
          ])
      processed none h = tt
      processed (some (cs, w')) h =
          let n = read 3 (reset_buffer (record m₃ { cs = cs })) in
          unfold ReadKeeps ResultKeeps in
          Keeps-trans m.cs m₃.cs (finish n).cs (Same-Keeps m.cs m₃.cs (look_up-Same m₁)) (
            Keeps-trans m₃.cs cs (finish n).cs h (
              Same-Keeps cs (finish n).cs (
                Same-trans cs n.cs (finish n).cs
                  (read-Same 3 (reset_buffer (record m₃ { cs = cs }))) (finish-Same n))))

  pub on_read-some-Keeps :
      (error has_http : Bool) (buffer : List ℕ) (bytes : ℕ) (m n : Machine) (w w' : World)
      → on_read pf fl ends_equal error has_http buffer bytes m w ≡ some (n, w')
      → Keeps m.cs n.cs
  unfolding ReadKeeps
  on_read-some-Keeps error has_http buffer bytes m n w w' e =
      subst (IfSome (ReadKeeps m)) e (on_read-Keeps error has_http buffer bytes m w)
