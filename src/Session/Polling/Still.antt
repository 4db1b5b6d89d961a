-- ===== src/Session/Polling/Still.antt =====
-- The handlers of a session (src/client_session.cpp) that leave its mutex, its slave's flag and its
-- requests as they are: the ends of writes, the timers, once the slave's time has run out, and
-- whatever is received but a complete message.
use mathlib.Core.Path.{subst}
use modbus_ssa_project.Prelude.{
  ℕ, suc, ◌+◌, Bool, true, false, not, List, some, ◌≡◌, ◌≢◌, refl, sym, ap, ◌∙◌, if-intro, inl, inr,
  arith,
}
use modbus_ssa_project.Prelude.Int.{pos}
use modbus_ssa_project.Frame.{Check, check_msg}
use modbus_ssa_project.Model.{Floats}
use modbus_ssa_project.Platform.{Platform}
use modbus_ssa_project.Session.Machine.{
  runs_close, sets_timer, reads, Machine, act, on_cs, read, reset_buffer, to_close, finish, look_up,
  replaced, check_deadline, check_slave_deadline, on_write,
}
use modbus_ssa_project.Session.Reading.{on_read}
use modbus_ssa_project.Session.Polling.Lock.{sent, quiet}
use modbus_ssa_project.Session.Polling.Handlers.{look_up-actions, look_up-cs, result_cases}
use modbus_ssa_project.Session.Sound.{IfSome}

-- The mutex, the slave's flag and the requests are as they were.
abbrev pub Still : Machine → Machine → Type 0
Still m n =
    ((n.cs).locked ≡ (m.cs).locked)
    × ((n.cs).flag ≡ (m.cs).flag)
    × (sent n.actions ≡ sent m.actions)

pub Still-trans : (m n o : Machine) → Still m n → Still n o → Still m o
Still-trans m n o h k = (k.0 ∙ h.0, k.1 ∙ h.1, k.2 ∙ h.2)

finish-Still : (m n : Machine) → Still m n → Still m (finish n)
unfolding finish to_close act on_cs sent
finish-Still m n h = ground (arith, quiet n runs_close refl)

look_up-Still : (m : Machine) → Still m (look_up m)
look_up-Still m = (
  ap (λ c. c.locked) (look_up-cs m),
  ap (λ c. c.flag) (look_up-cs m),
  ap sent (look_up-actions m),
)

read-Still : (len : ℕ) (m : Machine) → Still m (read len m)
unfolding read act sent
read-Still len m = ground (arith, quiet m (reads len) refl)

pub check_deadline-Still : (error : Bool) (m : Machine) → Still m (check_deadline error m)
unfolding check_deadline to_close act on_cs sent
check_deadline-Still error m = ground (arith, quiet m sets_timer refl, quiet m runs_close refl)

-- The slave's time runs out again.
pub check_slave_deadline-Still :
    (error : Bool) (m : Machine) → (m.cs).flag ≡ 1 → Still m (check_slave_deadline error m)
unfolding check_slave_deadline on_cs
check_slave_deadline-Still error m over = ground arith

closing : Machine → Machine
closing = on_cs (λ c. record c { is_close = true })

pub on_write-Still : (error : Bool) (m : Machine) → Still m (on_write error m)
unfolding on_write on_cs closing
on_write-Still error m = if-intro (Still m) error _ _ (finish-Still m (closing m₁) same) (
    if-intro (Still m) (replaced m₁) _ _ (finish-Still m (closing (look_up m₁)) looked_up)
      (finish-Still m (look_up m₁) looked_up))
  where
    m₁ : Machine
    m₁ = on_cs (λ c. record c { is_close = false }) m

    same : Still m m₁
    same = (refl, refl, refl)

    looked_up : Still m (look_up m₁)
    looked_up = Still-trans m m₁ (look_up m₁) same (look_up-Still m₁)

module _ (pf : Platform) (fl : Floats) (ends_equal : Bool) where
  open pf use {World}

  StillMachine : Machine → Machine × World → Type 0
  StillMachine m r = Still m r.0

  -- Anything but a complete message.
  on_read-Still :
      (error has_http : Bool) (buffer : List ℕ) (bytes : ℕ) (m : Machine) (w : World)
      → (check_msg buffer ((m.cs).len + bytes) (m.cs).tcp_flag).result ≢ pos 0
      → IfSome (StillMachine m) (on_read pf fl ends_equal error has_http buffer bytes m w)
  unfolding on_read on_cs reset_buffer StillMachine closing
  on_read-Still error has_http buffer bytes m w incomplete =
      if-intro (IfSome (StillMachine m)) error _ _ (finish-Still m (closing m₁) (refl, refl, refl))
        (if-intro (IfSome (StillMachine m)) (replaced m₁) _ _
          (finish-Still m (closing (look_up m₁)) (look_up-Still m₁))
          (if-intro (IfSome (StillMachine m)) (not has_http) _ _
            (finish-Still m (look_up m₁) (look_up-Still m₁))
            (elim (result_cases check.result) [
              | inl (inl c) ↦ absurd (incomplete (ap (λ k. k.result) (sym check-same) ∙ c))
              | inl (inr (more, c)) ↦ rw c (
                  finish-Still m (read (suc more) m₃) (
                    Still-trans m m₃ (read (suc more) m₃) (look_up-Still m₁)
                      (read-Still (suc more) m₃)))
              | inr (inl c) ↦ rw c (
                  finish-Still m (read 3 (reset_buffer m₃)) (
                    Still-trans m m₃ (read 3 (reset_buffer m₃)) (look_up-Still m₁)
                      (read-Still 3 (reset_buffer m₃))))
              | inr (inr (n, c)) ↦ rw c (finish-Still m (closing m₃) (look_up-Still m₁))
            ])))
    where
      m₁ : Machine
      m₁ = on_cs (λ c. record c { is_close = false; rece_heart_beat = true; buffer = buffer }) m

      m₂ : Machine
      m₂ = on_cs (λ c. record c { len = c.len + bytes }) (look_up m₁)

      check : Check
      check = check_msg (m₂.cs).buffer (m₂.cs).len (m₂.cs).tcp_flag

      check-same : check ≡ check_msg buffer ((m.cs).len + bytes) (m.cs).tcp_flag
      check-same = ap (λ c. check_msg c.buffer (c.len + bytes) c.tcp_flag) (look_up-cs m₁)

      m₃ : Machine
      m₃ = on_cs (λ c. record c { tcp_flag = check.tcp_flag }) m₂

  -- A read that has failed.
  on_read_failed-Still :
      (has_http : Bool) (buffer : List ℕ) (bytes : ℕ) (m : Machine) (w : World)
      → IfSome (StillMachine m) (on_read pf fl ends_equal true has_http buffer bytes m w)
  unfolding on_read on_cs StillMachine closing
  on_read_failed-Still has_http buffer bytes m w =
      finish-Still m
        (closing
          (on_cs (λ c. record c { is_close = false; rece_heart_beat = true; buffer = buffer }) m))
        (refl, refl, refl)

  pub on_read_failed-some-Still :
      (has_http : Bool) (buffer : List ℕ) (bytes : ℕ) (m n : Machine) (w w' : World)
      → on_read pf fl ends_equal true has_http buffer bytes m w ≡ some (n, w')
      → Still m n
  unfolding StillMachine
  on_read_failed-some-Still has_http buffer bytes m n w w' e =
      subst (IfSome (StillMachine m)) e (on_read_failed-Still has_http buffer bytes m w)

  pub on_read-some-Still :
      (error has_http : Bool) (buffer : List ℕ) (bytes : ℕ) (m n : Machine) (w w' : World)
      → (check_msg buffer ((m.cs).len + bytes) (m.cs).tcp_flag).result ≢ pos 0
      → on_read pf fl ends_equal error has_http buffer bytes m w ≡ some (n, w')
      → Still m n
  unfolding StillMachine
  on_read-some-Still error has_http buffer bytes m n w w' part e =
      subst (IfSome (StillMachine m)) e (on_read-Still error has_http buffer bytes m w part)
