-- ===== src/Session/Polling/Registering.antt =====
-- The registration of a device (onReadReg and regDev of src/client_session.cpp, with the child devices
-- of src/c8y.cpp) sends no request, and leaves the mutex as it is.
use mathlib.Core.Path.{subst}
use modbus_ssa_project.Prelude.{
  ℕ, zero, suc, ◌+◌, Bool, true, false, not, List, ◌++◌, Option, none, some, ◌≡◌, refl, ap, ◌∙◌,
  if-intro, arith,
}
use modbus_ssa_project.Prelude.Int.{ℤ, pos, negsuc}
use modbus_ssa_project.Prelude.Text.{Text, text}
use modbus_ssa_project.Prelude.Map.{text_key}
use modbus_ssa_project.Model.{Floats}
use modbus_ssa_project.Model.Dispatch.{Handled, handled, bad_call, undefined}
use modbus_ssa_project.Model.WellFormed.{Yields}
use modbus_ssa_project.Platform.{Platform}
use modbus_ssa_project.Frame.{RegCheck, check_reg}
use modbus_ssa_project.C8y.Load.{get_child_devices}
use modbus_ssa_project.C8y.Load.Mutex.{SameLock, get_child_devices-SameLock}
use modbus_ssa_project.Session.Record.{Session}
use modbus_ssa_project.Session.Machine.{
  reads_reg, Machine, act, on_cs, read_reg, read, reset_buffer, replaced, look_up, finish,
}
use modbus_ssa_project.Session.Registration.{reg_dev, registered, on_read_reg}
use modbus_ssa_project.Session.Polling.Lock.{sent, quiet, Pays}
use modbus_ssa_project.Session.Polling.Handlers.{
  look_up-actions, look_up-cs, read-sent, finish-Pays,
}
use modbus_ssa_project.Session.Sound.{IfSome}

-- No request, and the mutex as it was.
abbrev Quiet : Machine → Machine → Type 0
Quiet m n = (sent n.actions ≡ sent m.actions) × SameLock m.cs n.cs

finish-Quiet-Pays : (m n : Machine) → Quiet m n → Pays 0 m (finish n)
finish-Quiet-Pays m n h = finish-Pays m n h.0 h.1

look_up-Quiet : (m : Machine) → Quiet m (look_up m)
look_up-Quiet m = (ap sent (look_up-actions m), ap (λ c. c.locked) (look_up-cs m))

read-Quiet : (len : ℕ) (m : Machine) → Quiet m (read len m)
unfolding read act
read-Quiet len m = (read-sent len m, ground arith)

read_reg-Quiet : (len : ℕ) (m : Machine) → Quiet m (read_reg len m)
unfolding read_reg act sent
read_reg-Quiet len m = (quiet m (reads_reg len) refl, refl)

module _ (pf : Platform) (fl : Floats) where
  open pf use {World}

  QuietMachine : Machine → Machine × World → Type 0
  QuietMachine m r = Quiet m r.0

  PaysMachine : Machine → Machine × World → Type 0
  PaysMachine m r = Pays 0 m r.0

  reg_dev-Quiet : (m : Machine) (w : World) → Quiet m (reg_dev pf fl m w).1
  unfolding reg_dev on_cs
  reg_dev-Quiet m w = ground arith

  registered-Quiet : (m : Machine) (w : World) → IfSome (QuietMachine m) (registered pf fl m w)
  unfolding registered reset_buffer on_cs QuietMachine
  registered-Quiet m w =
      if-intro (IfSome (QuietMachine m)) (reg_dev pf fl m w).0 _ _
        (loaded (get_child_devices pf fl (m₁.cs).sid m₁.cs posted)
          (get_child_devices-SameLock pf fl (m₁.cs).sid m₁.cs posted))
        (reg_dev-Quiet m w)
    where
      m₁ : Machine
      m₁ = (reg_dev pf fl m w).1

      posted : World
      posted = (pf.post (text "107," ++ (m₁.cs).sid) (reg_dev pf fl m w).2).1

      loaded :
          (x : Handled Session × World)
          → Yields (SameLock m₁.cs) x.0
          → IfSome (QuietMachine m) (elim x.0 as (λ _. Option (Machine × World)) [
            | handled cs ↦ some (read 3 (reset_buffer (record m₁ { cs = cs })), x.1)
            | bad_call cs ↦ some (record m₁ { cs = cs }, x.1)
            | undefined ↦ none
          ])
      loaded (handled cs, w') h =
          let n = reset_buffer (record m₁ { cs = cs }) in
          (
            (read-Quiet 3 n).0 ∙ (reg_dev-Quiet m w).0,
            (read-Quiet 3 n).1 ∙ (h ∙ (reg_dev-Quiet m w).1),
          )
      loaded (bad_call cs, w') h = ((reg_dev-Quiet m w).0, h ∙ (reg_dev-Quiet m w).1)
      loaded (undefined, w') h = tt

  on_read_reg-Pays :
      (error has_http : Bool) (buffer : List ℕ) (bytes : ℕ) (m : Machine) (w : World)
      → IfSome (PaysMachine m) (on_read_reg pf fl error has_http buffer bytes m w)
  unfolding on_read_reg on_cs PaysMachine QuietMachine
  on_read_reg-Pays error has_http buffer bytes m w =
      if-intro (IfSome (PaysMachine m)) error _ _ (finish-Quiet-Pays m (closing m₁) (refl, refl)) (
        if-intro (IfSome (PaysMachine m)) (replaced m₁) _ _
          (finish-Quiet-Pays m (closing (look_up m₁)) (look_up-Quiet m₁))
          (if-intro (IfSome (PaysMachine m)) (not has_http) _ _
            (finish-Quiet-Pays m (look_up m₁) (look_up-Quiet m₁)) (checked check.result)))
    where
      closing : Machine → Machine
      closing = on_cs (λ c. record c { is_close = true })

      m₁ : Machine
      m₁ = on_cs (λ c. record c { is_close = false; rece_heart_beat = true; buffer = buffer }) m

      m₂ : Machine
      m₂ = on_cs (λ c. record c { len = c.len + bytes }) (look_up m₁)

      check : RegCheck
      check = check_reg (m₂.cs).buffer (m₂.cs).len

      identified : Option Text → Machine
      identified o = elim o as (λ _. Machine) [
        | none ↦ m₂
        | some did ↦ on_cs (λ c. record c { did = did }) m₂
      ]

      identified-Quiet : (o : Option Text) → Quiet m (identified o)
      identified-Quiet none = look_up-Quiet m₁
      identified-Quiet (some did) = look_up-Quiet m₁

      after : Option (Machine × World) → Option (Machine × World)
      after o = elim o [ none ↦ none | some (m₃, w₃) ↦ some (finish m₃, w₃) ]

      done :
          (n : Machine) (o : Option (Machine × World))
          → Quiet m n
          → IfSome (QuietMachine n) o
          → IfSome (PaysMachine m) (after o)
      done n none h k = tt
      done n (some (m₃, w₃)) h k = finish-Quiet-Pays m m₃ (k.0 ∙ h.0, k.1 ∙ h.1)

      checked :
          (r : ℤ)
          → IfSome (PaysMachine m) (elim r as (λ _. Option (Machine × World)) [
            | pos zero ↦ after (registered pf fl (identified check.did) w)
            | pos (suc more) ↦ some (finish (read_reg (suc more) m₂), w)
            | negsuc n ↦ some (finish (closing m₂), w)
          ])
      checked (pos zero) =
          done (identified check.did) (registered pf fl (identified check.did) w)
            (identified-Quiet check.did) (registered-Quiet (identified check.did) w)
      checked (pos (suc more)) = finish-Quiet-Pays m (read_reg (suc more) m₂) (
        (read_reg-Quiet (suc more) m₂).0 ∙ (look_up-Quiet m₁).0,
        (read_reg-Quiet (suc more) m₂).1 ∙ (look_up-Quiet m₁).1,
      )
      checked (negsuc n) = finish-Quiet-Pays m (closing m₂) (look_up-Quiet m₁)

  pub on_read_reg-some-Pays :
      (error has_http : Bool) (buffer : List ℕ) (bytes : ℕ) (m n : Machine) (w w' : World)
      → on_read_reg pf fl error has_http buffer bytes m w ≡ some (n, w')
      → Pays 0 m n
  unfolding PaysMachine
  on_read_reg-some-Pays error has_http buffer bytes m n w w' e =
      subst (IfSome (PaysMachine m)) e (on_read_reg-Pays error has_http buffer bytes m w)
