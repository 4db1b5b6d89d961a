-- ===== src/Session/Sound/Registered.antt =====
-- The registration of a device (src/client_session.cpp) leaves its session sound, with its types.
use mathlib.Core.Path.{subst}
use modbus_ssa_project.Prelude.{
  ℕ, zero, suc, ◌+◌, Bool, true, false, not, List, ◌++◌, Option, none, some, ◌≡◌, refl, if-intro,
  arith,
}
use modbus_ssa_project.Prelude.Int.{ℤ, pos, negsuc}
use modbus_ssa_project.Prelude.Text.{Text, text}
use modbus_ssa_project.Model.{Floats}
use modbus_ssa_project.Model.Dispatch.{Handled, handled, bad_call, undefined}
use modbus_ssa_project.Model.WellFormed.{Yields}
use modbus_ssa_project.Platform.{Platform}
use modbus_ssa_project.C8y.Load.{get_child_devices}
use modbus_ssa_project.Session.Record.{Session}
use modbus_ssa_project.Frame.{RegCheck, check_reg}
use modbus_ssa_project.Session.Machine.{
  Machine, act, on_cs, read_reg, read, reset_buffer, replaced, look_up, finish,
}
use modbus_ssa_project.Session.Registration.{reg_dev, registered, on_read_reg}
use modbus_ssa_project.Session.Sound.Handlers.{
  Same, Same-Keeps, Same-trans, finish-Same, look_up-Same, read-Same,
}
use modbus_ssa_project.Session.Sound.{IsSound, IfSome, Kept, Kept-trans, Keeps}
use modbus_ssa_project.Session.Sound.Loading.{get_child_devices-Kept}

read_reg-Same : (len : ℕ) (m : Machine) → Same m.cs (read_reg len m).cs
unfolding read_reg act
read_reg-Same len m = (refl, refl)

module _ (pf : Platform) (fl : Floats) where
  open pf use {World}

  KeptMachine : Session → Machine × World → Type 0
  KeptMachine cs r = Kept cs (r.0).cs

  Same-tables :
      (cs : Session) (m n : Machine) (w : World)
      → Same m.cs n.cs
      → Kept cs m.cs
      → KeptMachine cs (n, w)
  unfolding KeptMachine
  Same-tables cs m n w e h = Kept-trans cs m.cs n.cs h (Same-Keeps m.cs n.cs e h.0)

  reg_dev-Same : (m : Machine) (w : World) → Same m.cs ((reg_dev pf fl m w).1).cs
  unfolding reg_dev on_cs
  reg_dev-Same m w = ground arith

  registered-Kept :
      (cs : Session) (m : Machine) (w : World)
      → Kept cs m.cs
      → IfSome (KeptMachine cs) (registered pf fl m w)
  unfolding registered read reset_buffer on_cs
  registered-Kept cs₀ m w h =
      if-intro (IfSome (KeptMachine cs₀)) known _ _
        (loaded (get_child_devices pf fl (m₁.cs).sid m₁.cs posted)
          (get_child_devices-Kept pf fl (m₁.cs).sid m₁.cs posted named.0))
        (Same-tables cs₀ m₁ (on_cs (λ c. record c { is_close = true }) m₁) w₁ (refl, refl) named)
    where
      known : Bool
      known = (reg_dev pf fl m w).0

      m₁ : Machine
      m₁ = (reg_dev pf fl m w).1

      w₁ : World
      w₁ = (reg_dev pf fl m w).2

      posted : World
      posted = (pf.post (text "107," ++ (m₁.cs).sid) w₁).1

      named : Kept cs₀ m₁.cs
      named = Kept-trans cs₀ m.cs m₁.cs h (Same-Keeps m.cs m₁.cs (reg_dev-Same m w) h.0)

      loaded :
          (x : Handled Session × World)
          → Yields (Kept m₁.cs) x.0
          → IfSome (KeptMachine cs₀) (elim x.0 as (λ _. Option (Machine × World)) [
            | handled cs ↦ some (read 3 (reset_buffer (record m₁ { cs = cs })), x.1)
            | bad_call cs ↦ some (record m₁ { cs = cs }, x.1)
            | undefined ↦ none
          ])
      loaded (handled cs, w') v =
          let n = reset_buffer (record m₁ { cs = cs }) in
          Same-tables cs₀ (record m₁ { cs = cs }) (read 3 n) w' (read-Same 3 n)
            (Kept-trans cs₀ m₁.cs cs named v)
      loaded (bad_call cs, w') v =
          Same-tables cs₀ (record m₁ { cs = cs }) (record m₁ { cs = cs }) w' (refl, refl)
            (Kept-trans cs₀ m₁.cs cs named v)
      loaded (undefined, w') v = tt

  finished :
      (m n : Machine) (w : World)
      → Same m.cs n.cs
      → IsSound m.cs
      → IfSome (KeptMachine m.cs) (some (finish n, w))
  finished m n w e h =
      Same-tables m.cs m (finish n) w (Same-trans m.cs n.cs (finish n).cs e (finish-Same n))
        (h, λ k known. known)

  -- A registration, complete or not, with the child devices and models that the platform names, leaves
  -- a sound session sound, with every type that it has had; also where a message throws.
  on_read_reg-Kept :
      (error has_http : Bool) (buffer : List ℕ) (bytes : ℕ) (m : Machine) (w : World)
      → IsSound m.cs
      → IfSome (KeptMachine m.cs) (on_read_reg pf fl error has_http buffer bytes m w)
  unfolding on_read_reg on_cs read_reg KeptMachine
  on_read_reg-Kept error has_http buffer bytes m w h =
      if-intro (IfSome (KeptMachine m.cs)) error _ _
        (finished m (on_cs (λ c. record c { is_close = true }) m₁) w (refl, refl) h)
        (if-intro (IfSome (KeptMachine m.cs)) (replaced m₁) _ _
          (finished m (on_cs (λ c. record c { is_close = true }) (look_up m₁)) w (look_up-Same m₁)
            h)
          (if-intro (IfSome (KeptMachine m.cs)) (not has_http) _ _
            (finished m (look_up m₁) w (look_up-Same m₁) h) (checked check.result)))
    where
      m₁ : Machine
      m₁ = on_cs (λ c. record c { is_close = false; rece_heart_beat = true; buffer = buffer }) m

      m₂ : Machine
      m₂ = on_cs (λ c. record c { len = c.len + bytes }) (look_up m₁)

      check : RegCheck
      check = check_reg (m₂.cs).buffer (m₂.cs).len

      identified : Machine
      identified = elim check.did [ none ↦ m₂ | some did ↦ on_cs (λ c. record c { did = did }) m₂ ]

      named :
          (o : Option Text)
          → Kept m.cs
              (elim o as (λ _. Machine) [
                | none ↦ m₂
                | some did ↦ on_cs (λ c. record c { did = did }) m₂
              ]).cs
      named none = Same-Keeps m.cs m₂.cs (look_up-Same m₁) h
      named (some did) =
          let n = on_cs (λ c. record c { did = did }) m₂ in Same-Keeps m.cs n.cs (look_up-Same m₁) h

      after : Option (Machine × World) → Option (Machine × World)
      after o = elim o [ none ↦ none | some (m₃, w₃) ↦ some (finish m₃, w₃) ]

      done :
          (o : Option (Machine × World))
          → IfSome (KeptMachine m.cs) o
          → IfSome (KeptMachine m.cs) (after o)
      done none v = tt
      done (some (m₃, w₃)) v = Same-tables m.cs m₃ (finish m₃) w₃ (finish-Same m₃) v

      checked :
          (r : ℤ)
          → IfSome (KeptMachine m.cs) (elim r as (λ _. Option (Machine × World)) [
            | pos zero ↦ after (registered pf fl identified w)
            | pos (suc more) ↦ some (finish (read_reg (suc more) m₂), w)
            | negsuc n ↦ some (finish (on_cs (λ c. record c { is_close = true }) m₂), w)
          ])
      checked (pos zero) =
          done (registered pf fl identified w) (registered-Kept m.cs identified w (named check.did))
      checked (pos (suc more)) =
          finished m (read_reg (suc more) m₂) w
            (Same-trans m.cs m₂.cs (read_reg (suc more) m₂).cs (look_up-Same m₁)
              (read_reg-Same (suc more) m₂))
            h
      checked (negsuc n) =
          finished m (on_cs (λ c. record c { is_close = true }) m₂) w (look_up-Same m₁) h

  pub on_read_reg-some-Keeps :
      (error has_http : Bool) (buffer : List ℕ) (bytes : ℕ) (m n : Machine) (w w' : World)
      → on_read_reg pf fl error has_http buffer bytes m w ≡ some (n, w')
      → Keeps m.cs n.cs
  unfolding KeptMachine
  on_read_reg-some-Keeps error has_http buffer bytes m n w w' e h =
      subst (IfSome (KeptMachine m.cs)) e (on_read_reg-Kept error has_http buffer bytes m w h)
