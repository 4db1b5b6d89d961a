-- ===== src/Session/Registration.antt =====
-- src/client_session.cpp: onReadReg and regDev, the registration of a device.
use modbus_ssa_project.Prelude.{
  ℕ, zero, suc, ◌+◌, ◌*◌, Bool, true, false, not, List, [], ◌∷◌, ◌++◌, Option, none, some,
  if◌then◌else◌,
}
use modbus_ssa_project.Prelude.Int.{ℤ, pos, negsuc}
use modbus_ssa_project.Prelude.Text.{text, empty, negate}
use modbus_ssa_project.Prelude.Map.{text_key, assign}
use modbus_ssa_project.Model.{Floats}
use modbus_ssa_project.Model.Dispatch.{handled, bad_call, undefined}
use modbus_ssa_project.Platform.{Platform}
use modbus_ssa_project.Frame.{check_reg}
use modbus_ssa_project.C8y.Query.{get_dev_info, get_properties, set_modbus_parms}
use modbus_ssa_project.C8y.Load.{get_child_devices}
use modbus_ssa_project.Session.Machine.{
  Machine, on_cs, read_reg, read, reset_buffer, replaced, look_up, finish,
}

-- `* 1000` of an int.
abbrev pub thousand : ℤ → ℤ
thousand (pos n) = pos (n * 1000)
thousand (negsuc n) = negate (suc n * 1000)

module _ (pf : Platform) (fl : Floats) where
  open pf use {World, post}

  -- regDev: whether the platform knows the device, the machine and the world.
  unfoldable pub reg_dev : Machine → World → Bool × Machine × World
  unfolding on_cs
  reg_dev m w =
      let did = (m.cs).did in
      let (sid, w₁) = get_dev_info pf did w in
      let named = on_cs (λ c. record c { sid = sid }) m in
      let (v, w₂) = get_properties pf sid w₁ in
      let set_up : Machine × World = elim v [
        | [] ↦ (named, set_modbus_parms pf sid w₂)
        | rate ∷ rest ↦ (
          on_cs (λ c. record c { polling_rate = rate; timer_interval = thousand rate }) named,
          w₂,
        )
      ] in
      let entered = record (set_up.0) {
        registry = record {
          did_to_cs = assign did m.this (m.registry).did_to_cs;
          sid_to_cs = assign sid m.this (m.registry).sid_to_cs;
        };
      } in
      let msg = text "134," ++ (sid ++ (text ",20,DTU," ++ (did ++ text ",v1.0"))) in
      if empty sid then (false, named, w₁) else (true, entered, (post msg set_up.1).1)

  -- What follows a complete registration package. An exception skips the rest.
  unfoldable pub registered : Machine → World → Option (Machine × World)
  unfolding reg_dev read reset_buffer on_cs
  registered m w =
      let (known, m₁, w₁) = reg_dev m w in
      let sid = (m₁.cs).sid in
      let posted = (post (text "107," ++ sid) w₁).1 in
      let (children, w₂) = get_child_devices pf fl sid m₁.cs posted in
      if known
      then elim children [
        | handled cs ↦ some (read 3 (reset_buffer (record m₁ { cs = cs })), w₂)
        | bad_call cs ↦ some (record m₁ { cs = cs }, w₂)
        | undefined ↦ none
      ]
      else some (on_cs (λ c. record c { is_close = true }) m₁, w₁)

  -- onReadReg, over the bytes that the buffer holds then. `has_http`: the thread has a connection
  -- to the platform.
  unfoldable pub on_read_reg : Bool → Bool → List ℕ → ℕ → Machine → World → Option (Machine × World)
  unfolding on_cs read_reg registered finish replaced look_up
  on_read_reg error has_http buffer bytes m w =
      let m₁ =
        on_cs (λ c. record c { is_close = false; rece_heart_beat = true; buffer = buffer }) m in
      let closing = on_cs (λ c. record c { is_close = true }) in
      let m₂ = on_cs (λ c. record c { len = c.len + bytes }) (look_up m₁) in
      let check = check_reg (m₂.cs).buffer (m₂.cs).len in
      if error
      then some (finish (closing m₁), w)
      else if replaced m₁
      then some (finish (closing (look_up m₁)), w)
      else if not has_http
      then some (finish (look_up m₁), w)
      else elim check.result [
        | pos zero ↦
            elim (registered
              (elim check.did [ none ↦ m₂ | some did ↦ on_cs (λ c. record c { did = did }) m₂ ])
              w) [ none ↦ none | some (m₃, w₃) ↦ some (finish m₃, w₃) ]
        | pos (suc more) ↦ some (finish (read_reg (suc more) m₂), w)
        | negsuc n ↦ some (finish (closing m₂), w)
      ]
