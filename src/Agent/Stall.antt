-- ===== src/Agent/Stall.antt =====
-- An operation of the platform whose request is not answered (setValue and operator() of
-- src/agent_msg_handler.cpp, with the mutex of src/client_session.cpp).
use mathlib.Core.Path.{subst}
use modbus_ssa_project.Prelude.{ℕ, Bool, true, ◌≡◌, refl, ap, ◌∙◌, ==_iff}
use modbus_ssa_project.Model.{SrRecord, Floats, MbDevices}
use modbus_ssa_project.Model.Dispatch.{handled}
use modbus_ssa_project.Model.WellFormed.{Yields}
use modbus_ssa_project.Platform.{Platform}
use modbus_ssa_project.Session.Machine.{Machine}
use modbus_ssa_project.Session.Polling.{ModbusLibrary, Place, blocked, poll_step}
use modbus_ssa_project.Session.Polling.Lock.{sent}
use modbus_ssa_project.Session.Polling.Stall.{IsWaiting, Waiting, Waiting-stalls}
use modbus_ssa_project.Agent.{Gateway, update_session, free, find_free, set_operation}
use modbus_ssa_project.Agent.Sound.{set_value-sessions}

module _ (mb : ModbusLibrary) (pf : Platform) (fl : Floats) (ends_equal : Bool) where
  open pf use {World}

  -- The session that the search finds, afterwards.
  set_operation-taken :
      (r : SrRecord) (g : Gateway) (w : World) (n : ℕ) (mbd : MbDevices)
      → (find_free pf fl mb (r.value 3) g.sessions g.did_to_cs).1 ≡ free n mbd
      → Yields
          (λ h. h.sessions n ≡ record (g.sessions n) { locked = true })
          (set_operation pf fl mb r g w).0
  unfolding set_operation
  set_operation-taken r g w n mbd e =
      rw
        (
          set_operation,
          e,
          set_value-sessions pf fl mb (g.sessions n).sid r mbd taken,
          (==_iff n n).1 refl,
        )
        refl
    where
      taken : Gateway
      taken = update_session n (λ c. record c { locked = true }) g

  -- An operation can stop the polling of a session: where the search finds the session, whose slave's
  -- time has run out, while its thread waits before a device or a request, the mutex that the
  -- operation takes stays held, and the thread neither moves nor sends, whatever write ends, timer or
  -- part of a message or heartbeat comes, until a complete message has been received or Close has run.
  pub set_operation-stalls :
      (r : SrRecord) (g h : Gateway) (w : World) (n : ℕ) (mbd : MbDevices) (p q : Place)
      (m o : Machine)
      → (find_free pf fl mb (r.value 3) g.sessions g.did_to_cs).1 ≡ free n mbd
      → (set_operation pf fl mb r g w).0 ≡ handled h
      → (g.sessions n).flag ≡ 1
      → IsWaiting p
      → m.cs ≡ h.sessions n
      → Waiting mb pf fl ends_equal p m q o
      → (q ≡ p)
        × (poll_step mb q o ≡ blocked)
        × ((o.cs).locked ≡ true)
        × (sent o.actions ≡ sent m.actions)
  set_operation-stalls r g h w n mbd p q m o e done over waiting same run =
      let stalled =
        Waiting-stalls mb pf fl ends_equal p q m o run waiting (ap (λ c. c.locked) found)
          (ap (λ c. c.flag) found ∙ over) in
      (stalled.0, stalled.1, stalled.2, stalled.4)
    where
      found : m.cs ≡ record (g.sessions n) { locked = true }
      found =
          same
          ∙ subst (Yields (λ h. h.sessions n ≡ record (g.sessions n) { locked = true })) done
              (set_operation-taken r g w n mbd e)
