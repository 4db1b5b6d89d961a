-- ===== src/Program/Lock/Operations.antt =====
-- The operations of src/agent_msg_handler.cpp write a request only with the mutex that they take.
use mathlib.Core.Path.{subst}
use modbus_ssa_project.Prelude.{
  ℕ, ◌+◌, ◌≤◌, ◌==◌, ==_iff, not, ◌||◌, Bool, true, false, List, [], ◌∷◌, ◌++◌, if◌then◌else◌, ◌≡◌,
  refl, sym, Bool-cases, if-intro, if-cases, inl, inr, arith,
}
use modbus_ssa_project.Prelude.Int.{ℤ}
use modbus_ssa_project.Prelude.Text.{Text, text, empty, atoi}
use modbus_ssa_project.Model.{SrRecord, Floats, MbDevices}
use modbus_ssa_project.Model.Dispatch.{Handled, handled, bad_call, undefined, is}
use modbus_ssa_project.Model.WellFormed.{Yields}
use modbus_ssa_project.Platform.{Platform}
use modbus_ssa_project.C8y.Load.{add_devices}
use modbus_ssa_project.C8y.Load.Mutex.{SameLock, add_devices-SameLock}
use modbus_ssa_project.Session.Record.{Session}
use modbus_ssa_project.Session.Registration.{thousand}
use modbus_ssa_project.Session.Polling.{ModbusLibrary}
use modbus_ssa_project.Agent.{
  Gateway, update_session, find_session, Search, free, nobody, null_session, find_free, set_value,
  set_operation, add_operation, rate_operation, operate, post_busy,
}
use modbus_ssa_project.Agent.Sound.{set_value-sessions}
use modbus_ssa_project.Agent.Finding.{find_free-free}
use modbus_ssa_project.Program.{strays}
use modbus_ssa_project.Program.Lock.{written_to, written_to-++, Owes, weaken, updated-Owes}

module _ (mb : ModbusLibrary) (pf : Platform) (fl : Floats) (ends_equal : Bool) where
  open pf use {World}

  -- A request of the platform goes to the session of the sid, if anywhere.
  set_value-written :
      (s : ℕ) (sid : Text) (r : SrRecord) (mbd : MbDevices) (g : Gateway)
      → written_to s (set_value pf fl mb sid r mbd g).written
        ≤ written_to s g.written + (if (find_session sid g).0 == s then 1 else 0)
  unfolding set_value find_session written_to
  set_value-written s sid r mbd g =
      if-intro Within (not (mb.init_ok mode slave)) _ _ (omega arith) (
        if-intro Within (n == 0) _ _ (omega arith) (
          if-intro Within (g.sessions n).sock_open _ _
            (omega (arith, written_to-++ s g.written ((n, request) ∷ []))) (omega arith)))
    where
      Within : Gateway → Type 0
      Within h =
          written_to s h.written
          ≤ written_to s g.written + (if (find_session sid g).0 == s then 1 else 0)

      n : ℕ
      n = (find_session sid g).0

      slave : ℤ
      slave = atoi mbd.slave

      mode : Text
      mode = if empty mbd.addr then text "RTU" else text "TCP"

      request : List ℕ
      request =
          if is r (text "833")
          then mb.write_co mode slave (atoi (r.value 4)) (atoi (r.value 5))
          else mb.write_hr mode slave (atoi (r.value 4)) (atoi (r.value 7))

  -- An operation with the session that it has found: its mutex is taken, and the request is written.
  taken-Owes :
      (s n : ℕ) (r : SrRecord) (mbd : MbDevices) (g : Gateway)
      → (g.sessions n).locked ≡ false
      → Owes s
          (if n == s then 0 else if (find_session (g.sessions n).sid g).0 == s then 1 else 0)
          g
          (set_value pf fl mb
            (g.sessions n).sid
            r
            mbd
            (update_session n (λ c. record c { locked = true }) g))
  unfolding Owes
  taken-Owes s n r mbd g is_free =
      rw (set_value-sessions pf fl mb (g.sessions n).sid r mbd taken) (elim (Bool-cases (s == n)) [
        | inl e ↦
            rw (e, sym ((==_iff s n).0 e))
              (ground (
                arith,
                subst (λ k. (g.sessions k).locked ≡ false) (sym ((==_iff s n).0 e)) is_free,
                written,
              ))
        | inr e ↦ rw e (ground (arith, written))
      ])
    where
      taken : Gateway
      taken = update_session n (λ c. record c { locked = true }) g

      written :
          written_to s (set_value pf fl mb (g.sessions n).sid r mbd taken).written
          ≤ written_to s g.written + (if (find_session (g.sessions n).sid g).0 == s then 1 else 0)
      written = unfold find_session in set_value-written s (g.sessions n).sid r mbd taken

  set_operation-Owes :
      (s : ℕ) (r : SrRecord) (g : Gateway) (w : World)
      → (is r (text "833") || is r (text "834")) ≡ true
      → Yields (Owes s (strays mb pf fl ends_equal s r g) g) (set_operation pf fl mb r g w).0
  unfolding set_operation strays
  set_operation-Owes s r g w writes = rw writes (found search refl)
    where
      search : Search
      search = (find_free pf fl mb (r.value 3) g.sessions g.did_to_cs).1

      told : World
      told =
          post_busy pf fl mb (r.value 2) (find_free pf fl mb (r.value 3) g.sessions g.did_to_cs).0
            (pf.post (text "303," ++ (r.value 2 ++ (text ",EXECUTING" ++ 10 ∷ []))) w).1

      success : World
      success = (pf.post (text "303," ++ (r.value 2 ++ (text ",SUCCESSFUL" ++ 10 ∷ []))) told).1

      found :
          (x : Search)
          → search ≡ x
          → Yields
              (Owes s
                (elim x as (λ _. ℕ) [
                  | nobody ↦ 0
                  | null_session ↦ 0
                  | free n mbd ↦
                      if n == s
                      then 0
                      else if (find_session (g.sessions n).sid g).0 == s
                      then 1
                      else 0
                ])
                g)
              ((elim x as (λ _. Handled Gateway × World) [
                | nobody ↦ (handled g, success)
                | null_session ↦ (undefined, told)
                | free n mbd ↦ (
                  handled (
                      set_value pf fl mb
                        (g.sessions n).sid
                        r
                        mbd
                        (update_session n (λ c. record c { locked = true }) g)),
                  success,
                )
              ]).0)
      found nobody e = unfold Owes in omega arith
      found null_session e = tt
      found (free n mbd) e =
          taken-Owes s n r mbd g
            ((find_free-free pf fl mb (r.value 3) g.sessions g.did_to_cs n mbd e).1).1

  add_operation-Owes :
      (s : ℕ) (r : SrRecord) (g : Gateway) (w : World)
      → Yields (Owes s 0 g) (add_operation pf fl mb r g w).0
  unfolding add_operation find_session Owes
  add_operation-Owes s r g w =
      if-intro (λ (x : Handled Gateway × World). Yields (Owes s 0 g) x.0) (n == 0) _ _ (omega arith)
        (added (add_devices pf fl r (g.sessions n) w)
          (add_devices-SameLock pf fl r (g.sessions n) w))
    where
      n : ℕ
      n = (find_session (r.value 6) g).0

      g' : Gateway
      g' = (find_session (r.value 6) g).1

      done : Text
      done =
          text "303,"
          ++ (r.value 8
              ++ (text ",EXECUTING"
                  ++ (10 ∷ [] ++ (text "303," ++ (r.value 8 ++ (text ",SUCCESSFUL" ++ 10 ∷ []))))))

      added :
          (x : Handled Session × World)
          → Yields (SameLock (g.sessions n)) x.0
          → Yields (Owes s 0 g) (
              (elim x.0 as (λ _. Handled Gateway × World) [
                | handled cs ↦ (handled (update_session n (λ c. cs) g'), (pf.post done x.1).1)
                | bad_call cs ↦ (bad_call (update_session n (λ c. cs) g'), x.1)
                | undefined ↦ (undefined, x.1)
              ]).0)
      added (handled cs, w') same = updated-Owes s n (λ c. cs) g same
      added (bad_call cs, w') same = updated-Owes s n (λ c. cs) g same
      added (undefined, w') same = tt

  rate_operation-Owes :
      (s : ℕ) (r : SrRecord) (g : Gateway) (w : World)
      → Owes s 0 g (rate_operation pf fl mb r g w).0
  unfolding rate_operation find_session Owes
  rate_operation-Owes s r g w =
      if-intro (λ (x : Gateway × World). Owes s 0 g x.0) ((find_session (r.value 5) g).0 == 0) _ _
        (omega arith)
        (updated-Owes s (find_session (r.value 5) g).0
          (λ c. record c { timer_interval = thousand (atoi (r.value 3)) }) g refl)

  -- An operation writes a request to a session only where it takes its mutex, or strays.
  pub operate-Owes :
      (s : ℕ) (r : SrRecord) (g : Gateway) (w : World)
      → Yields (Owes s (strays mb pf fl ends_equal s r g) g) (operate pf fl mb r g w).0
  unfolding operate Owes
  operate-Owes s r g w =
      if-intro Owed (is r (text "832") || is r (text "847")) _ _
        (weaken s freed g (add_operation pf fl mb r g w).0 (add_operation-Owes s r g w))
        (if-cases Owed (is r (text "833") || is r (text "834")) _ _ (set_operation-Owes s r g w)
          (λ none.
            if-intro Owed (is r (text "817")) _ _
              (weaken s freed g (handled (rate_operation pf fl mb r g w).0)
                (rate_operation-Owes s r g w))
              (omega arith)))
    where
      freed : ℕ
      freed = strays mb pf fl ends_equal s r g

      Owed : Handled Gateway × World → Type 0
      Owed x = Yields (Owes s freed g) x.0
