-- ===== src/Program/Lock/Requests.antt =====
-- The requests of each session, counted over the steps of the whole gateway (src/client_session.cpp,
-- src/agent_msg_handler.cpp, src/io_service_thread.cpp).
use mathlib.Core.Path.{subst}
use modbus_ssa_project.Prelude.{
  ℕ, ◌+◌, ◌≤◌, ◌==◌, ==_iff, Bool, true, false, List, if◌then◌else◌, ◌≡◌, ◌⊎◌, refl, sym, ap,
  Bool-cases, inl, inr, arith,
}
use modbus_ssa_project.Model.{Floats}
use modbus_ssa_project.Model.Dispatch.{Handled, handled, bad_call}
use modbus_ssa_project.Model.WellFormed.{Yields}
use modbus_ssa_project.Platform.{Platform}
use modbus_ssa_project.Accept.{Accepted, failed, gone, connected, process_accept}
use modbus_ssa_project.Session.Record.{new_session}
use modbus_ssa_project.Session.Machine.{
  Machine, reads_reg, sets_timer, starts_thread, init, read_reg, act, on_cs,
}
use modbus_ssa_project.Session.Polling.{ModbusLibrary, Place, at_end}
use modbus_ssa_project.Session.Polling.Lock.{sent, act-sent, Pays}
use modbus_ssa_project.Session.Polling.History.{Event-Pays}
use modbus_ssa_project.Session.Polling.Registering.{on_read_reg-some-Pays}
use modbus_ssa_project.Agent.{Gateway, operate}
use modbus_ssa_project.Program.{
  Program, machine_of, put_machine, accept, started, strays, Step, accepts, runs, registers, wakes,
  operates, operates_partly, Run, begins, goes_on,
}
use modbus_ssa_project.Program.Lock.{written_to, requests_of, holds, Owes}
use modbus_ssa_project.Program.Lock.Operations.{operate-Owes}

-- Where no more than `freed` events free the mutex of `s`, each other request finds it held.
PaysFor : ℕ → ℕ → Program → Program → Type 0
PaysFor s freed g h =
    requests_of s h + holds s g.gateway ≤ requests_of s g + holds s h.gateway + freed

-- The handler or the thread of a session pays for it, and not for the others.
put_machine-PaysFor :
    (s n j : ℕ) (p : Place) (m : Machine) (g : Program)
    → Pays j (machine_of n g) m
    → PaysFor s (if n == s then j else 0) g (put_machine n p m g)
unfolding PaysFor put_machine requests_of
put_machine-PaysFor s n j p m g pays = elim (Bool-cases (s == n)) [
  | inl e ↦
      let same : n ≡ s = sym ((==_iff s n).0 e) in
      rw (e, (==_iff n s).1 same) (omega (arith, subst (λ k. Pays j (machine_of k g) m) same pays))
  | inr e ↦ rw e (omega arith)
]

put_machine-quiet :
    (s n : ℕ) (p : Place) (m : Machine) (g : Program)
    → Pays 0 (machine_of n g) m
    → PaysFor s 0 g (put_machine n p m g)
put_machine-quiet s n p m g pays =
    subst (λ j. PaysFor s j g (put_machine n p m g)) (none (n == s))
      (put_machine-PaysFor s n 0 p m g pays)
  where
    none : (b : Bool) → ◌≡◌ {A = ℕ} (if b then 0 else 0) 0
    none true = refl
    none false = refl

init-Pays : (m : Machine) → Pays 0 m (init m)
unfolding init read_reg act sent
init-Pays m = ground (
  arith,
  act-sent starts_thread m,
  act-sent sets_timer (act starts_thread m),
  act-sent (reads_reg 19) (act sets_timer (act starts_thread m)),
)

accept-PaysFor : (s : ℕ) (end : Accepted) (n : ℕ) (g : Program) → PaysFor s 0 g (accept end n g)
unfolding accept PaysFor requests_of on_cs
accept-PaysFor s failed n g = omega arith
accept-PaysFor s gone n g = omega arith
accept-PaysFor s connected n g =
    put_machine-quiet s n at_end (init opened)
      (record g { acceptor = process_accept connected n g.acceptor }) (init-Pays opened)
  where
    opened : Machine
    opened = on_cs (λ c. record c { sock_open = true; timer_active = true }) (machine_of n g)

module _ (mb : ModbusLibrary) (pf : Platform) (fl : Floats) (ends_equal : Bool) where
  open pf use {World}

  operated :
      (s freed : ℕ) (o : Handled Gateway) (g : Program) (h : Gateway)
      → Yields (Owes s freed g.gateway) o
      → (o ≡ handled h) ⊎ (o ≡ bad_call h)
      → PaysFor s freed g (record g { gateway = h })
  unfolding PaysFor requests_of Owes
  operated s freed o g h owes e = omega (arith, after e)
    where
      after : (o ≡ handled h) ⊎ (o ≡ bad_call h) → Owes s freed g.gateway h
      after (inl e) = subst (Yields (Owes s freed g.gateway)) e owes
      after (inr e) = subst (Yields (Owes s freed g.gateway)) e owes

  Step-PaysFor :
      (s : ℕ) (g : Program) (j : ℕ) (h : Program)
      → Step mb pf fl ends_equal s g j h
      → PaysFor s j g h
  Step-PaysFor s g j h (accepts n end e) = accept-PaysFor s end n g
  Step-PaysFor s g j h (runs n {j = i} {q = q} {m = m} known e) =
      put_machine-PaysFor s n i q m g
        (Event-Pays mb pf fl ends_equal (g.places n) q (machine_of n g) m i e)
  Step-PaysFor s g j h (registers n {m = m} error has_http buffer bytes w w' known e) =
      put_machine-quiet s n (g.places n) m g
        (on_read_reg-some-Pays pf fl error has_http buffer bytes (machine_of n g) m w w' e)
  Step-PaysFor s g j h (wakes n known e active) =
      put_machine-quiet s n _ (machine_of n g) g (omega arith)
  Step-PaysFor s g j h (operates {h = after} r w w' e) =
      operated s (strays mb pf fl ends_equal s r g.gateway) (operate pf fl mb r g.gateway w).0 g
        after (operate-Owes mb pf fl ends_equal s r g.gateway w) (inl (ap (λ x. x.0) e))
  Step-PaysFor s g j h (operates_partly {h = after} r w w' e) =
      operated s (strays mb pf fl ends_equal s r g.gateway) (operate pf fl mb r g.gateway w).0 g
        after (operate-Owes mb pf fl ends_equal s r g.gateway w) (inr (ap (λ x. x.0) e))

  Run-PaysFor : (s k : ℕ) (g h : Program) → Run mb pf fl ends_equal s g k h → PaysFor s k g h
  unfolding PaysFor
  Run-PaysFor s k g h begins = omega arith
  Run-PaysFor s k g i (goes_on {h = h} {j = j} {k = l} run step) =
      omega (arith, Run-PaysFor s j g h run, Step-PaysFor s h l i step)

  -- Requests are one at a time on every line: from the start of the gateway on, the requests of a
  -- session, those of its polling thread and those that the platform's operations write to it, are no
  -- more than the complete responses that are received without an error, the ends of its slave's time
  -- (while the slave's flag is 0) and the Closes of its open socket, and one more only while the mutex
  -- is held; parts of responses, heartbeats, failed reads and cancelled timers do not count. An
  -- operation that writes to the session though another session's mutex is the one that it has taken is
  -- counted with them.
  pub Run-requests :
      (memory : ℕ → List ℕ) (s k : ℕ) (g : Program)
      → Run mb pf fl ends_equal s (started memory) k g
      → requests_of s g ≤ holds s g.gateway + k
  unfolding PaysFor
  Run-requests memory s k g run = omega (arith, Run-PaysFor s k (started memory) g run, nothing)
    where
      nothing : requests_of s (started memory) ≡ 0
      nothing = unfold requests_of started new_session written_to sent in refl
