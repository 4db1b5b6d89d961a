-- ===== src/Program/Safety.antt =====
-- The runs of the gateway from its start (src/client_session.cpp,
-- src/c8y.cpp, src/modbus_p.cpp, src/agent_msg_handler.cpp, src/io_service_thread.cpp): the tables of
-- every session, and the vectors that its polling thread reads.
use mathlib.Core.Path.{subst}
use modbus_ssa_project.Prelude.{
  ℕ, ◌==◌, Bool, true, List, ◌≡◌, ◌≢◌, ◌⊎◌, refl, ap, Bool-cases, inl, inr,
}
use modbus_ssa_project.Model.{Floats}
use modbus_ssa_project.Model.Dispatch.{Handled, handled, bad_call}
use modbus_ssa_project.Model.WellFormed.{Yields}
use modbus_ssa_project.Platform.{Platform}
use modbus_ssa_project.Accept.{Accepted, failed, gone, connected, process_accept}
use modbus_ssa_project.Session.Record.{Session, new_session}
use modbus_ssa_project.Session.Machine.{Machine, init, read_reg, act, on_cs}
use modbus_ssa_project.Session.Polling.{ModbusLibrary, Place, at_end, undefined, poll_step}
use modbus_ssa_project.Session.Sound.{IsSound, Kept, Keeps-of_same}
use modbus_ssa_project.Session.Sound.Thread.{
  IsInside, IsInside-Grows, first_device-IsInside, at_end-IsInside, Event-IsSound,
  poll_step-defined,
}
use modbus_ssa_project.Session.Sound.Registered.{on_read_reg-some-Keeps}
use modbus_ssa_project.Agent.{Gateway, operate}
use modbus_ssa_project.Agent.Sound.{AllKept, operate-AllKept}
use modbus_ssa_project.Program.{
  Program, machine_of, put_machine, accept, started, Step, accepts, runs, registers, wakes,
  operates, operates_partly, Run, begins, goes_on,
}

-- A sound session, whose thread stands where it reads no vector out of its range.
abbrev IsSafe : Session → Place → Type 0
IsSafe cs p = IsSound cs × IsInside (cs.mbtypes).typenum p

abbrev AllSafe : Program → Type 0
AllSafe g = (n : ℕ) → IsSafe ((g.gateway).sessions n) (g.places n)

Kept-IsSafe : (cs cs' : Session) (p : Place) → IsSafe cs p → Kept cs cs' → IsSafe cs' p
Kept-IsSafe cs cs' p s k =
    (k.0, IsInside-Grows (cs.mbtypes).typenum (cs'.mbtypes).typenum p k.1 s.1)

-- One session changed by its handler or thread, and the others as they are.
put_machine-AllSafe :
    (k : ℕ) (p : Place) (m : Machine) (g : Program)
    → IsSafe m.cs p
    → AllSafe g
    → AllSafe (put_machine k p m g)
unfolding put_machine
put_machine-AllSafe k p m g s all n = elim (Bool-cases (n == k)) [
  | inl e ↦ rw e s
  | inr e ↦ rw e (all n)
]

new_session-IsSound : (memory : List ℕ) → IsSound (new_session memory)
unfolding new_session
new_session-IsSound memory = record { tables = record { typed = tt; vectors = tt }; devices = tt }

started-AllSafe : (memory : ℕ → List ℕ) → AllSafe (started memory)
unfolding started
started-AllSafe memory n =
    (new_session-IsSound (memory n), at_end-IsInside ((new_session (memory n)).mbtypes).typenum)

accept-AllSafe : (end : Accepted) (n : ℕ) (g : Program) → AllSafe g → AllSafe (accept end n g)
unfolding accept init read_reg act on_cs
accept-AllSafe failed n g all = all
accept-AllSafe gone n g all = all
accept-AllSafe connected n g all =
    put_machine-AllSafe n at_end (init opened)
      (record g { acceptor = process_accept connected n g.acceptor })
      (
        (Keeps-of_same (machine_of n g).cs opened.cs refl refl (all n).0).0,
        at_end-IsInside ((opened.cs).mbtypes).typenum,
      )
      all
  where
    opened : Machine
    opened = on_cs (λ c. record c { sock_open = true; timer_active = true }) (machine_of n g)

module _ (mb : ModbusLibrary) (pf : Platform) (fl : Floats) (ends_equal : Bool) where
  open pf use {World}

  operated :
      (o : Handled Gateway) (g : Program) (h : Gateway)
      → Yields (AllKept g.gateway) o
      → (o ≡ handled h) ⊎ (o ≡ bad_call h)
      → AllSafe g
      → AllSafe (record g { gateway = h })
  operated o g h kept e all n =
      Kept-IsSafe ((g.gateway).sessions n) (h.sessions n) (g.places n) (all n) (after e n)
    where
      after : (o ≡ handled h) ⊎ (o ≡ bad_call h) → AllKept g.gateway h
      after (inl e) = subst (Yields (AllKept g.gateway)) e kept
      after (inr e) = subst (Yields (AllKept g.gateway)) e kept

  Step-AllSafe :
      (s : ℕ) (g : Program) (j : ℕ) (h : Program)
      → Step mb pf fl ends_equal s g j h
      → AllSafe g
      → AllSafe h
  Step-AllSafe s g j h (accepts n end e) all = accept-AllSafe end n g all
  Step-AllSafe s g j h (runs n {j = i} {q = q} {m = m} known e) all =
      put_machine-AllSafe n q m g
        (Event-IsSound mb pf fl ends_equal (g.places n) q (machine_of n g) m i e (all n).0
          (all n).1)
        all
  Step-AllSafe s g j h (registers n {m = m} error has_http buffer bytes w w' known e) all =
      put_machine-AllSafe n (g.places n) m g
        (Kept-IsSafe ((g.gateway).sessions n) m.cs (g.places n) (all n) (
          on_read_reg-some-Keeps pf fl error has_http buffer bytes (machine_of n g) m w w' e
            (all n).0))
        all
  Step-AllSafe s g j h (wakes n known e active) all =
      put_machine-AllSafe n _ (machine_of n g) g
        ((all n).0, first_device-IsInside _ (((g.gateway).sessions n).mbtypes).typenum) all
  Step-AllSafe s g j h (operates {h = after} r w w' e) all =
      operated (operate pf fl mb r g.gateway w).0 g after
        (operate-AllKept pf fl mb r g.gateway w (λ n. (all n).0)) (inl (ap (λ x. x.0) e)) all
  Step-AllSafe s g j h (operates_partly {h = after} r w w' e) all =
      operated (operate pf fl mb r g.gateway w).0 g after
        (operate-AllKept pf fl mb r g.gateway w (λ n. (all n).0)) (inr (ap (λ x. x.0) e)) all

  Run-AllSafe : (s k : ℕ) (g h : Program) → Run mb pf fl ends_equal s g k h → AllSafe g → AllSafe h
  Run-AllSafe s k g h begins all = all
  Run-AllSafe s k g i (goes_on {h = h} {j = j} {k = l} run step) all =
      Step-AllSafe s h l i step (Run-AllSafe s j g h run all)

  -- From the start of the gateway on, for every device that connects, registers and sends, every
  -- operation of the platform, and every order in which the threads and handlers take their turns, as
  -- long as no step has had undefined behaviour (a run ends before such a step): the tables of every
  -- session are sound, and no polling thread's next step asks for a vector of range maps out of its
  -- range. That the vector has changed while the thread walks through it is another outcome, which is
  -- not excluded.
  pub Run-IsSound :
      (memory : ℕ → List ℕ) (s k : ℕ) (g : Program)
      → Run mb pf fl ends_equal s (started memory) k g
      → (n : ℕ)
      → IsSound ((g.gateway).sessions n) × (poll_step mb (g.places n) (machine_of n g) ≢ undefined)
  Run-IsSound memory s k g run n =
      let all = Run-AllSafe s k (started memory) g run (started-AllSafe memory) in
      ((all n).0, poll_step-defined mb (g.places n) (machine_of n g) (all n).0 (all n).1)
