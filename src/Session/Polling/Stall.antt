-- ===== src/Session/Polling/Stall.antt =====
-- What a request that is not answered leaves (operator(), onRead and checkSalveDeadline of
-- src/client_session.cpp): the mutex is held, and once the slave's time has run out nothing but a
-- complete message or Close gives it back.
use mathlib.Core.Path.{subst}
use modbus_ssa_project.Prelude.{ℕ, ◌+◌, Bool, true, List, [], ◌∷◌, some, ◌≡◌, ◌≢◌, refl, sym, ◌∙◌}
use modbus_ssa_project.Prelude.Int.{pos}
use modbus_ssa_project.Frame.{check_msg}
use modbus_ssa_project.Model.{Floats}
use modbus_ssa_project.Platform.{Platform}
use modbus_ssa_project.Session.Machine.{Machine, check_deadline, check_slave_deadline, on_write}
use modbus_ssa_project.Session.Reading.{on_read}
use modbus_ssa_project.Session.Polling.{
  ModbusLibrary, Place, at_device, at_next, at_kind, at_range, at_end, goes, blocked, poll_step,
}
use modbus_ssa_project.Session.Polling.Still.{
  Still, Still-trans, on_write-Still, check_deadline-Still, check_slave_deadline-Still,
  on_read-some-Still,
}
use modbus_ssa_project.Session.Polling.Lock.{sent}

-- The thread stands where it takes the mutex, before a device or before a request.
unfoldable pub IsWaiting : Place → Type 0
IsWaiting (at_device sid) = Unit
IsWaiting (at_range sid d kind vector ((first, count) ∷ ranges)) = Unit
IsWaiting _ = ⊥

module _ (mb : ModbusLibrary) (pf : Platform) (fl : Floats) (ends_equal : Bool) where
  open pf use {World}

  -- What may happen while no complete message is received and the session is not closed.
  pub data Waiting : Place → Machine → Place → Machine → Type 0 where
    begins : {p : Place} {m : Machine} → Waiting p m p m
    polls :
        {p q r : Place} {m n o : Machine}
        → Waiting p m q n
        → poll_step mb q n ≡ goes r o
        → Waiting p m r o
    written :
        {p q : Place} {m n : Machine} (error : Bool)
        → Waiting p m q n
        → Waiting p m q (on_write error n)
    heartbeat_due :
        {p q : Place} {m n : Machine} (error : Bool)
        → Waiting p m q n
        → Waiting p m q (check_deadline error n)
    slave_due :
        {p q : Place} {m n : Machine} (error : Bool)
        → Waiting p m q n
        → Waiting p m q (check_slave_deadline error n)
    receives :
        {p q : Place} {m n o : Machine} (error has_http : Bool) (buffer : List ℕ) (bytes : ℕ)
        (w w' : World)
        → Waiting p m q n
        → (check_msg buffer ((n.cs).len + bytes) (n.cs).tcp_flag).result ≢ pos 0
        → on_read pf fl ends_equal error has_http buffer bytes n w ≡ some (o, w')
        → Waiting p m q o

  waits :
      (p : Place) (m : Machine) → IsWaiting p → (m.cs).locked ≡ true → poll_step mb p m ≡ blocked
  unfolding poll_step IsWaiting
  waits (at_device sid) m h locked = rw locked refl
  waits (at_next sid) m h locked = absurd h
  waits (at_kind sid d kind) m h locked = absurd h
  waits (at_range sid d kind vector []) m h locked = absurd h
  waits (at_range sid d kind vector ((first, count) ∷ ranges)) m h locked = rw locked refl
  waits at_end m h locked = absurd h

  goes-blocked : (q : Place) (n : Machine) → goes q n ≢ blocked
  goes-blocked q n e = cc

  Waiting-Still :
      (p q : Place) (m n : Machine)
      → Waiting p m q n
      → IsWaiting p
      → (m.cs).locked ≡ true
      → (m.cs).flag ≡ 1
      → (q ≡ p) × Still m n
  Waiting-Still p q m n begins h locked over = (refl, (refl, refl, refl))
  Waiting-Still p r m o (polls {q = q} {n = n} run e) h locked over =
      let before = Waiting-Still p q m n run h locked over in
      let stuck = waits q n (subst IsWaiting (sym before.0) h) ((before.1).0 ∙ locked) in
      absurd (goes-blocked r o (sym e ∙ stuck))
  Waiting-Still p q m o (written {n = n} error run) h locked over =
      let before = Waiting-Still p q m n run h locked over in
      (before.0, Still-trans m n (on_write error n) before.1 (on_write-Still error n))
  Waiting-Still p q m o (heartbeat_due {n = n} error run) h locked over =
      let before = Waiting-Still p q m n run h locked over in
      (before.0, Still-trans m n (check_deadline error n) before.1 (check_deadline-Still error n))
  Waiting-Still p q m o (slave_due {n = n} error run) h locked over =
      let before = Waiting-Still p q m n run h locked over in
      (
        before.0,
        Still-trans m n (check_slave_deadline error n) before.1
            (check_slave_deadline-Still error n ((before.1).1 ∙ over)),
      )
  Waiting-Still p q m o (receives {n = n} error has_http buffer bytes w w' run part e) h locked
        over =
      let before = Waiting-Still p q m n run h locked over in
      (
        before.0,
        Still-trans m n o before.1
            (on_read-some-Still pf fl ends_equal error has_http buffer bytes n o w w' part e),
      )

  -- A session can stall: where the mutex is held after the slave's time has run out, and the thread
  -- waits for it, the thread does not move and no request is sent, whatever write ends, timer or part
  -- of a message or heartbeat comes, until a complete message has been received or Close has run.
  pub Waiting-stalls :
      (p q : Place) (m n : Machine)
      → Waiting p m q n
      → IsWaiting p
      → (m.cs).locked ≡ true
      → (m.cs).flag ≡ 1
      → (q ≡ p)
        × (poll_step mb q n ≡ blocked)
        × ((n.cs).locked ≡ true)
        × ((n.cs).flag ≡ 1)
        × (sent n.actions ≡ sent m.actions)
  Waiting-stalls p q m n run h locked over =
      let after = Waiting-Still p q m n run h locked over in
      (
        after.0,
        waits q n (subst IsWaiting (sym after.0) h) ((after.1).0 ∙ locked),
        (after.1).0 ∙ locked,
        (after.1).1 ∙ over,
        (after.1).2,
      )
