-- ===== src/Session/Polling/History.antt =====
-- Histories of a registered session, in which its polling thread and its handlers take turns in any
-- order (src/client_session.cpp).
use mathlib.Core.Path.{subst}
use modbus_ssa_project.Prelude.{
  ℕ, ◌+◌, ◌≤◌, ◌==◌, ◌&&◌, not, if◌then◌else◌, Bool, true, false, Bool-cases, inl, inr, List, some,
  ◌≡◌, sym, ◌∙◌, arith,
}
use modbus_ssa_project.Prelude.Int.{ℤ, pos, eq_ℤ, eq_ℤ_iff}
use modbus_ssa_project.Frame.{check_msg}
use modbus_ssa_project.Session.Polling.Still.{Still, on_read-some-Still, on_read_failed-some-Still}
use modbus_ssa_project.Model.{Floats}
use modbus_ssa_project.Platform.{Platform}
use modbus_ssa_project.Session.Machine.{
  Machine, close, check_deadline, check_slave_deadline, on_write,
}
use modbus_ssa_project.Session.Reading.{on_read}
use modbus_ssa_project.Session.Polling.{ModbusLibrary, Place, goes, poll_step}
use modbus_ssa_project.Session.Polling.Lock.{sent, Pays, PaysAll, poll_step-Pays}
use modbus_ssa_project.Session.Polling.Handlers.{
  close-Pays, check_slave_deadline-Pays, check_deadline-Pays, on_write-Pays, on_read-some-Pays,
}

-- What checkMsg says of a complete message.
abbrev pub is_complete : ℤ → Bool
is_complete result = eq_ℤ result (pos 0)

module _ (mb : ModbusLibrary) (pf : Platform) (fl : Floats) (ends_equal : Bool) where
  open pf use {World}

  -- An event, from a place of the thread and a session to the next. The number counts those that free
  -- the mutex: a complete response that is received, the end of the slave's time, and a Close that is
  -- not of a socket that is closed. Parts of responses, heartbeats, messages with errors and timers that
  -- are cancelled are not counted.
  pub data Event : Place → Machine → ℕ → Place → Machine → Type 0 where
    polls : {p q : Place} {m n : Machine} → poll_step mb p m ≡ goes q n → Event p m 0 q n
    written : {p : Place} {m : Machine} (error : Bool) → Event p m 0 p (on_write error m)
    heartbeat_due :
        {p : Place} {m : Machine} (error : Bool) → Event p m 0 p (check_deadline error m)
    slave_due :
        {p : Place} {m : Machine} (error : Bool)
        → Event p m
            (if not error && (m.cs).flag == 0 then 1 else 0)
            p
            (check_slave_deadline error m)
    closes :
        {p : Place} {m : Machine} (cancelled : Bool)
        → Event p m (if (m.cs).sock_open && cancelled then 1 else 0) p (close cancelled m)
    receives :
        {p : Place} {m n : Machine} (error has_http : Bool) (buffer : List ℕ) (bytes : ℕ)
        (w w' : World)
        → on_read pf fl ends_equal error has_http buffer bytes m w ≡ some (n, w')
        → Event p m
            (if not error
                && is_complete (check_msg buffer ((m.cs).len + bytes) (m.cs).tcp_flag).result
              then 1
              else 0)
            p
            n

  pub data History : Place → Machine → ℕ → Place → Machine → Type 0 where
    begins : {p : Place} {m : Machine} → History p m 0 p m
    goes_on :
        {p q r : Place} {m n o : Machine} {j k : ℕ}
        → Event p m j q n
        → History q n k r o
        → History p m (j + k) r o

  Still-Pays : (m n : Machine) → Still m n → Pays 0 m n
  Still-Pays m n h = rw h.0 (omega (arith, h.2))

  receives-Pays :
      (error has_http : Bool) (buffer : List ℕ) (bytes : ℕ) (m n : Machine) (w w' : World)
      → on_read pf fl ends_equal error has_http buffer bytes m w ≡ some (n, w')
      → Pays
          (if not error
              && is_complete (check_msg buffer ((m.cs).len + bytes) (m.cs).tcp_flag).result
            then 1
            else 0)
          m
          n
  receives-Pays true has_http buffer bytes m n w w' e =
      Still-Pays m n (on_read_failed-some-Still pf fl ends_equal has_http buffer bytes m n w w' e)
  receives-Pays false has_http buffer bytes m n w w' e = elim (Bool-cases (is_complete result)) [
    | inl c ↦ rw c (on_read-some-Pays pf fl ends_equal false has_http buffer bytes m n w w' e)
    | inr c ↦ rw c (
        Still-Pays m n (
          on_read-some-Still pf fl ends_equal false has_http buffer bytes m n w w'
            (λ same. true≢false (sym ((eq_ℤ_iff result (pos 0)).1 same) ∙ c)) e))
  ]
    where
      result : ℤ
      result = (check_msg buffer ((m.cs).len + bytes) (m.cs).tcp_flag).result

      true≢false : ◌≡◌ {A = Bool} true false → ⊥
      true≢false h = cc

  pub Event-Pays : (p q : Place) (m n : Machine) (j : ℕ) → Event p m j q n → Pays j m n
  Event-Pays p q m n j (polls e) = subst (PaysAll m) e (poll_step-Pays mb p m)
  Event-Pays p q m n j (written error) = on_write-Pays error m
  Event-Pays p q m n j (heartbeat_due error) = check_deadline-Pays error m
  Event-Pays p q m n j (slave_due error) = check_slave_deadline-Pays error m
  Event-Pays p q m n j (closes cancelled) = close-Pays cancelled m
  Event-Pays p q m n j (receives error has_http buffer bytes w w' e) =
      receives-Pays error has_http buffer bytes m n w w' e

  History-Pays : (p q : Place) (m n : Machine) (k : ℕ) → History p m k q n → Pays k m n
  History-Pays p q m n k begins = omega arith
  History-Pays p r m o k (goes_on {q = q} {n = n} {j = j} {k = k'} e h) =
      omega (arith, Event-Pays p q m n j e, History-Pays q r n o k' h)

  -- Requests are one at a time: in every history of the thread and the handlers the requests sent
  -- are no more than the events that may free the mutex, and one more only if it was free in the
  -- beginning.
  History-sent :
      (p q : Place) (m n : Machine) (k : ℕ)
      → History p m k q n
      → (sent n.actions ≤ sent m.actions + 1 + k)
        × ((m.cs).locked ≡ true → sent n.actions ≤ sent m.actions + k)
  History-sent p q m n k h =
      (ground (arith, History-Pays p q m n k h), λ e. ground (arith, History-Pays p q m n k h))
