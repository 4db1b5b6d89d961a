-- ===== src/Session/Deadline.antt =====
-- The heartbeat timer of a session (checkDeadline of src/client_session.cpp), while the device is
-- silent and the polling thread and the other handlers go on.
use mathlib.Core.Path.{subst}
use modbus_ssa_project.Prelude.{
  ◌==◌, ◌≤◌, Bool, true, false, [], ◌∷◌, ◌++◌, get_elem?, ◌≡◌, refl, ◌∙◌, Bool-cases, if-intro,
  Option-cases, inl, inr, arith,
}
use modbus_ssa_project.Prelude.Map.{text_key, get}
use modbus_ssa_project.Session.Machine.{
  runs_close, Machine, act, on_cs, write, to_close, finish, look_up, replaced, check_deadline,
  check_slave_deadline, on_write,
}
use modbus_ssa_project.Session.Polling.{
  ModbusLibrary, Place, at_device, at_next, at_kind, at_range, at_end, Outcome, goes, blocked,
  changed, undefined, begin_device, request, poll_step,
}

SameBeat : Machine → Machine → Type 0
SameBeat m n = (n.cs).rece_heart_beat ≡ (m.cs).rece_heart_beat

SameBeatAll : Machine → Outcome → Type 0
SameBeatAll m (goes q n) = SameBeat m n
SameBeatAll m blocked = 0 ≤ 0
SameBeatAll m changed = 0 ≤ 0
SameBeatAll m undefined = 0 ≤ 0

module _ (mb : ModbusLibrary) where
  -- What may happen while nothing is received.
  pub data Idle : Place → Machine → Place → Machine → Type 0 where
    begins : {p : Place} {m : Machine} → Idle p m p m
    polls :
        {p q r : Place} {m n o : Machine}
        → Idle p m q n
        → poll_step mb q n ≡ goes r o
        → Idle p m r o
    written :
        {p q : Place} {m n : Machine} (error : Bool) → Idle p m q n → Idle p m q (on_write error n)
    slave_due :
        {p q : Place} {m n : Machine} (error : Bool)
        → Idle p m q n
        → Idle p m q (check_slave_deadline error n)

  poll_step-same : (p : Place) (m : Machine) → SameBeatAll m (poll_step mb p m)
  unfolding poll_step begin_device request on_cs act write SameBeat SameBeatAll
  poll_step-same (at_device sid) m = ground arith
  poll_step-same (at_next sid) m = refl
  poll_step-same (at_kind sid d kind) m =
      if-intro (SameBeatAll m) (kind == 4) _ _ refl
        (elim (Option-cases (get_elem? (get [] d.type ((m.cs).mbtypes).typenum) kind)) [
          | inl e ↦ rw e (omega arith)
          | inr (ranges, e) ↦ rw e refl
        ])
  poll_step-same (at_range sid d kind vector []) m = refl
  poll_step-same (at_range sid d kind vector ((first, count) ∷ ranges)) m = ground arith
  poll_step-same at_end m = refl

  to_close-same : (m : Machine) → SameBeat m (to_close m)
  unfolding to_close act on_cs SameBeat
  to_close-same m = ground arith

  finish-same : (m : Machine) → SameBeat m (finish m)
  unfolding finish SameBeat
  finish-same m = ground (arith, to_close-same m)

  look_up-same : (m : Machine) → SameBeat m (look_up m)
  unfolding look_up SameBeat
  look_up-same m = ground arith

  on_write-same : (error : Bool) (m : Machine) → SameBeat m (on_write error m)
  unfolding on_write SameBeat on_cs
  on_write-same true m = finish-same (on_cs (λ c. record c { is_close = true }) m)
  on_write-same false m = elim (Bool-cases (replaced m₁)) [
    | inl e ↦
        rw e
          (finish-same (on_cs (λ c. record c { is_close = true }) (look_up m₁)) ∙ look_up-same m₁)
    | inr e ↦ rw e (finish-same (look_up m₁) ∙ look_up-same m₁)
  ]
    where
      m₁ : Machine
      m₁ = on_cs (λ c. record c { is_close = false }) m

  check_slave_deadline-same :
      (error : Bool) (m : Machine) → SameBeat m (check_slave_deadline error m)
  unfolding check_slave_deadline on_cs SameBeat
  check_slave_deadline-same error m = ground arith

  Idle-same : (p q : Place) (m n : Machine) → Idle p m q n → SameBeat m n
  unfolding SameBeat SameBeatAll
  Idle-same p q m n begins = refl
  Idle-same p r m o (polls {q = q} {n = n} h e) =
      subst (SameBeatAll n) e (poll_step-same q n) ∙ Idle-same p q m n h
  Idle-same p q m o (written {n = n} error h) = on_write-same error n ∙ Idle-same p q m n h
  Idle-same p q m o (slave_due {n = n} error h) =
      check_slave_deadline-same error n ∙ Idle-same p q m n h

  check_deadline-beat : (m : Machine) → ((check_deadline false m).cs).rece_heart_beat ≡ false
  unfolding check_deadline to_close act on_cs
  check_deadline-beat m = ground arith

  -- A silent device is closed: when the heartbeat timer has run out, and runs out again after steps
  -- of the thread, ends of writes and slaves' times in any order, the session is disconnected and
  -- Close is asked for, last.
  pub silent_closes :
      (p q : Place) (m n : Machine)
      → Idle p (check_deadline false m) q n
      → (((check_deadline false n).cs).is_disconnect ≡ true)
        × ((check_deadline false n).actions ≡ n.actions ++ runs_close ∷ [])
  unfolding check_deadline to_close act on_cs SameBeat
  silent_closes p q m n h = rw quiet (ground arith)
    where
      quiet : (n.cs).rece_heart_beat ≡ false
      quiet = Idle-same p q (check_deadline false m) n h ∙ check_deadline-beat m
