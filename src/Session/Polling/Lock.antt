-- ===== src/Session/Polling/Lock.antt =====
-- One request at a time: the mutex that operator() of src/client_session.cpp takes before a request,
-- over histories in which the polling thread, the slave timer and the handlers take turns.
use modbus_ssa_project.Prelude.{
  ℕ, suc, ◌+◌, ◌≤◌, ◌==◌, false, not, List, [], ◌∷◌, ◌++◌, get_elem?, if◌then◌else◌, ◌≡◌, refl,
  Bool-cases, if-intro, if-cases, Option-cases, inl, inr, arith,
}
use modbus_ssa_project.Prelude.Map.{text_key, get}
use modbus_ssa_project.Prelude.Text.{Text}
use modbus_ssa_project.Prelude.Int.{ℤ}
use modbus_ssa_project.Model.{RangeMap}
use modbus_ssa_project.Session.Machine.{
  Action, reads, reads_reg, writes, sets_timer, sets_slave_timer, cancels_timers, runs_close,
  starts_thread, Machine, act, on_cs, write,
}
use modbus_ssa_project.Session.Polling.{
  ModbusLibrary, Place, at_device, at_next, at_kind, at_range, at_end, Polled, Outcome, goes,
  blocked, changed, undefined, begin_device, request, poll_step, same_vector,
}

-- The number of requests among the actions.
unfoldable pub sent : List Action → ℕ
sent [] = 0
sent (writes bytes ∷ actions) = suc (sent actions)
sent (a ∷ actions) = sent actions

sent-++ : (xs ys : List Action) → sent (xs ++ ys) ≡ sent xs + sent ys
unfolding sent
sent-++ [] ys = omega arith
sent-++ (writes bytes ∷ xs) ys = omega (arith, sent-++ xs ys)
sent-++ (reads n ∷ xs) ys = sent-++ xs ys
sent-++ (reads_reg n ∷ xs) ys = sent-++ xs ys
sent-++ (sets_timer ∷ xs) ys = sent-++ xs ys
sent-++ (sets_slave_timer ∷ xs) ys = sent-++ xs ys
sent-++ (cancels_timers ∷ xs) ys = sent-++ xs ys
sent-++ (runs_close ∷ xs) ys = sent-++ xs ys
sent-++ (starts_thread ∷ xs) ys = sent-++ xs ys

pub act-sent : (a : Action) (m : Machine) → sent (act a m).actions ≡ sent m.actions + sent (a ∷ [])
unfolding act
act-sent a m = sent-++ m.actions (a ∷ [])

-- 1 if the mutex is held.
abbrev pub held : Machine → ℕ
held m = if (m.cs).locked then 1 else 0

-- Where no more than `freed` events free the mutex, each other request finds it held.
abbrev pub Pays : ℕ → Machine → Machine → Type 0
Pays freed m n = sent n.actions + held m ≤ sent m.actions + held n + freed

abbrev pub PaysAll : Machine → Outcome → Type 0
PaysAll m (goes q n) = Pays 0 m n
PaysAll m blocked = 0 ≤ 0
PaysAll m changed = 0 ≤ 0
PaysAll m undefined = 0 ≤ 0

-- A step of the thread that sends nothing.
pub quiet :
    (m : Machine) (a : Action) → sent (a ∷ []) ≡ 0 → sent (m.actions ++ a ∷ []) ≡ sent m.actions
quiet m a none_sent = omega (arith, none_sent, sent-++ m.actions (a ∷ []))

module _ (mb : ModbusLibrary) where
  begin_device-Pays : (sid : Text) (m : Machine) → PaysAll m (begin_device mb sid m)
  unfolding begin_device on_cs sent
  begin_device-Pays sid m = ground (arith, quiet m sets_slave_timer refl)

  request-Pays :
      (sid : Text) (d : Polled) (kind : ℕ) (vector : List RangeMap) (first count : ℤ)
      (ranges : RangeMap) (m : Machine)
      → (m.cs).locked ≡ false
      → PaysAll m (request mb sid d kind vector first count ranges m)
  unfolding request on_cs write sent
  request-Pays sid d kind vector first count ranges m free =
      if-intro (PaysAll m) ((m.cs).flag == 1) _ _ (omega arith) (
        if-intro (PaysAll m) (not (same_vector vector (get [] d.type ((m.cs).mbtypes).typenum))) _ _
          (omega arith)
          (if-intro (PaysAll m) (m.cs).is_close _ _ (rw free (omega arith))
            (elim (Bool-cases (m.cs).sock_open) [
              | inl is_open ↦
                  rw (is_open, free) (omega (arith, sent-++ m.actions (writes request_bytes ∷ [])))
              | inr shut ↦ rw (shut, free) (omega arith)
            ])))
    where
      request_bytes : List ℕ
      request_bytes = mb.read_bat d.mode d.slave first count (kind + 1)

  pub poll_step-Pays : (p : Place) (m : Machine) → PaysAll m (poll_step mb p m)
  unfolding poll_step
  poll_step-Pays (at_device sid) m =
      if-intro (PaysAll m) (m.cs).locked _ _ (omega arith) (begin_device-Pays sid m)
  poll_step-Pays (at_next sid) m = omega arith
  poll_step-Pays (at_kind sid d kind) m =
      if-intro (PaysAll m) (kind == 4) _ _ (omega arith)
        (elim (Option-cases (get_elem? (get [] d.type ((m.cs).mbtypes).typenum) kind)) [
          | inl e ↦ rw e (omega arith)
          | inr (ranges, e) ↦ rw e (omega arith)
        ])
  poll_step-Pays (at_range sid d kind vector []) m = omega arith
  poll_step-Pays (at_range sid d kind vector ((first, count) ∷ ranges)) m =
      if-cases (PaysAll m) (m.cs).locked _ _ (λ locked. omega arith)
        (request-Pays sid d kind vector first count ranges m)
  poll_step-Pays at_end m = omega arith
