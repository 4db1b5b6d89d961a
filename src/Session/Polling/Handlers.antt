-- ===== src/Session/Polling/Handlers.antt =====
-- The handlers of a session beside its polling thread: they send no request, and which of them may
-- free the mutex (check_slave_deadline, close, and on_read by process).
use modbus_ssa_project.Prelude.{
  ℕ, zero, suc, ◌+◌, ◌≤◌, ◌==◌, ◌&&◌, not, if◌then◌else◌, Bool, List, Option, none, some, ◌≡◌, ◌∙◌,
  ◌⊎◌, refl, ap, Bool-cases, if-intro, Option-cases, true, false, inl, inr, arith,
}
use mathlib.Core.Path.{subst}
use modbus_ssa_project.Prelude.Int.{ℤ, pos, negsuc}
use modbus_ssa_project.Frame.{Check, check_msg}
use modbus_ssa_project.Model.{Floats}
use modbus_ssa_project.Platform.{Platform}
use modbus_ssa_project.Session.Machine.{
  cancels_timers, sets_timer, runs_close, reads, Machine, act, on_cs, read, reset_buffer, to_close,
  finish, look_up, replaced, close, check_deadline, check_slave_deadline, on_write,
}
use modbus_ssa_project.Session.Reading.{process, on_read}
use modbus_ssa_project.Session.Polling.Lock.{sent, quiet, Pays}

to_close-Pays : (m : Machine) → Pays 0 m (to_close m)
unfolding to_close act on_cs sent
to_close-Pays m = ground (arith, quiet m runs_close refl)

pub close-Pays :
    (cancelled : Bool) (m : Machine)
    → Pays (if (m.cs).sock_open && cancelled then 1 else 0) m (close cancelled m)
unfolding close act on_cs sent
close-Pays cancelled m = ground (arith, quiet m cancels_timers refl)

pub check_slave_deadline-Pays :
    (error : Bool) (m : Machine)
    → Pays (if not error && (m.cs).flag == 0 then 1 else 0) m (check_slave_deadline error m)
unfolding check_slave_deadline on_cs
check_slave_deadline-Pays error m = ground arith

pub check_deadline-Pays : (error : Bool) (m : Machine) → Pays 0 m (check_deadline error m)
unfolding check_deadline act on_cs sent
check_deadline-Pays error m = ground (arith, quiet m sets_timer refl, to_close-Pays m)

pub look_up-actions : (m : Machine) → (look_up m).actions ≡ m.actions
unfolding look_up
look_up-actions m = ground arith

pub look_up-cs : (m : Machine) → (look_up m).cs ≡ m.cs
unfolding look_up
look_up-cs m = ground arith

pub read-sent : (len : ℕ) (m : Machine) → sent (read len m).actions ≡ sent m.actions
unfolding read act sent
read-sent len m = ground (arith, quiet m (reads len) refl)

-- The end of a handler that has sent nothing, and has kept the mutex as it was.
pub finish-Pays :
    (m n : Machine)
    → sent n.actions ≡ sent m.actions
    → (n.cs).locked ≡ (m.cs).locked
    → Pays 0 m (finish n)
unfolding finish
finish-Pays m n none_sent kept = ground (arith, to_close-Pays n)

finish-frees : (m n : Machine) → sent n.actions ≡ sent m.actions → Pays 1 m (finish n)
unfolding finish
finish-frees m n none_sent = ground (arith, to_close-Pays n)

closing : Machine → Machine
closing = on_cs (λ c. record c { is_close = true })

pub on_write-Pays : (error : Bool) (m : Machine) → Pays 0 m (on_write error m)
unfolding on_write on_cs closing
on_write-Pays true m =
    finish-Pays m (closing (on_cs (λ c. record c { is_close = false }) m)) refl refl
on_write-Pays false m = elim (Bool-cases (replaced m₁)) [
  | inl e ↦ rw e (
      finish-Pays m (closing (look_up m₁)) (ap sent (look_up-actions m₁))
        (ap (λ c. c.locked) (look_up-cs m₁)))
  | inr e ↦ rw e (
      finish-Pays m (look_up m₁) (ap sent (look_up-actions m₁))
        (ap (λ c. c.locked) (look_up-cs m₁)))
]
  where
    m₁ : Machine
    m₁ = on_cs (λ c. record c { is_close = false }) m

-- What checkMsg may say: complete, more to come, a heartbeat, or an error.
pub result_cases :
    (r : ℤ)
    → ((r ≡ pos 0) ⊎ ((more : ℕ) × (r ≡ pos (suc more))))
      ⊎ ((r ≡ negsuc 0) ⊎ ((n : ℕ) × (r ≡ negsuc (suc n))))
result_cases (pos zero) = inl (inl refl)
result_cases (pos (suc more)) = inl (inr (more, refl))
result_cases (negsuc zero) = inr (inl refl)
result_cases (negsuc (suc n)) = inr (inr (n, refl))

module _ (pf : Platform) (fl : Floats) (ends_equal : Bool) where
  open pf use {World}

  PaysResult : Machine → Option (Machine × World) → Type 0
  PaysResult m none = 0 ≤ 0
  PaysResult m (some (n, w)) = Pays 1 m n

  received : List ℕ → Machine → Machine
  received buffer =
      on_cs (λ c. record c { is_close = false; rece_heart_beat = true; buffer = buffer })

  -- The machine that on_read checks.
  counted : List ℕ → ℕ → Machine → Machine
  counted buffer bytes m =
      on_cs (λ c. record c { len = c.len + bytes }) (look_up (received buffer m))

  checked : List ℕ → ℕ → Machine → Check
  checked buffer bytes m =
      let cs = (counted buffer bytes m).cs in check_msg cs.buffer cs.len cs.tcp_flag

  flagged : List ℕ → ℕ → Machine → Machine
  flagged buffer bytes m =
      on_cs (λ c. record c { tcp_flag = (checked buffer bytes m).tcp_flag })
        (counted buffer bytes m)

  on_read-Pays :
      (error has_http : Bool) (buffer : List ℕ) (bytes : ℕ) (m : Machine) (w : World)
      → PaysResult m (on_read pf fl ends_equal error has_http buffer bytes m w)
  unfolding on_read on_cs reset_buffer PaysResult received closing counted checked flagged
  on_read-Pays true has_http buffer bytes m w = finish-frees m (closing (received buffer m)) refl
  on_read-Pays false false buffer bytes m w =
      if-intro (PaysResult m) (replaced m₁) (some (finish (closing (look_up m₁)), w))
        (some (finish (look_up m₁), w)) (finish-frees m (closing (look_up m₁)) silent)
        (finish-frees m (look_up m₁) silent)
    where
      m₁ : Machine
      m₁ = received buffer m

      silent : sent (look_up m₁).actions ≡ sent m.actions
      silent = ap sent (look_up-actions m₁)
  on_read-Pays false true buffer bytes m w = elim (Bool-cases (replaced m₁)) [
    | inl e ↦ rw e (finish-frees m (closing (look_up m₁)) silent)
    | inr e ↦ rw e (elim (result_cases (checked buffer bytes m).result) [
      | inl (inl c) ↦ rw c (elim (Option-cases (process pf fl ends_equal m₃.cs w)) [
        | inl p ↦ rw p (omega arith)
        | inr ((cs, w'), p) ↦ rw p (ends_reading (record m₃ { cs = cs }) silent)
      ])
      | inl (inr (more, c)) ↦
          rw c (finish-frees m (read (suc more) m₃) (read-sent (suc more) m₃ ∙ silent))
      | inr (inl c) ↦ rw c (ends_reading m₃ silent)
      | inr (inr (n, c)) ↦ rw c (finish-frees m (closing m₃) silent)
    ])
  ]
    where
      m₁ : Machine
      m₁ = received buffer m

      m₃ : Machine
      m₃ = flagged buffer bytes m

      silent : sent (look_up m₁).actions ≡ sent m.actions
      silent = ap sent (look_up-actions m₁)

      ends_reading :
          (n : Machine)
          → sent n.actions ≡ sent m.actions
          → Pays 1 m (finish (read 3 (reset_buffer n)))
      ends_reading n none_sent =
          finish-frees m (read 3 (reset_buffer n)) (read-sent 3 (reset_buffer n) ∙ none_sent)

  pub on_read-some-Pays :
      (error has_http : Bool) (buffer : List ℕ) (bytes : ℕ) (m n : Machine) (w w' : World)
      → on_read pf fl ends_equal error has_http buffer bytes m w ≡ some (n, w')
      → Pays 1 m n
  unfolding PaysResult
  on_read-some-Pays error has_http buffer bytes m n w w' e =
      subst (PaysResult m) e (on_read-Pays error has_http buffer bytes m w)
