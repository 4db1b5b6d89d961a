-- ===== src/Timer.antt =====
-- src/timer.cpp and include/timer.h: the timer of a session. Its loop sleeps and runs the handler
-- until the timer is stopped; the end of an interval is kept as seconds and nanoseconds.
pub mod Instant
use modbus_ssa_project.Prelude.{
  ℕ, zero, suc, ◌+◌, ◌*◌, ◌/◌, ◌%◌, Bool, true, false, List, [], ◌∷◌, if◌then◌else◌, leb, not,
}
use modbus_ssa_project.Prelude.Int.{ℤ, pos, negsuc, ◌+ℤ◌, ◌-ℤ◌, eq_ℤ, lt_ℤ, ◌≤ℤ◌}
use modbus_ssa_project.Prelude.Text.{negate}

-- struct timespec.
pub record Timespec : Type 0 where
  pub tv_sec : ℤ
  pub tv_nsec : ℤ

pub record Timer : Type 0 where
  pub beg : Timespec
  pub fire : Timespec
  pub val : ℤ
  pub active : Bool
  -- There is a handler.
  pub connected : Bool

-- The constructor; the times are what the memory holds.
unfoldable pub new_timer : Timespec → Timespec → ℤ → Bool → Timer
new_timer beg fire millisec callback = record {
  beg = beg;
  fire = fire;
  val = millisec;
  active = false;
  connected = callback;
}

-- `operator<=`
unfoldable pub le_time : Timespec → Timespec → Bool
le_time l r =
    if eq_ℤ l.tv_sec r.tv_sec then not (lt_ℤ r.tv_nsec l.tv_nsec) else not (lt_ℤ r.tv_sec l.tv_sec)

-- `/ 1000` and `% 1000` of an int: the quotient is rounded towards 0.
abbrev pub seconds : ℤ → ℤ
seconds (pos n) = pos (n / 1000)
seconds (negsuc n) = negate (suc n / 1000)

abbrev pub rest_nanoseconds : ℤ → ℤ
rest_nanoseconds (pos n) = pos (n % 1000 * 1000000)
rest_nanoseconds (negsuc n) = negate (suc n % 1000 * 1000000)

-- start, at the time `now` of the monotonic clock.
unfoldable pub start : Timespec → Timer → Timer
start now t =
    let sec = now.tv_sec +ℤ seconds t.val in
    let nsec = now.tv_nsec +ℤ rest_nanoseconds t.val in
    let fire : Timespec =
      if lt_ℤ nsec (pos 1000000000)
      then record { tv_sec = sec; tv_nsec = nsec }
      else record { tv_sec = sec +ℤ pos 1; tv_nsec = nsec -ℤ pos 1000000000 } in
    record t { beg = now; fire = fire; active = true }

unfoldable pub stop : Timer → Timer
stop t = record t { active = false }

unfoldable pub set_interval : ℤ → Timer → Timer
set_interval millisec t = record t { val = millisec }

unfoldable pub connect : Timer → Timer
connect t = record t { connected = true }

-- What the loop sleeps for.
abbrev pub pause : Timer → Timespec
pause t = record { tv_sec = seconds t.val; tv_nsec = pos 0 }

-- loop, over what the timer is when each sleep ends: how long it sleeps for each time, and how often
-- it runs the handler.
pub record Looped : Type 0 where
  pub pauses : List Timespec
  pub runs : ℕ

unfoldable pub loop : List Timer → Timer → Looped
loop [] t = record { pauses = pause t ∷ []; runs = 0 }
loop (woken ∷ later) t =
    let rest = loop later woken in
    let pauses = pause t ∷ rest.pauses in
    if woken.active
    then record { pauses = pauses; runs = (if woken.connected then suc rest.runs else rest.runs) }
    else record { pauses = pause t ∷ []; runs = 0 }
