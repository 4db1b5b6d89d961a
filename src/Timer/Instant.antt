-- ===== src/Timer/Instant.antt =====
-- The times of a timer as whole numbers of nanoseconds.
use modbus_ssa_project.Prelude.{ℕ, ◌+◌, ◌*◌, ◌≤◌, true, List, [], ◌∷◌, length, All, ◌≡◌, ◌↔◌, arith}
use modbus_ssa_project.Prelude.Int.{pos, pos_part, neg_part, ◌+ℤ◌, ◌-ℤ◌, ◌≤ℤ◌, ◌<ℤ◌}
use modbus_ssa_project.Timer.{Timespec, Timer, le_time, start, loop}

-- Nanoseconds below a second.
abbrev pub IsNormal : Timespec → Type 0
IsNormal t = (pos 0 ≤ℤ t.tv_nsec) × (t.tv_nsec <ℤ pos 1000000000)

-- At or before, by the whole numbers of nanoseconds.
abbrev NotAfter : Timespec → Timespec → Type 0
NotAfter l r =
    pos_part l.tv_sec * 1000000000
      + pos_part l.tv_nsec
      + neg_part r.tv_sec * 1000000000
      + neg_part r.tv_nsec
    ≤ pos_part r.tv_sec * 1000000000
      + pos_part r.tv_nsec
      + neg_part l.tv_sec * 1000000000
      + neg_part l.tv_nsec

-- On normal times `<=` compares the nanoseconds.
le_time-NotAfter : (l r : Timespec) → IsNormal l → IsNormal r → (le_time l r ≡ true) ↔ NotAfter l r
unfolding le_time
le_time-NotAfter l r hl hr = ground arith

-- `later` is `n` milliseconds behind `now`.
abbrev pub IsBehind : ℕ → Timespec → Timespec → Type 0
IsBehind n now later =
    pos_part later.tv_sec * 1000000000
      + pos_part later.tv_nsec
      + neg_part now.tv_sec * 1000000000
      + neg_part now.tv_nsec
    ≡ pos_part now.tv_sec * 1000000000
      + pos_part now.tv_nsec
      + neg_part later.tv_sec * 1000000000
      + neg_part later.tv_nsec
      + n * 1000000

-- Where the clock gives a normal time and the interval is not negative, the time of firing is normal
-- and exactly the interval later, and by `<=` it is not before the start.
pub start-IsBehind :
    (now : Timespec) (t : Timer) (n : ℕ)
    → t.val ≡ pos n
    → IsNormal now
    → IsNormal (start now t).fire
      × IsBehind n now (start now t).fire
      × (le_time now (start now t).fire ≡ true)
unfolding start ◌+ℤ◌ ◌-ℤ◌ le_time
start-IsBehind now t n e h = ground arith

-- Active, with a handler and an interval below a second.
abbrev pub IsFast : Timer → Type 0
IsFast t = (t.active ≡ true) × (t.connected ≡ true) × (pos 0 ≤ℤ t.val) × (t.val <ℤ pos 1000)

-- Every sleep is of no seconds and no nanoseconds.
abbrev pub Sleepless : List Timespec → Type 0
Sleepless [] = Unit
Sleepless (t ∷ ts) = (t ≡ record { tv_sec = pos 0; tv_nsec = pos 0 }) × Sleepless ts

-- An interval of less than a second is no sleep at all: as long as the timer is active and has a
-- handler, whatever else becomes of it, the loop runs the handler once for each time it wakes, and
-- none of its sleeps takes any time.
pub loop-Sleepless :
    (woken : List Timer) (t : Timer)
    → IsFast t
    → All IsFast woken
    → Sleepless (loop woken t).pauses × ((loop woken t).runs ≡ length woken)
unfolding loop
loop-Sleepless [] t h hw = ground arith
loop-Sleepless (w ∷ woken) t h hw = ground (arith, loop-Sleepless woken w hw.0 hw.1)
