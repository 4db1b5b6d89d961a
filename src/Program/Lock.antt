-- ===== src/Program/Lock.antt =====
-- One request at a time on every line, whatever happens from the start of the gateway on: the mutex
-- of a session (src/client_session.cpp), which the polling thread takes before a request, and
-- AgentMsgHandler (src/agent_msg_handler.cpp) before it writes one for the platform.
pub mod Operations
pub mod Requests
use mathlib.Core.Path.{subst}
use modbus_ssa_project.Prelude.{
  ℕ, ◌+◌, ◌≤◌, ◌==◌, ==_iff, List, [], ◌∷◌, ◌++◌, if◌then◌else◌, ◌≡◌, sym, Bool-cases, inl, inr,
  arith,
}
use modbus_ssa_project.Model.Dispatch.{Handled, handled, bad_call, undefined}
use modbus_ssa_project.Model.WellFormed.{Yields}
use modbus_ssa_project.C8y.Load.Mutex.{SameLock}
use modbus_ssa_project.Session.Record.{Session}
use modbus_ssa_project.Session.Polling.Lock.{sent}
use modbus_ssa_project.Agent.{Gateway, update_session}
use modbus_ssa_project.Program.{Program}

-- The requests of the platform's operations that have been written to a session.
unfoldable pub written_to : ℕ → List (ℕ × List ℕ) → ℕ
written_to s [] = 0
written_to s ((n, request) ∷ rest) = (if n == s then 1 else 0) + written_to s rest

-- All the requests of a session, those of its thread and those of operations.
unfoldable pub requests_of : ℕ → Program → ℕ
unfolding written_to
requests_of s g = sent (g.actions s) + written_to s (g.gateway).written

pub written_to-++ :
    (s : ℕ) (xs ys : List (ℕ × List ℕ))
    → written_to s (xs ++ ys) ≡ written_to s xs + written_to s ys
unfolding written_to
written_to-++ s [] ys = omega arith
written_to-++ s ((n, request) ∷ xs) ys = omega (arith, written_to-++ s xs ys)

-- 1 if the mutex of the session is held.
abbrev pub holds : ℕ → Gateway → ℕ
holds s g = if (g.sessions s).locked then 1 else 0

-- Where no more than `freed` events free the mutex of `s`, each other request to `s` finds it held.
unfoldable pub Owes : ℕ → ℕ → Gateway → Gateway → Type 0
Owes s freed g h = written_to s h.written + holds s g ≤ written_to s g.written + holds s h + freed

pub weaken :
    (s j : ℕ) (g : Gateway) (o : Handled Gateway) → Yields (Owes s 0 g) o → Yields (Owes s j g) o
unfolding Owes
weaken s j g (handled h) e = omega (arith, e)
weaken s j g (bad_call h) e = omega (arith, e)
weaken s j g undefined e = tt

-- A session changed without its mutex.
pub updated-Owes :
    (s n : ℕ) (f : Session → Session) (g : Gateway)
    → SameLock (g.sessions n) (f (g.sessions n))
    → Owes s 0 g (update_session n f g)
unfolding Owes
updated-Owes s n f g same = elim (Bool-cases (s == n)) [
  | inl e ↦
      let here =
        subst (λ k. SameLock (g.sessions k) (f (g.sessions k))) (sym ((==_iff s n).0 e)) same in
      rw (e, here) (omega arith)
  | inr e ↦ rw e (omega arith)
]
