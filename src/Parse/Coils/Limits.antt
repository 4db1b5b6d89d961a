-- ===== src/Parse/Coils/Limits.antt =====
-- How much parseCO and parseDI of src/modbus_p.cpp can read: the bits of a response go into 32.
use modbus_ssa_project.Prelude.{
  ℕ, zero, suc, ◌≤◌, Bool, List, none, ◌≡◌, refl, Option-cases, inl, inr, arith,
}
use modbus_ssa_project.Model.Position
use modbus_ssa_project.Frame.{byte}
use modbus_ssa_project.Parse.Coils.{collect, locate, parse_co, parse_di}
use modbus_ssa_project.Session.Record.{Session}

collect_long : (buffer : List ℕ) (n : ℕ) → 5 ≤ n → collect buffer 0 n 0 ≡ none
unfolding collect
collect_long buffer (suc (suc (suc (suc (suc n))))) long = refl
collect_long buffer zero long = absurd (omega arith)
collect_long buffer (suc zero) long = absurd (omega arith)
collect_long buffer (suc (suc zero)) long = absurd (omega arith)
collect_long buffer (suc (suc (suc zero))) long = absurd (omega arith)
collect_long buffer (suc (suc (suc (suc zero)))) long = absurd (omega arith)

-- A response with more than four bytes of coils or discrete inputs is undefined behaviour, whatever
-- the session is: its fifth byte is shifted by 32.
pub parse_long_undefined :
    (ends_equal : Bool) (cs : Session)
    → 5 ≤ byte cs.buffer 2
    → (parse_co ends_equal cs ≡ none) × (parse_di ends_equal cs ≡ none)
unfolding parse_co parse_di
parse_long_undefined ends_equal cs long = (
  elim (Option-cases (locate Position.co_pos cs)) [
    | inl e ↦ rw e refl
    | inr (l, e) ↦ rw (e, collect_long cs.buffer (byte cs.buffer 2) long) refl
  ],
  elim (Option-cases (locate Position.di_pos cs)) [
    | inl e ↦ rw e refl
    | inr (l, e) ↦ rw (e, collect_long cs.buffer (byte cs.buffer 2) long) refl
  ],
)
