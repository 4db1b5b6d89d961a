-- ===== src/Session/Polling/Complete.antt =====
-- What a round asks a slave for (operator() of src/client_session.cpp) while it answers in time: the
-- mutex is free at each step of the thread, and neither the slave's time nor the session ends.
use mathlib.Core.Path.{subst}
use mathlib.Core.List.{append_assoc, append-nil}
use modbus_ssa_project.Prelude.{
  ℕ, ◌+◌, ◌==◌, true, false, List, [], ◌∷◌, ◌++◌, some, get_elem?, ◌≡◌, refl, ap, sym, ◌∙◌,
}
use modbus_ssa_project.Prelude.Int.{ℤ, eq_ℤ_iff}
use modbus_ssa_project.Prelude.Text.{Text, to_string}
use modbus_ssa_project.Prelude.Map.{Map, text_key, get}
use modbus_ssa_project.Model.{RangeMap}
use modbus_ssa_project.Session.Machine.{Action, writes, Machine, act, on_cs, write}
use modbus_ssa_project.Session.Polling.{
  ModbusLibrary, Polled, Place, at_next, at_kind, at_range, goes, request, poll_step, same_ranges,
  same_vector,
}

abbrev pub freed : Machine → Machine
freed m = record m { cs = record (m.cs) { locked = false } }

-- The slave's time has not run out, the session goes on, and its ranges are `table`.
abbrev pub IsReady : Map Text (List RangeMap) → Machine → Type 0
IsReady table m =
    ((m.cs).flag ≡ 0)
    × ((m.cs).is_close ≡ false)
    × ((m.cs).sock_open ≡ true)
    × (((m.cs).mbtypes).typenum ≡ table)

same_ranges_self : (m : RangeMap) → same_ranges m m ≡ true
unfolding same_ranges
same_ranges_self [] = refl
same_ranges_self ((a, b) ∷ m) =
    rw ((eq_ℤ_iff a a).1 refl, (eq_ℤ_iff b b).1 refl, same_ranges_self m) refl

same_vector_self : (v : List RangeMap) → same_vector v v ≡ true
unfolding same_vector
same_vector_self [] = refl
same_vector_self (m ∷ v) = rw (same_ranges_self m, same_vector_self v) refl

module _ (mb : ModbusLibrary) where
  -- Steps of the thread, each of which finds the mutex free.
  pub data Polls : Place → Machine → Place → Machine → Type 0 where
    stays : {p : Place} {m : Machine} → Polls p m p m
    steps :
        {p q r : Place} {m n o : Machine}
        → poll_step mb p (freed m) ≡ goes q n
        → Polls q n r o
        → Polls p m r o

  -- The requests for the ranges of a register kind.
  pub requests_for : Polled → ℕ → RangeMap → List Action
  requests_for d kind [] = []
  requests_for d kind ((first, count) ∷ ranges) =
      writes (mb.read_bat d.mode d.slave first count (kind + 1)) ∷ requests_for d kind ranges

  -- The thread comes from one place to another, with these requests and no other action.
  pub record Asks (table : Map Text (List RangeMap)) (p : Place) (m : Machine) (q : Place)
      (sent : List Action) : Type 0 where
    pub last : Machine
    pub polls : Polls p m q last
    pub ready : IsReady table last
    pub said : last.actions ≡ m.actions ++ sent

  asked : Polled → ℕ → ℤ → ℤ → Machine → Machine
  asked d kind first count m = record m {
    cs = record (m.cs) { locked = true; current_num = to_string first };
    actions = m.actions ++ writes (mb.read_bat d.mode d.slave first count (kind + 1)) ∷ [];
  }

  ask_step :
      (table : Map Text (List RangeMap)) (sid : Text) (d : Polled) (kind : ℕ)
      (vector : List RangeMap) (first count : ℤ) (ranges : RangeMap) (m : Machine)
      → IsReady table m
      → get [] d.type table ≡ vector
      → poll_step mb (at_range sid d kind vector ((first, count) ∷ ranges)) (freed m)
        ≡ goes (at_range sid d kind vector ranges) (asked d kind first count m)
  unfolding poll_step request on_cs write act asked
  ask_step table sid d kind vector first count ranges m ready there =
      rw (ready.0, unchanged, ready.1, ready.2) refl
    where
      unchanged : same_vector vector (get [] d.type ((m.cs).mbtypes).typenum) ≡ true
      unchanged =
          ap (same_vector vector) (ap (get [] d.type) ready.3 ∙ there) ∙ same_vector_self vector

  after_step :
      (table : Map Text (List RangeMap)) (p q r : Place) (m n : Machine) (xs ys : List Action)
      → poll_step mb p (freed m) ≡ goes q n
      → n.actions ≡ m.actions ++ xs
      → Asks table q n r ys
      → Asks table p m r (xs ++ ys)
  after_step table p q r m n xs ys e same later = record {
    last = later.last;
    polls = steps e later.polls;
    ready = later.ready;
    said = later.said ∙ (ap (λ t. t ++ ys) same ∙ append_assoc m.actions xs ys);
  }

  then-Polls : (p q r : Place) (m n o : Machine) → Polls p m q n → Polls q n r o → Polls p m r o
  then-Polls p q r m n o stays later = later
  then-Polls p q r m n o (steps {q = q'} {n = n'} e more) later =
      steps e (then-Polls q' q r n' n o more later)

  then-Asks :
      (table : Map Text (List RangeMap)) (p q r : Place) (m : Machine) (xs ys : List Action)
      → (a : Asks table p m q xs) → Asks table q a.last r ys
      → Asks table p m r (xs ++ ys)
  then-Asks table p q r m xs ys a b = record {
    last = b.last;
    polls = then-Polls p q r m a.last b.last a.polls b.polls;
    ready = b.ready;
    said = b.said ∙ (ap (λ t. t ++ ys) a.said ∙ append_assoc m.actions xs ys);
  }

  range-Asks :
      (table : Map Text (List RangeMap)) (sid : Text) (d : Polled) (kind : ℕ)
      (vector : List RangeMap) (ranges : RangeMap) (m : Machine)
      → IsReady table m
      → get [] d.type table ≡ vector
      → Asks table
          (at_range sid d kind vector ranges)
          m
          (at_kind sid d (kind + 1))
          (requests_for d kind ranges)
  unfolding poll_step asked requests_for
  range-Asks table sid d kind vector [] m ready there = record {
    last = freed m;
    polls = steps refl stays;
    ready = ready;
    said = sym (append-nil m.actions);
  }
  range-Asks table sid d kind vector ((first, count) ∷ ranges) m ready there =
      after_step table (at_range sid d kind vector ((first, count) ∷ ranges))
        (at_range sid d kind vector ranges) (at_kind sid d (kind + 1)) m
        (asked d kind first count m) _ (requests_for d kind ranges)
        (ask_step table sid d kind vector first count ranges m ready there) refl
        (range-Asks table sid d kind vector ranges (asked d kind first count m) ready there)

  kind-Asks :
      (table : Map Text (List RangeMap)) (sid : Text) (d : Polled) (kind : ℕ) (ranges : RangeMap)
      (m : Machine)
      → IsReady table m
      → (kind == 4) ≡ false
      → get_elem? (get [] d.type table) kind ≡ some ranges
      → Asks table (at_kind sid d kind) m (at_kind sid d (kind + 1)) (requests_for d kind ranges)
  unfolding poll_step
  kind-Asks table sid d kind ranges m ready below found =
      after_step table (at_kind sid d kind)
        (at_range sid d kind (get [] d.type ((m.cs).mbtypes).typenum) ranges)
        (at_kind sid d (kind + 1)) m (freed m) [] (requests_for d kind ranges)
        (rw (below, found_there) refl) (sym (append-nil m.actions))
        (range-Asks table sid d kind (get [] d.type ((m.cs).mbtypes).typenum) ranges (freed m) ready
          (sym (ap (get [] d.type) ready.3)))
    where
      found_there : get_elem? (get [] d.type ((m.cs).mbtypes).typenum) kind ≡ some ranges
      found_there = ap (λ t. get_elem? (get [] d.type t) kind) ready.3 ∙ found

  -- A slave that answers in time is asked for every range of its type: from before its coils the
  -- thread comes to the end of the slave, with one request for each range of the four kinds, in the order of
  -- the kinds and of the ranges, and with no other action.
  pub device-Asks :
      (sid : Text) (d : Polled) (co di hr ir : RangeMap) (more : List RangeMap) (m : Machine)
      (table : Map Text (List RangeMap))
      → IsReady table m
      → get [] d.type table ≡ co ∷ di ∷ hr ∷ ir ∷ more
      → Asks table (at_kind sid d 0) m (at_next sid) (
          requests_for d 0 co
          ++ (requests_for d 1 di ++ (requests_for d 2 hr ++ requests_for d 3 ir)))
  unfolding poll_step
  device-Asks sid d co di hr ir more m table ready e =
      then-Asks table (at_kind sid d 0) (at_kind sid d 1) (at_next sid) m (requests_for d 0 co) _
        coils
        (then-Asks table (at_kind sid d 1) (at_kind sid d 2) (at_next sid) coils.last
          (requests_for d 1 di) _ inputs
          (then-Asks table (at_kind sid d 2) (at_kind sid d 3) (at_next sid) inputs.last
            (requests_for d 2 hr) (requests_for d 3 ir) holding the_rest))
    where
      coils : Asks table (at_kind sid d 0) m (at_kind sid d 1) (requests_for d 0 co)
      coils = kind-Asks table sid d 0 co m ready refl (ap (λ l. get_elem? l 0) e)

      inputs : Asks table (at_kind sid d 1) coils.last (at_kind sid d 2) (requests_for d 1 di)
      inputs = kind-Asks table sid d 1 di coils.last coils.ready refl (ap (λ l. get_elem? l 1) e)

      holding : Asks table (at_kind sid d 2) inputs.last (at_kind sid d 3) (requests_for d 2 hr)
      holding = kind-Asks table sid d 2 hr inputs.last inputs.ready refl (ap (λ l. get_elem? l 2) e)

      last_kind : Asks table (at_kind sid d 3) holding.last (at_kind sid d 4) (requests_for d 3 ir)
      last_kind =
          kind-Asks table sid d 3 ir holding.last holding.ready refl (ap (λ l. get_elem? l 3) e)

      leaves : Asks table (at_kind sid d 4) last_kind.last (at_next sid) []
      leaves = record {
        last = freed last_kind.last;
        polls = steps refl stays;
        ready = last_kind.ready;
        said = sym (append-nil (last_kind.last).actions);
      }

      the_rest : Asks table (at_kind sid d 3) holding.last (at_next sid) (requests_for d 3 ir)
      the_rest =
          subst (Asks table (at_kind sid d 3) holding.last (at_next sid))
            (append-nil (requests_for d 3 ir))
            (then-Asks table (at_kind sid d 3) (at_kind sid d 4) (at_next sid) holding.last
              (requests_for d 3 ir) [] last_kind leaves)
