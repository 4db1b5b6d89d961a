-- ===== src/Program.antt =====
-- The gateway at run time: devices are accepted (src/io_service_thread.cpp), each gets a session with
-- a polling thread and handlers (src/client_session.cpp), and the platform asks for operations
-- (src/agent_msg_handler.cpp). All of them share did_to_cs and sid_to_cs, and take turns in any order.
pub mod Safety
pub mod Lock
use modbus_ssa_project.Prelude.{
  ℕ, ◌+◌, Bool, true, false, ◌||◌, List, [], ◌∷◌, map, some, if◌then◌else◌, ◌==◌, ◌≡◌,
}
use modbus_ssa_project.Prelude.Text.{text}
use modbus_ssa_project.Model.{SrRecord, Floats}
use modbus_ssa_project.Model.Dispatch.{handled, bad_call, is}
use modbus_ssa_project.Platform.{Platform}
use modbus_ssa_project.Accept.{
  Accepted, failed, gone, connected, Acceptor, process_accept, io_service_thread,
}
use modbus_ssa_project.Session.Record.{new_session}
use modbus_ssa_project.Session.Machine.{Action, Machine, init, on_cs}
use modbus_ssa_project.Session.Registration.{on_read_reg}
use modbus_ssa_project.Session.Polling.{ModbusLibrary, Place, first_device, at_end}
use modbus_ssa_project.Session.Polling.History.{Event}
use modbus_ssa_project.Agent.{Gateway, find_session, free, nobody, null_session, find_free, operate}

-- The sessions and the global maps, the acceptor, where each session's thread stands, and what each
-- session has asked of the event loop.
pub record Program : Type 0 where
  pub gateway : Gateway
  pub acceptor : Acceptor
  pub places : ℕ → Place
  pub actions : ℕ → List Action

abbrev pub put_at {ℓ} : {A : Type ℓ} → ℕ → A → (ℕ → A) → ℕ → A
put_at n a f k = if k == n then a else f k

-- The session with the global maps, as its handlers see it.
abbrev pub machine_of : ℕ → Program → Machine
machine_of n g = record {
  this = n;
  cs = (g.gateway).sessions n;
  registry = record { did_to_cs = (g.gateway).did_to_cs; sid_to_cs = (g.gateway).sid_to_cs };
  actions = g.actions n;
}

-- What a handler or the thread of a session leaves.
unfoldable pub put_machine : ℕ → Place → Machine → Program → Program
put_machine n p m g = record {
  gateway = record {
    sessions = put_at n m.cs (g.gateway).sessions;
    did_to_cs = (m.registry).did_to_cs;
    sid_to_cs = (m.registry).sid_to_cs;
    written = (g.gateway).written;
  };
  acceptor = g.acceptor;
  places = put_at n p g.places;
  actions = put_at n m.actions g.actions;
}

-- An accept ends; the session of a device that is connected starts its thread and timer.
unfoldable pub accept : Accepted → ℕ → Program → Program
unfolding process_accept init on_cs put_machine
accept failed n g = record g { acceptor = process_accept failed n g.acceptor }
accept gone n g = record g { acceptor = process_accept gone n g.acceptor }
accept connected n g =
    let opened = on_cs (λ c. record c { sock_open = true; timer_active = true }) (machine_of n g) in
    put_machine n at_end (init opened)
      (record g { acceptor = process_accept connected n g.acceptor })

-- The agent and the acceptor have started, and there is no device yet. The argument is what the
-- memory holds of each session's buffer.
unfoldable pub started : (ℕ → List ℕ) → Program
unfolding io_service_thread new_session
started memory = record {
  gateway = record {
    sessions = λ n. new_session (memory n);
    did_to_cs = [];
    sid_to_cs = [];
    written = [];
  };
  acceptor = io_service_thread;
  places = λ n. at_end;
  actions = λ n. [];
}

-- `init` of the session has been called.
unfoldable pub is_among : ℕ → List ℕ → Bool
is_among n [] = false
is_among n (k ∷ ks) = n == k || is_among n ks

module _ (mb : ModbusLibrary) (pf : Platform) (fl : Floats) (ends_equal : Bool) where
  open pf use {World}

  -- 1 for an operation whose request would go to the session `s` by sid_to_cs, though the mutex that it
  -- takes is that of another session.
  unfoldable pub strays : ℕ → SrRecord → Gateway → ℕ
  unfolding find_free find_session
  strays s r g =
      if is r (text "833") || is r (text "834")
      then elim (find_free pf fl mb (r.value 3) g.sessions g.did_to_cs).1 as (λ _. ℕ) [
        | nobody ↦ 0
        | null_session ↦ 0
        | free n mbd ↦
            if n == s then 0 else if (find_session (g.sessions n).sid g).0 == s then 1 else 0
      ]
      else 0

  -- One of them takes its turn. The number counts, of the session `s`, the events that free its mutex, as in
  -- Session.Polling.History, and the strays.
  pub data Step (s : ℕ) : Program → ℕ → Program → Type 0 where
    accepts :
        {g : Program} (n : ℕ) (end : Accepted)
        → (g.acceptor).waiting ≡ some n
        → Step s g 0 (accept end n g)
    runs :
        {g : Program} (n : ℕ) {j : ℕ} {q : Place} {m : Machine}
        → is_among n (g.acceptor).initialised ≡ true
        → Event mb pf fl ends_equal (g.places n) (machine_of n g) j q m
        → Step s g (if n == s then j else 0) (put_machine n q m g)
    registers :
        {g : Program} (n : ℕ) {m : Machine} (error has_http : Bool) (buffer : List ℕ) (bytes : ℕ)
        (w w' : World)
        → is_among n (g.acceptor).initialised ≡ true
        → on_read_reg pf fl error has_http buffer bytes (machine_of n g) w ≡ some (m, w')
        → Step s g 0 (put_machine n (g.places n) m g)
    -- The timer wakes the thread, which walks the devices.
    wakes :
        {g : Program} (n : ℕ)
        → is_among n (g.acceptor).initialised ≡ true
        → g.places n ≡ at_end
        → ((g.gateway).sessions n).timer_active ≡ true
        → Step s g 0
            (put_machine n (first_device ((g.gateway).sessions n).mbdevices) (machine_of n g) g)
    operates :
        {g : Program} {h : Gateway} (r : SrRecord) (w w' : World)
        → operate pf fl mb r g.gateway w ≡ (handled h, w')
        → Step s g (strays s r g.gateway) (record g { gateway = h })
    operates_partly :
        {g : Program} {h : Gateway} (r : SrRecord) (w w' : World)
        → operate pf fl mb r g.gateway w ≡ (bad_call h, w')
        → Step s g (strays s r g.gateway) (record g { gateway = h })

  pub data Run (s : ℕ) : Program → ℕ → Program → Type 0 where
    begins : {g : Program} → Run s g 0 g
    goes_on : {g h i : Program} {j k : ℕ} → Run s g j h → Step s h k i → Run s g (j + k) i
