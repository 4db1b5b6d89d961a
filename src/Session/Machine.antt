-- ===== src/Session/Machine.antt =====
-- src/client_session.cpp: the state of a handler's run, and the operations that the handlers share.
-- The sessions have numbers; 0 is the null pointer.
use modbus_ssa_project.Prelude.{
  ℕ, Bool, true, false, not, ◌&&◌, List, [], ◌∷◌, ◌++◌, if◌then◌else◌, ◌==◌, replicate,
}
use modbus_ssa_project.Prelude.Text.{Text, empty}
use modbus_ssa_project.Prelude.Map.{Map, text_key, get, modify, erase}
use modbus_ssa_project.Session.Record.{Session}

-- What a handler asks of the event loop: to read so many bytes, at once of a registration; to write;
-- to set a timer or cancel both; to run Close on the strand; to start the polling thread.
pub data Action : Type 0 where
  reads : ℕ → Action
  reads_reg : ℕ → Action
  writes : List ℕ → Action
  sets_timer : Action
  sets_slave_timer : Action
  cancels_timers : Action
  runs_close : Action
  starts_thread : Action

-- `did_to_cs` and `sid_to_cs`.
pub record Registry : Type 0 where
  pub did_to_cs : Map Text ℕ
  pub sid_to_cs : Map Text ℕ

-- The session `this`, the global maps, and the actions in their order.
pub record Machine : Type 0 where
  pub this : ℕ
  pub cs : Session
  pub registry : Registry
  pub actions : List Action

unfoldable pub act : Action → Machine → Machine
act a m = record m { actions = m.actions ++ a ∷ [] }

unfoldable pub on_cs : (Session → Session) → Machine → Machine
on_cs f m = record m { cs = f m.cs }

-- toClose
unfoldable pub to_close : Machine → Machine
unfolding act on_cs
to_close m =
    let marked =
      if (m.cs).is_disconnect
      then m
      else on_cs (λ c. record c { is_disconnect = true; timer_active = false }) m in
    act runs_close marked

-- Close; `cancelled` says that `_sock.cancel` reports no error.
unfoldable pub close : Bool → Machine → Machine
unfolding act on_cs
close cancelled m =
    let cs = m.cs in
    let registry : Registry = record {
      did_to_cs =
          if empty cs.did then (m.registry).did_to_cs else erase cs.did (m.registry).did_to_cs;
      sid_to_cs =
          if empty cs.sid then (m.registry).sid_to_cs else erase cs.sid (m.registry).sid_to_cs;
    } in
    let erased = record m { registry = registry } in
    if cs.sock_open && cancelled
    then act cancels_timers (on_cs (λ c. record c { sock_open = false; locked = false }) erased)
    else erased

-- readReg
unfoldable pub read_reg : ℕ → Machine → Machine
unfolding act
read_reg len m = act (reads_reg len) m

-- read
unfoldable pub read : ℕ → Machine → Machine
unfolding act
read len m = if (m.cs).sock_open then act (reads len) m else m

-- write, of the first bytes of a buffer.
unfoldable pub write : List ℕ → Machine → Machine
unfolding act
write bytes m = if (m.cs).sock_open then act (writes bytes) m else m

-- `memset(_data, 0, BUFSIZE); _data_pos = _data;`
unfoldable pub reset_buffer : Machine → Machine
unfolding on_cs
reset_buffer m = on_cs (λ c. record c { buffer = replicate 1024 0; len = 0 }) m

-- init; starting the thread succeeds.
unfoldable pub init : Machine → Machine
unfolding act read_reg
init m = read_reg 19 (act sets_timer (act starts_thread m))

-- `!_did.empty() && did_to_cs[_did] != this`, with the entry that the look-up creates.
unfoldable pub replaced : Machine → Bool
replaced m = not (empty (m.cs).did) && not (get 0 (m.cs).did (m.registry).did_to_cs == m.this)

unfoldable pub look_up : Machine → Machine
look_up m = if empty (m.cs).did then m else record m {
  registry = record (m.registry) {
    did_to_cs = modify 0 (m.cs).did (λ s. s) (m.registry).did_to_cs;
  };
}

-- The end of a handler: `if (_is_close) toClose();`
unfoldable pub finish : Machine → Machine
unfolding to_close
finish m = if (m.cs).is_close then to_close m else m

-- checkDeadline, the heartbeat timer.
unfoldable pub check_deadline : Bool → Machine → Machine
unfolding act on_cs to_close
check_deadline error m =
    if error
    then m
    else if (m.cs).rece_heart_beat
    then act sets_timer (on_cs (λ c. record c { rece_heart_beat = false }) m)
    else to_close m

-- checkSalveDeadline: the mutex is free afterwards, whoever held it.
unfoldable pub check_slave_deadline : Bool → Machine → Machine
unfolding on_cs
check_slave_deadline error m =
    if error
    then m
    else if (m.cs).flag == 0
    then on_cs (λ c. record c { flag = 1; locked = false }) m
    else m

-- onWrite
unfoldable pub on_write : Bool → Machine → Machine
unfolding on_cs finish replaced look_up
on_write error m =
    let m₁ = on_cs (λ c. record c { is_close = false }) m in
    let closing = on_cs (λ c. record c { is_close = true }) in
    if error
    then finish (closing m₁)
    else if replaced m₁
    then finish (closing (look_up m₁))
    else finish (look_up m₁)
