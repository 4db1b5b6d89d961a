-- ===== src/Agent/Finding.antt =====
-- The search of AgentMsgHandler::operator() (src/agent_msg_handler.cpp) for a session that can take
-- a request of the platform.
use modbus_ssa_project.Prelude.{
  ℕ, zero, suc, true, false, [], ◌∷◌, none, some, ◌≡◌, ◌≢◌, ◌⊎◌, arith,
}
use modbus_ssa_project.Prelude.Text.{Text}
use modbus_ssa_project.Prelude.Map.{Map, text_key, lookup, AllValues}
use modbus_ssa_project.Model.{Floats, MbDevices}
use modbus_ssa_project.Platform.{Platform}
use modbus_ssa_project.Session.Record.{Session}
use modbus_ssa_project.Session.Polling.{ModbusLibrary}
use modbus_ssa_project.Agent.{free, nobody, find_free}

module _ (pf : Platform) (fl : Floats) (mb : ModbusLibrary) where
  -- The session that the search finds is not the null pointer, has the child device with these data,
  -- and its mutex is free.
  pub find_free-free :
      (sid : Text) (sessions : ℕ → Session) (m : Map Text ℕ) (n : ℕ) (mbd : MbDevices)
      → (find_free pf fl mb sid sessions m).1 ≡ free n mbd
      → (n ≢ 0) × ((lookup sid (sessions n).mbdevices ≡ some mbd) × ((sessions n).locked ≡ false))
  unfolding find_free
  find_free-free sid sessions [] n mbd e = ground arith
  find_free-free sid sessions ((did, zero) ∷ m) n mbd e = ground arith
  find_free-free sid sessions ((did, suc k) ∷ m) n mbd e =
      ground (arith, find_free-free sid sessions m n mbd)

  -- Where the search finds nobody, each session of the map lacks the child device or is busy.
  find_free-nobody :
      (sid : Text) (sessions : ℕ → Session) (m : Map Text ℕ)
      → (find_free pf fl mb sid sessions m).1 ≡ nobody
      → AllValues (λ n. (lookup sid (sessions n).mbdevices ≡ none) ⊎ ((sessions n).locked ≡ true)) m
  unfolding find_free
  find_free-nobody sid sessions [] e = tt
  find_free-nobody sid sessions ((did, zero) ∷ m) e = ground arith
  find_free-nobody sid sessions ((did, suc k) ∷ m) e =
      (ground arith, find_free-nobody sid sessions m (ground arith))
