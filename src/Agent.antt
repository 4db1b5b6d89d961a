-- ===== src/Agent.antt =====
-- src/agent_msg_handler.cpp: operations that the platform sends to the gateway.
pub mod Finding
pub mod Sound
pub mod Stall
use modbus_ssa_project.Prelude.{
  ℕ, zero, suc, true, not, ◌||◌, List, [], ◌∷◌, ◌++◌, none, some, if◌then◌else◌, ◌==◌,
}
use modbus_ssa_project.Prelude.Text.{Text, text, empty, atoi, to_string}
use modbus_ssa_project.Prelude.Map.{Map, text_key, get, modify, lookup}
use modbus_ssa_project.Model.{SrRecord, Floats, MbDevices}
use modbus_ssa_project.Model.Dispatch.{Handled, handled, bad_call, undefined, is}
use modbus_ssa_project.Platform.{Platform}
use modbus_ssa_project.C8y.Load.{add_devices}
use modbus_ssa_project.Session.Record.{Session}
use modbus_ssa_project.Session.Registration.{thousand}
use modbus_ssa_project.Session.Polling.{ModbusLibrary}

-- The sessions of the gateway by their numbers, the global maps, and the requests that are written:
-- the session and the bytes.
pub record Gateway : Type 0 where
  pub sessions : ℕ → Session
  pub did_to_cs : Map Text ℕ
  pub sid_to_cs : Map Text ℕ
  pub written : List (ℕ × List ℕ)

abbrev pub update_session : ℕ → (Session → Session) → Gateway → Gateway
update_session n f g = record g {
  sessions = λ k. if k == n then f (g.sessions k) else g.sessions k;
}

-- "设备不在线" and "系统繁忙请稍后再试", in UTF-8.
abbrev pub offline : Text
offline =
    0xE8 ∷ 0xAE ∷ 0xBE ∷ 0xE5 ∷ 0xA4 ∷ 0x87 ∷ 0xE4 ∷ 0xB8 ∷ 0x8D ∷ 0xE5 ∷ 0x9C ∷ 0xA8 ∷ 0xE7 ∷ 0xBA
    ∷ 0xBF ∷ []

abbrev pub busy : Text
busy =
    0xE7 ∷ 0xB3 ∷ 0xBB ∷ 0xE7 ∷ 0xBB ∷ 0x9F ∷ 0xE7 ∷ 0xB9 ∷ 0x81 ∷ 0xE5 ∷ 0xBF ∷ 0x99 ∷ 0xE8 ∷ 0xAF
    ∷ 0xB7 ∷ 0xE7 ∷ 0xA8 ∷ 0x8D ∷ 0xE5 ∷ 0x90 ∷ 0x8E ∷ 0xE5 ∷ 0x86 ∷ 0x8D ∷ 0xE8 ∷ 0xAF ∷ 0x95 ∷ []

-- `sid_to_cs[sid]`, with the null entry that the look-up creates.
unfoldable pub find_session : Text → Gateway → ℕ × Gateway
find_session sid g =
    let table = modify 0 sid (λ n. n) g.sid_to_cs in
    (get 0 sid table, record g { sid_to_cs = table })

-- `null_session`: an entry of `did_to_cs` is null, and is read through.
pub data Search : Type 0 where
  free : ℕ → MbDevices → Search
  nobody : Search
  null_session : Search

module _ (pf : Platform) (fl : Floats) (mb : ModbusLibrary) where
  open pf use {World, post}

  -- setValue: the request of a switch (833) or of a register (834), written to a session.
  unfoldable pub set_value : Text → SrRecord → MbDevices → Gateway → Gateway
  unfolding find_session
  set_value sid r mbd g =
      let addr = atoi (r.value 4) in
      let slave = atoi mbd.slave in
      let mode = if empty mbd.addr then text "RTU" else text "TCP" in
      let req =
        if is r (text "833")
        then mb.write_co mode slave addr (atoi (r.value 5))
        else mb.write_hr mode slave addr (atoi (r.value 7)) in
      let (n, g') = find_session sid g in
      if not (mb.init_ok mode slave)
      then g
      else if n == 0
      then g'
      else if (g'.sessions n).sock_open
      then record g' { written = g'.written ++ (n, req) ∷ [] }
      else g'

  -- The search through the sessions, in the order of the device ids, for one that has the child
  -- device and whose mutex is free. The first part counts the sessions before it that have the device
  -- and are busy. A busy session is one whose mutex stays held through all the attempts to take it.
  unfoldable pub find_free : Text → (ℕ → Session) → Map Text ℕ → ℕ × Search
  find_free sid sessions [] = (0, nobody)
  find_free sid sessions ((did, zero) ∷ m) = (0, null_session)
  find_free sid sessions ((did, suc n) ∷ m) =
      let rest = find_free sid sessions m in
      elim (lookup sid (sessions (suc n)).mbdevices) [
        | none ↦ rest
        | some mbd ↦
            if (sessions (suc n)).locked then (suc rest.0, rest.1) else (0, free (suc n) mbd)
      ]

  -- One message for each busy session.
  unfoldable pub post_busy : Text → ℕ → World → World
  post_busy ops_id zero w = w
  post_busy ops_id (suc n) w =
      post_busy ops_id n (post (text "304," ++ (ops_id ++ (text "," ++ busy))) w).1

  -- 833 and 834. The mutex that is taken is given back when the device answers.
  unfoldable pub set_operation : SrRecord → Gateway → World → Handled Gateway × World
  unfolding set_value find_free post_busy
  set_operation r g w =
      let ops_id = r.value 2 in
      let executing = (post (text "303," ++ (ops_id ++ (text ",EXECUTING" ++ 10 ∷ []))) w).1 in
      let success = text "303," ++ (ops_id ++ (text ",SUCCESSFUL" ++ 10 ∷ [])) in
      let (busy_ones, found) = find_free (r.value 3) g.sessions g.did_to_cs in
      let told = post_busy ops_id busy_ones executing in
      elim found [
        | nobody ↦ (handled g, (post success told).1)
        | null_session ↦ (undefined, told)
        | free n mbd ↦ (
          handled (
              set_value (g.sessions n).sid r mbd
                (update_session n (λ c. record c { locked = true }) g)),
          (post success told).1,
        )
      ]

  -- 832 and 847: a device is added to a session that is on line.
  unfoldable pub add_operation : SrRecord → Gateway → World → Handled Gateway × World
  unfolding find_session
  add_operation r g w =
      let ops_id = r.value 8 in
      let (n, g') = find_session (r.value 6) g in
      let refused = (post (text "304," ++ (ops_id ++ (text "," ++ offline))) w).1 in
      let done =
        text "303,"
        ++ (ops_id
            ++ (text ",EXECUTING"
                ++ (10 ∷ [] ++ (text "303," ++ (ops_id ++ (text ",SUCCESSFUL" ++ 10 ∷ [])))))) in
      let (added, w') = add_devices pf fl r (g'.sessions n) w in
      if n == 0 then (handled g', refused) else elim added [
        | handled cs ↦ (handled (update_session n (λ c. cs) g'), (post done w').1)
        | bad_call cs ↦ (bad_call (update_session n (λ c. cs) g'), w')
        | undefined ↦ (undefined, w')
      ]

  -- 817: the polling rate of a session.
  unfoldable pub rate_operation : SrRecord → Gateway → World → Gateway × World
  unfolding find_session
  rate_operation r g w =
      let ops_id = r.value 2 in
      let polling_rate = atoi (r.value 3) in
      let transmit_rate = atoi (r.value 4) in
      let sid = r.value 5 in
      let executing = (post (text "303," ++ (ops_id ++ (text ",EXECUTING" ++ 10 ∷ []))) w).1 in
      let (n, g') = find_session sid g in
      let rates =
        text "321,"
        ++ (sid
            ++ (text "," ++ (to_string polling_rate ++ (text "," ++ to_string transmit_rate)))) in
      let success = text "303," ++ (ops_id ++ (text ",SUCCESSFUL" ++ 10 ∷ [])) in
      if n == 0
      then (g', (post (text "304," ++ (ops_id ++ (text "," ++ offline))) executing).1)
      else (
        update_session n (λ c. record c { timer_interval = thousand polling_rate }) g',
        (post success (post rates executing).1).1,
      )

  -- AgentMsgHandler::operator()
  unfoldable pub operate : SrRecord → Gateway → World → Handled Gateway × World
  unfolding add_operation set_operation rate_operation
  operate r g w =
      if is r (text "832") || is r (text "847")
      then add_operation r g w
      else if is r (text "833") || is r (text "834")
      then set_operation r g w
      else if is r (text "817")
      then (let s = rate_operation r g w in (handled s.0, s.1))
      else (handled g, w)
