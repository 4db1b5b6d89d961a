-- ===== src/StartUp.antt =====
-- src/main.cpp: the settings, and the steps up to the loop of the agent. What the agent library does
-- in each of them is a parameter.
use modbus_ssa_project.Prelude.{ℕ, List, [], Bool, not, Option, none, some, if◌then◌else◌}
use modbus_ssa_project.Prelude.Int.{ℤ}
use modbus_ssa_project.Prelude.Text.{Text, text, atoi}
use modbus_ssa_project.Config.{read_config}
use modbus_ssa_project.Accept.{Acceptor, io_service_thread}

-- Whether each step succeeds.
pub record AgentLibrary : Type 0 where
  -- readSrTemplate: the version and the text of the template.
  pub read_sr_template : Option (Text × Text)
  -- bootstrap of an agent with this server and device id.
  pub bootstrap : Text → Text → Bool
  -- integrate, with the template.
  pub integrate : Text → Text → Text → Text → Bool
  -- The start of the push of operations, for the server.
  pub push_start : Text → Bool

-- What accepts devices: its port, the heartbeat's time and the template's version.
pub record Listening : Type 0 where
  pub port : ℤ
  pub tms : ℤ
  pub srversion : Text
  pub acceptor : Acceptor

pub data Started : Type 0 where
  no_template : Started
  no_credential : Started
  not_integrated : Started
  no_push : Started
  runs : Listening → Started

-- main, with the bytes of ./conf/agentdtu.conf; `none` is a file that cannot be opened.
unfoldable pub main : AgentLibrary → Option (List ℕ) → Started
main lib file =
    let device_id = read_config file (text "device_id") [] in
    let server = read_config file (text "server") [] in
    let tms = read_config file (text "hbTimerOut") [] in
    let port = read_config file (text "port") [] in
    elim lib.read_sr_template [
      | none ↦ no_template
      | some (srversion, srtemplate) ↦
          if not (lib.bootstrap server device_id)
          then no_credential
          else if not (lib.integrate server device_id srversion srtemplate)
          then not_integrated
          else if not (lib.push_start server)
          then no_push
          else runs (record {
            port = atoi port;
            tms = atoi tms;
            srversion = srversion;
            acceptor = io_service_thread;
          })
    ]
