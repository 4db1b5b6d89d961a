-- ===== src/Platform.antt =====
-- The Quark platform as the agent library shows it (SrNetHttp, SmartRest): its state is that of the
-- connection and of what it has answered.
use modbus_ssa_project.Prelude.{List}
use modbus_ssa_project.Prelude.Int.{ℤ}
use modbus_ssa_project.Prelude.Text.{Text}
use modbus_ssa_project.Model.{SrRecord}

pub record Platform : Type 1 where
  pub World : Type 0
  -- `post`, with its result: not positive if it failed.
  pub post : Text → World → ℤ × World
  -- The lines of the answer, up to the first empty one.
  pub response : World → List SrRecord
  pub clear : World → World
  -- `post` of a new connection under the id of a template collection.
  pub post_as : Text → Text → World → World
  -- `ID()` of the agent.
  pub agent_id : Text
  -- `getServerTime()`
  pub server_time : World → Text
