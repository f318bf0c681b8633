-- ===== src/Database.antt =====
-- The tables (app/models) and the queries of the repositories (app/repositories). A table is its
-- rows in order of insertion. The surrogate `id` columns are left out, but for that of the webhook
-- log, which its listing shows: no other is read back. The database compares texts exactly.
pub mod Tasks
pub mod Configs
pub mod Logs
use robo_control.Prelude.{ℕ, String, Bool, true, false, Option, List, [], if◌then◌else◌, str_eq}
use robo_control.Json.{Decimal}
use Tasks.{TaskHistory}
use Configs.{SystemConfig}
use Logs.{WebhookLog}

-- app/models/robot_type.py
pub record RobotType : Type 0 where
  pub name : String
  pub description : Option String
  pub rcs_task_type : String

pub record Db : Type 0 where
  pub tasks : List TaskHistory
  pub robot_types : List RobotType
  pub configs : List SystemConfig
  pub logs : List WebhookLog
