-- ===== src/Database/Logs.antt =====
-- app/models/webhook_log.py.
use robo_control.Prelude.{ℕ, String, Bool, Option}
use robo_control.Json.{Decimal}

pub record WebhookLog : Type 0 where
  pub id : ℕ
  pub robot_task_code : String
  pub method : String
  pub amr_code : Option String
  pub x : Option Decimal
  pub y : Option Decimal
  pub raw_payload : Option String
  pub signature_valid : Bool
  pub duplicate : Bool
  pub created_at : ℕ
