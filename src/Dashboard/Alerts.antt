-- ===== src/Dashboard/Alerts.antt =====
-- `recent_alerts` of app/api/v1/routers/alerts.py. The order in which the database gives rows of
-- equal time is an argument.
pub mod Newest
pub mod Top
pub mod Complete
use robo_control.Prelude.{
  ℕ, String, Bool, true, false, not, Option, none, some, List, [], ◌∷◌, ◌++◌, map, length,
  if◌then◌else◌,
}
use robo_control.Text.{concat, or_text}
use robo_control.Database.Tasks.{
  TaskStatus, pending, running, completed, failed, cancelled, TaskHistory,
}
use robo_control.Database.Logs.{WebhookLog}
use robo_control.World.{Env, App, gets}
use robo_control.Listing.{take, filter}
use robo_control.Sorting.{text_leb, sort}

pub record Alert : Type 0 where
  pub kind : String
  pub severity : String
  pub message : String
  pub details : String
  pub robot_task_code : String
  pub timestamp : String

pub record Alerts : Type 0 where
  pub items : List Alert
  pub total : ℕ

-- `TaskHistory.status.in_([TaskStatus.failed, TaskStatus.cancelled])`
abbrev pub is_unsuccessful : TaskHistory → Bool
is_unsuccessful r = elim r.status [ failed ↦ true | cancelled ↦ true | _ ↦ false ]

abbrev is_failed : TaskHistory → Bool
is_failed r = elim r.status [ failed ↦ true | _ ↦ false ]

module _ (env : Env) where
  unfoldable pub task_alert : TaskHistory → Alert
  task_alert r = record {
    kind = if is_failed r then "task_failed" else "task_cancelled";
    severity = if is_failed r then "error" else "warning";
    message = concat (
        "Görev "
        ∷ r.robot_task_code
        ∷ " "
        ∷ (if is_failed r then "başarısız" else "iptal edildi")
        ∷ []);
    details = or_text r.error_msg "";
    robot_task_code = r.robot_task_code;
    timestamp = env.isoformat r.updated_at;
  }

  unfoldable pub signature_alert : WebhookLog → Alert
  signature_alert r = record {
    kind = "webhook_signature_invalid";
    severity = "error";
    message = concat ("Geçersiz webhook imzası: " ∷ r.robot_task_code ∷ " (" ∷ r.method ∷ ")" ∷ []);
    details = "";
    robot_task_code = r.robot_task_code;
    timestamp = env.isoformat r.created_at;
  }

  -- `key=lambda a: a.get("timestamp") or "", reverse=True`
  abbrev pub at_least_as_new : Alert → Alert → Bool
  at_least_as_new a b = text_leb b.timestamp a.timestamp

  module _ (tasks_ordered : List TaskHistory → List TaskHistory)
      (logs_ordered : List WebhookLog → List WebhookLog) where
    -- The alerts before they are sorted.
    unfoldable pub collect : ℕ → List TaskHistory → List WebhookLog → List Alert
    collect limit tasks logs =
        map task_alert (take limit (tasks_ordered (filter is_unsuccessful tasks)))
        ++ map signature_alert
            (take limit (logs_ordered (filter (λ r. not r.signature_valid) logs)))

    -- `recent_alerts`
    unfoldable pub recent_alerts : ℕ → App Alerts
    recent_alerts limit = gets (λ w.
        let alerts = collect limit w.tx.tasks w.tx.logs in
        record { items = take limit (sort at_least_as_new alerts); total = length alerts })
