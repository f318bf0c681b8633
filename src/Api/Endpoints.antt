-- ===== src/Api/Endpoints.antt =====
-- The functions of app/api/v1/routers behind the API key, each with its service: what a route
-- returns, in the envelope of success.
use robo_control.Prelude.{ℕ, String, Bool, true, Option, List, [], ◌∷◌}
use robo_control.Json.{Json, ℤ, null, boolean, str, obj, object}
use robo_control.Errors.{Result}
use robo_control.Database.Tasks.{TaskHistory}
use robo_control.Database.Logs.{WebhookLog}
use robo_control.World.{Env, App, pure, ◌>>=◌}
use robo_control.TaskService.{create_task}
use robo_control.TaskService.Schemas.{TaskCreateRequest, dump_response}
use robo_control.RcsSubmit.{submit_raw}
use robo_control.RcsSubmit.Body.{RcsRawSubmitRequest, RcsRawSubmitResult, dump_result}
use robo_control.RcsSubmit.Preview.{preview}
use robo_control.Config.{get_connection_settings, update_system_config}
use robo_control.Listing.{list_task_history, list_webhook_logs}
use robo_control.Dashboard.Alerts.{recent_alerts}
use robo_control.Dashboard.Stats.{get_stats}
use robo_control.Dashboard.Robots.{RobotStatusResponse, list_robot_states}
use robo_control.Api.Dumps.{
  dump_preview, dump_listing, dump_alerts, dump_stats, dump_connection, dump_robots,
}

-- The orders that the database chooses, its LIKE, the keys of SCAN, the answers to probes, and the
-- validations of pydantic.
pub record Backend : Type 0 where
  pub tasks_by_creation : List TaskHistory → List TaskHistory
  pub tasks_by_update : List TaskHistory → List TaskHistory
  pub logs_by_creation : List WebhookLog → List WebhookLog
  pub like : String → String → Bool
  pub scanned : List String
  pub start_of_day : ℕ → ℕ
  pub select_1 : Result (Unit {0})
  pub ping : Result Bool
  pub raw_result : Json → Result RcsRawSubmitResult
  pub fromisoformat : String → Option ℕ
  pub robot_status : Json → Json → Json → Json → Option ℕ → Result RobotStatusResponse

-- `StandardResponse(success=True, request_id=..., data=...)`
unfoldable pub standard_response : String → Json → Json
standard_response request_id data_ = obj (
    object (
      ("success", boolean true)
      ∷ ("requestId", str request_id)
      ∷ ("data", data_)
      ∷ ("error", null)
      ∷ []))

-- What a service returns, dumped, as the `data` of the envelope.
abbrev pub answered : {A : Type 0} → String → (A → Json) → App A → App Json
answered request_id dump m = do a ← m; pure (standard_response request_id (dump a))

module _ (env : Env) where
  -- `rcs_submit_preview`
  unfoldable pub rcs_submit_preview : String → App Json
  rcs_submit_preview request_id = answered request_id dump_preview (preview env)

  -- `create_task` of the routes
  unfoldable pub create_task_endpoint : String → TaskCreateRequest → Option String → App Json
  create_task_endpoint request_id payload key =
      answered request_id dump_response (create_task env payload key)

  -- `get_system_config`
  unfoldable pub get_system_config : String → App Json
  get_system_config request_id = answered request_id dump_connection (get_connection_settings env)

  -- `update_system_config`
  unfoldable pub update_system_config_endpoint : String → String → ℤ → App Json
  update_system_config_endpoint request_id rcs_ip rcs_port =
      answered request_id dump_connection (update_system_config env rcs_ip rcs_port)

module _ (backend : Backend) where
  -- `list_task_history`
  unfoldable pub list_task_history_endpoint : String → Option String → ℕ → ℕ → App Json
  list_task_history_endpoint request_id status page page_size =
      answered request_id dump_listing
        (list_task_history backend.tasks_by_creation status page page_size)

  -- `system_stats`
  unfoldable pub system_stats_endpoint : String → App Json
  system_stats_endpoint request_id =
      answered request_id dump_stats
        (get_stats backend.start_of_day backend.scanned backend.select_1 backend.ping)

module _ (env : Env) (backend : Backend) where
  -- `rcs_submit_raw`
  unfoldable pub rcs_submit_raw : String → RcsRawSubmitRequest → Option String → App Json
  rcs_submit_raw request_id payload key =
      answered request_id dump_result (submit_raw env backend.raw_result payload key)

  -- `list_webhook_logs`
  unfoldable pub list_webhook_logs_endpoint : String → Option String → ℕ → ℕ → App Json
  list_webhook_logs_endpoint request_id task_code page page_size =
      answered request_id dump_listing
        (list_webhook_logs env backend.like backend.logs_by_creation task_code page page_size)

  -- `list_robot_status`
  unfoldable pub list_robot_status : String → App Json
  list_robot_status request_id =
      answered request_id (dump_robots env)
        (list_robot_states env backend.fromisoformat backend.robot_status backend.scanned)

  -- `recent_alerts`
  unfoldable pub recent_alerts_endpoint : String → ℕ → App Json
  recent_alerts_endpoint request_id limit =
      answered request_id dump_alerts
        (recent_alerts env backend.tasks_by_update backend.logs_by_creation limit)
