-- ===== src/Api.antt =====
-- The routes of app/api/v1/routers that ask for the API key, with app/api/v1/router.py: a request
-- whose parameters are valid is served in a session of its own, and what it returns or raises
-- becomes a response. Validation of the parameters is FastAPI's.
pub mod Dumps
pub mod Endpoints
pub mod Access
pub mod Context
pub mod Envelopes
pub mod Creating
use robo_control.Prelude.{ℕ, String, Option, Bool, true, false, ◌&&◌, if◌then◌else◌}
use robo_control.Json.{Json, ℤ}
use robo_control.Errors.{
  Exn, app, http_exception, request_validation, Result, ok, raise, Response, handle_exception,
}
use robo_control.World.{Env, World, App, lift, ◌>>◌}
use robo_control.World.Session.{rollback}
use robo_control.Security.{require_api_key}
use robo_control.TaskService.Schemas.{TaskCreateRequest}
use robo_control.RcsSubmit.Body.{RcsRawSubmitRequest}
use Endpoints.{
  Backend, create_task_endpoint, rcs_submit_raw, rcs_submit_preview, list_task_history_endpoint,
  list_robot_status, list_webhook_logs_endpoint, system_stats_endpoint, get_system_config,
  update_system_config_endpoint, recent_alerts_endpoint,
}

-- The requests to the protected routes, with their parameters.
pub data Request : Type 0 where
  create : TaskCreateRequest → Option String → Request
  rcs_submit : RcsRawSubmitRequest → Option String → Request
  rcs_preview : Request
  history : Option String → ℕ → ℕ → Request
  robots_status : Request
  webhook_logs : Option String → ℕ → ℕ → Request
  system_stats : Request
  get_config : Request
  put_config : String → ℤ → Request
  alerts_recent : ℕ → Request

-- `status_code` of the routes
abbrev pub success_status : Request → ℕ
success_status (create _ _) = 201
success_status _ = 200

-- An exception that no handler takes passes through the middleware; the outermost layer of the
-- framework answers it.
abbrev pub is_unhandled : Exn → Bool
is_unhandled (app _) = false
is_unhandled (http_exception _ _) = false
is_unhandled (request_validation _) = false
is_unhandled _ = true

module _ (env : Env) (backend : Backend) where
  unfoldable pub route : String → Request → App Json
  route request_id (create payload key) = create_task_endpoint env request_id payload key
  route request_id (rcs_submit payload key) = rcs_submit_raw env backend request_id payload key
  route request_id rcs_preview = rcs_submit_preview env request_id
  route request_id (history status page page_size) =
      list_task_history_endpoint backend request_id status page page_size
  route request_id robots_status = list_robot_status env backend request_id
  route request_id (webhook_logs task_code page page_size) =
      list_webhook_logs_endpoint env backend request_id task_code page page_size
  route request_id system_stats = system_stats_endpoint backend request_id
  route request_id get_config = get_system_config env request_id
  route request_id (put_config ip port) = update_system_config_endpoint env request_id ip port
  route request_id (alerts_recent limit) = recent_alerts_endpoint env backend request_id limit

  -- The dependencies run first: the API key, then a new session.
  unfoldable pub guarded : String → Option String → Request → App Json
  guarded request_id api_key r = do lift (require_api_key env api_key); rollback; route request_id r

  -- With `debug=settings.DEBUG`, Starlette answers an exception that no handler takes with a page of
  -- its own.
  unfoldable pub answer_exception : String → Exn → Response
  answer_exception request_id e =
      if is_unhandled e && env.settings.debug
      then record { status_code = 500; content = env.debug_page e }
      else handle_exception request_id e

  -- The response, and the world once the session is closed.
  unfoldable pub respond : String → Request → Result Json × World → Response × World
  respond request_id r (ok content, w) =
      (record { status_code = success_status r; content = content }, record w { tx = w.db })
  respond request_id r (raise e, w) = (answer_exception request_id e, record w { tx = w.db })

  unfoldable pub serve : String → Option String → Request → World → Response × World
  serve request_id api_key r w = respond request_id r (guarded request_id api_key r w)
