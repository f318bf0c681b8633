-- ===== src/Api/Envelopes.antt =====
-- The shape of every answer of a protected route.
use robo_control.Prelude.{
  arith, String, ◌≡◌, ◌⊎◌, refl, inl, inr, Bool, ◌&&◌, if-cases, true, false, Option, none, some,
  List,
}
use robo_control.Json.{Json, Fields, null, boolean, str, arr, obj, object, find}
use robo_control.Errors.{
  Exn, app, http_exception, request_validation, retryable_upstream, network, http_error, builtin,
  Result, ok, raise, handle_exception, envelope, Response,
}
use robo_control.World.{Env, World, App, pure, ◌>>◌}
use robo_control.World.Rules.{bind_rule, lift_rule}
use robo_control.World.Session.{rollback}
use robo_control.Security.{require_api_key}
use robo_control.TaskService.{create_task}
use robo_control.TaskService.Schemas.{dump_response}
use robo_control.RcsSubmit.{submit_raw}
use robo_control.RcsSubmit.Body.{dump_result}
use robo_control.RcsSubmit.Preview.{preview}
use robo_control.Config.{get_connection_settings, update_system_config}
use robo_control.Listing.{list_task_history, list_webhook_logs}
use robo_control.Dashboard.Alerts.{recent_alerts}
use robo_control.Dashboard.Stats.{get_stats}
use robo_control.Dashboard.Robots.{list_robot_states}
use robo_control.Api.Dumps.{
  dump_preview, dump_listing, dump_alerts, dump_stats, dump_connection, dump_robots,
}
use robo_control.Api.Endpoints.{
  Backend, standard_response, answered, create_task_endpoint, rcs_submit_raw, rcs_submit_preview,
  list_task_history_endpoint, list_robot_status, list_webhook_logs_endpoint, system_stats_endpoint,
  get_system_config, update_system_config_endpoint, recent_alerts_endpoint,
}
use robo_control.Api.{
  Request, create, rcs_submit, rcs_preview, history, robots_status, webhook_logs, system_stats,
  get_config, put_config, alerts_recent, success_status, route, guarded, is_unhandled,
  answer_exception, respond, serve,
}

-- An answer of success: the id of the request, data, and no error.
abbrev pub IsSuccess : String → Json → Type 0
IsSuccess request_id content =
    (fs : Fields) × (content ≡ obj fs)
    × (find "success" fs ≡ some (boolean true))
    × (find "requestId" fs ≡ some (str request_id))
    × ((data_ : Json) × (find "data" fs ≡ some data_))
    × (find "error" fs ≡ some null)

-- An answer of failure: the id of the request, no data, and an error with a code and a message.
abbrev pub IsFailure : String → Json → Type 0
IsFailure request_id content =
    (fs es : Fields) × (code message : String) × (content ≡ obj fs)
    × (find "success" fs ≡ some (boolean false))
    × (find "requestId" fs ≡ some (str request_id))
    × (find "data" fs ≡ none)
    × (find "error" fs ≡ some (obj es))
    × (find "code" es ≡ some (str code))
    × (find "message" es ≡ some (str message))

standard_response-IsSuccess :
    (request_id : String) (data_ : Json) → IsSuccess request_id (standard_response request_id data_)
unfolding standard_response find
standard_response-IsSuccess request_id data_ = (_, refl, refl, refl, (data_, refl), refl)

envelope-IsFailure :
    (request_id code message : String) (details : Option Json)
    → IsFailure request_id (envelope request_id code message details)
unfolding envelope find
envelope-IsFailure request_id code message details =
    (_, _, code, message, refl, refl, refl, refl, refl, refl, refl)

handle_exception-IsFailure :
    (request_id : String) (e : Exn) → IsFailure request_id (handle_exception request_id e).content
unfolding handle_exception
handle_exception-IsFailure i (app e) = envelope-IsFailure i e.code e.message e.details
handle_exception-IsFailure i (http_exception n m) = envelope-IsFailure i _ m none
handle_exception-IsFailure i (request_validation es) =
    envelope-IsFailure i _ _ (some (obj (object (List.◌∷◌ ("errors", arr es) List.[]))))
handle_exception-IsFailure i (retryable_upstream m) = envelope-IsFailure i _ _ none
handle_exception-IsFailure i (network n m) = envelope-IsFailure i _ _ none
handle_exception-IsFailure i (http_error m) = envelope-IsFailure i _ _ none
handle_exception-IsFailure i (builtin b m) = envelope-IsFailure i _ _ none

and-both : (b c : Bool) → b && c ≡ true → (b ≡ true) × (c ≡ true)
and-both b c h = ground arith

-- What is returned is an answer of success.
abbrev Standard : String → Result Json × World → Type 0
Standard request_id (ok content, w) = IsSuccess request_id content
Standard request_id (raise e, w) = Unit

answered-Standard :
    {A : Type 0} (request_id : String) (dump : A → Json) (m : App A) (w : World)
    → Standard request_id (answered request_id dump m w)
answered-Standard request_id dump m w =
    bind_rule (Standard request_id) m (λ a. pure (standard_response request_id (dump a))) w
      (λ a v h. standard_response-IsSuccess request_id (dump a)) (λ x v h. tt)

module _ (env : Env) (backend : Backend) where
  route-Standard :
      (request_id : String) (r : Request) (w : World)
      → Standard request_id (route env backend request_id r w)
  unfolding route create_task_endpoint rcs_submit_raw rcs_submit_preview list_task_history_endpoint
      list_robot_status list_webhook_logs_endpoint system_stats_endpoint get_system_config
      update_system_config_endpoint recent_alerts_endpoint
  route-Standard i (create payload key) w =
      answered-Standard i dump_response (create_task env payload key) w
  route-Standard i (rcs_submit payload key) w =
      answered-Standard i dump_result (submit_raw env backend.raw_result payload key) w
  route-Standard i rcs_preview w = answered-Standard i dump_preview (preview env) w
  route-Standard i (history s p n) w =
      answered-Standard i dump_listing (list_task_history backend.tasks_by_creation s p n) w
  route-Standard i robots_status w =
      answered-Standard i (dump_robots env)
        (list_robot_states env backend.fromisoformat backend.robot_status backend.scanned) w
  route-Standard i (webhook_logs c p n) w =
      answered-Standard i dump_listing
        (list_webhook_logs env backend.like backend.logs_by_creation c p n) w
  route-Standard i system_stats w =
      answered-Standard i dump_stats
        (get_stats backend.start_of_day backend.scanned backend.select_1 backend.ping) w
  route-Standard i get_config w =
      answered-Standard i dump_connection (get_connection_settings env) w
  route-Standard i (put_config a p) w =
      answered-Standard i dump_connection (update_system_config env a p) w
  route-Standard i (alerts_recent n) w =
      answered-Standard i dump_alerts
        (recent_alerts env backend.tasks_by_update backend.logs_by_creation n) w

  guarded-Standard :
      (request_id : String) (given : Option String) (r : Request) (w : World)
      → Standard request_id (guarded env backend request_id given r w)
  unfolding guarded
  guarded-Standard i given r w =
      lift_rule (Standard i) (require_api_key env given) (λ _. rollback >> route env backend i r) w
        (λ key allowed. route-Standard i r (record w { tx = w.db })) (λ x refused. tt)

  -- With DEBUG on, an exception that no handler takes is answered with Starlette's page.
  abbrev pub IsDebugPage : Response → Type 0
  IsDebugPage answer =
      (e : Exn) × (is_unhandled e ≡ true)
      × (env.settings.debug ≡ true)
      × (answer ≡ record { status_code = 500; content = env.debug_page e })

  answer_exception-cases :
      (request_id : String) (e : Exn)
      → IsFailure request_id (answer_exception env backend request_id e).content
        ⊎ IsDebugPage (answer_exception env backend request_id e)
  unfolding answer_exception
  answer_exception-cases i e =
      if-cases (λ (r : Response). IsFailure i r.content ⊎ IsDebugPage r)
        (is_unhandled e && env.settings.debug)
        (record { status_code = 500; content = env.debug_page e }) (handle_exception i e)
        (λ both.
          let (unhandled, on) = and-both (is_unhandled e) env.settings.debug both in
          inr (e, unhandled, on, refl))
        (λ _. inl (handle_exception-IsFailure i e))

  respond-cases :
      (request_id : String) (r : Request) (out : Result Json × World)
      → Standard request_id out
      → (IsSuccess request_id (respond env backend request_id r out).0.content
          × ((respond env backend request_id r out).0.status_code ≡ success_status r))
        ⊎ (IsFailure request_id (respond env backend request_id r out).0.content
            ⊎ IsDebugPage (respond env backend request_id r out).0)
  unfolding respond
  respond-cases i r (ok content, w) s = inl (s, refl)
  respond-cases i r (raise e, w) s = inr (answer_exception-cases i e)

  -- Whatever is asked, with any key and in any state, the answer is a StandardResponse with the id of the request: of success, with data, no error and the status of the route, or of failure, with no data and an error with a code and a message; but with DEBUG on, an exception that no handler of the program takes is answered with status 500 and Starlette's page for it.
  pub serve-IsStandard :
      (request_id : String) (given : Option String) (r : Request) (w : World)
      → let answer = (serve env backend request_id given r w).0 in
        (IsSuccess request_id answer.content × (answer.status_code ≡ success_status r))
        ⊎ (IsFailure request_id answer.content ⊎ IsDebugPage answer)
  unfolding serve
  serve-IsStandard i given r w =
      respond-cases i r (guarded env backend i given r w) (guarded-Standard i given r w)
