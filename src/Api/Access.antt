-- ===== src/Api/Access.antt =====
-- Who gets past the API key, and what everyone else can do: nothing.
use robo_control.Prelude.{
  String, ◌≡◌, ◌≢◌, List, inl, inr, Bool, true, false, not, ◌||◌, Bool-cases, refl, sym, ap, ◌∙◌,
  Option, none, some, arith, str_eq, eq_iff,
}
use robo_control.Text.{is_empty}
use robo_control.Errors.{Result, raise, ok, new_error, handle_exception, envelope}
use robo_control.World.{Env, World, pure, ◌>>◌}
use robo_control.Json.{Json}
use robo_control.World.Rules.{bind_rule, lift_rule}
use robo_control.World.Session.{rollback}
use robo_control.Security.{require_api_key}
use robo_control.Listing.{list_task_history, list_webhook_logs}
use robo_control.Dashboard.Alerts.{recent_alerts}
use robo_control.Dashboard.Stats.{get_stats}
use robo_control.Dashboard.Robots.{RobotStatusResponse, list_robot_states}
use robo_control.Api.Dumps.{dump_robots}
use robo_control.Api.Endpoints.{
  Backend, standard_response, list_task_history_endpoint, list_webhook_logs_endpoint,
  list_robot_status, system_stats_endpoint, recent_alerts_endpoint,
}
use robo_control.Api.{
  Request, create, rcs_submit, rcs_preview, history, robots_status, webhook_logs, system_stats,
  get_config, put_config, alerts_recent, route, guarded, answer_exception, respond, serve,
}

or-true : (b : Bool) → b || true ≡ true
or-true true = refl
or-true false = refl

module _ (env : Env) (backend : Backend) where
  -- A request to a protected route without a key, or with any key but the configured one, is answered 401 UNAUTHORIZED in the envelope with its request id, whatever the route and its parameters, and changes nothing: no row, no cache entry, no message to the queue or to RCS-2000.
  pub serve-unauthorized :
      (request_id : String) (given : Option String) (r : Request) (w : World)
      → given ≢ some env.settings.api_key
      → serve env backend request_id given r w ≡ (
        record {
          status_code = 401;
          content = envelope request_id "UNAUTHORIZED" "Missing or invalid API key." none;
        },
        record w { tx = w.db },
      )
  unfolding serve guarded respond answer_exception require_api_key new_error handle_exception
  serve-unauthorized request_id none r w wrong = refl
  serve-unauthorized request_id (some key) r w wrong =
      let refused : is_empty key || not (str_eq key env.settings.api_key) ≡ true =
        elim (Bool-cases (str_eq key env.settings.api_key)) [
          | inl e ↦ absurd (wrong (ap some ((eq_iff key env.settings.api_key).0 e)))
          | inr e ↦ rw e (or-true (is_empty key))
        ] in
      rw refused refl

  -- The requests that only read.
  abbrev pub only_reads : Request → Bool
  only_reads (create _ _) = false
  only_reads (rcs_submit _ _) = false
  only_reads rcs_preview = false
  only_reads get_config = false
  only_reads (put_config _ _) = false
  only_reads _ = true

  route-reads :
      (request_id : String) (r : Request) (w : World)
      → only_reads r ≡ true
      → (route env backend request_id r w).1 ≡ w
  unfolding route list_task_history_endpoint list_webhook_logs_endpoint list_robot_status
      system_stats_endpoint recent_alerts_endpoint list_task_history list_webhook_logs
      list_robot_states get_stats recent_alerts
  route-reads i (history s p n) w e = refl
  route-reads i (webhook_logs c p n) w e = refl
  route-reads i system_stats w e = refl
  route-reads i (alerts_recent n) w e = refl
  route-reads i robots_status w e =
      let states =
        list_robot_states env backend.fromisoformat backend.robot_status backend.scanned in
      bind_rule (λ (out : Result Json × World). out.1 ≡ w) states
        (λ a. pure (standard_response i (dump_robots env a))) w
        (λ a v h. ap (λ (out : Result (List RobotStatusResponse) × World). out.1) (sym h))
        (λ x v h. ap (λ (out : Result (List RobotStatusResponse) × World). out.1) (sym h))
  route-reads i (create p k) w e = ground arith
  route-reads i (rcs_submit p k) w e = ground arith
  route-reads i rcs_preview w e = ground arith
  route-reads i get_config w e = ground arith
  route-reads i (put_config a p) w e = ground arith

  closed : World → World
  closed w = record w { tx = w.db }

  respond-world :
      (request_id : String) (r : Request) (out : Result Json × World)
      → (respond env backend request_id r out).1 ≡ closed out.1
  unfolding respond closed
  respond-world request_id r (ok data_, w) = refl
  respond-world request_id r (raise e, w) = refl

  guarded-reads :
      (request_id : String) (given : Option String) (r : Request) (w : World)
      → only_reads r ≡ true
      → closed (guarded env backend request_id given r w).1 ≡ closed w
  unfolding guarded closed
  guarded-reads request_id given r w e =
      lift_rule (λ (out : Result Json × World). closed out.1 ≡ closed w) (require_api_key env given)
        (λ _. rollback >> route env backend request_id r) w
        (λ key allowed. ap closed (route-reads request_id r (record w { tx = w.db }) e))
        (λ x refused. refl)

  -- Listing the task history, the robot states or the webhook log, the statistics and the alerts change nothing, with any key and any parameters.
  pub serve-reads :
      (request_id : String) (given : Option String) (r : Request) (w : World)
      → only_reads r ≡ true
      → (serve env backend request_id given r w).1 ≡ record w { tx = w.db }
  unfolding serve closed
  serve-reads request_id given r w e =
      respond-world request_id r (guarded env backend request_id given r w)
      ∙ guarded-reads request_id given r w e
