-- ===== src/Api/Context.antt =====
-- app/middleware/request_context.py around the routes: the ids of a request, the header of its
-- response, and the line in the access log.
use robo_control.Prelude.{
  arith, ℕ, String, ◌≡◌, refl, Option, none, some, Bool, false, if◌then◌else◌,
}
use robo_control.Text.{or_text}
use robo_control.Json.{Json}
use robo_control.Errors.{
  app, retryable_upstream, network, http_error, builtin, http_exception, request_validation, Result,
  ok, raise, Response, handle_exception,
}
use robo_control.World.{Env, World}
use robo_control.Api.Endpoints.{Backend}
use robo_control.Api.{Request, is_unhandled, answer_exception, guarded, respond, serve}

-- A request with the headers that the middleware and the key check read.
pub record Headers : Type 0 where
  pub request_id : Option String
  pub trace_id : Option String
  pub api_key : Option String

-- What `request.state` and the log context hold while a request is served.
pub record Context : Type 0 where
  pub request_id : String
  pub trace_id : String

-- `request.headers.get(...) or ...`; `uuid` is the value of `str(uuid4())`.
unfoldable pub context_of : String → Headers → Context
context_of uuid headers =
    let id = or_text headers.request_id uuid in
    record { request_id = id; trace_id = or_text headers.trace_id id }

-- The response, its `X-Request-ID`, the status in the access log, and the log context after it.
pub record Served : Type 0 where
  pub response : Response
  pub response_id : Option String
  pub logged_status : ℕ
  pub context : Option Context

abbrev pub passes_through : Result Json → Bool
passes_through (ok _) = false
passes_through (raise e) = is_unhandled e

module _ (env : Env) (backend : Backend) where
  abbrev served_with : Context → Bool → Response × World → Served × World
  served_with context unhandled (response, w) = (
    record {
      response = response;
      response_id = if unhandled then none else some context.request_id;
      logged_status = if unhandled then 500 else response.status_code;
      context = none;
    },
    w,
  )

  -- `dispatch` of a request to a protected route.
  unfoldable pub dispatch : String → Headers → Request → World → Served × World
  dispatch uuid headers r w =
      let context = context_of uuid headers in
      let out = guarded env backend context.request_id headers.api_key r w in
      served_with context (passes_through out.0) (respond env backend context.request_id r out)

  logged_status-if :
      (id : String) (r : Request) (out : Result Json × World)
      → (if passes_through out.0 then 500 else (respond env backend id r out).0.status_code)
        ≡ (respond env backend id r out).0.status_code
  unfolding respond answer_exception handle_exception
  logged_status-if id r (ok content, w) = refl
  logged_status-if id r (raise (app e), w) = refl
  logged_status-if id r (raise (http_exception n m), w) = refl
  logged_status-if id r (raise (request_validation es), w) = refl
  logged_status-if id r (raise (retryable_upstream m), w) = ground arith
  logged_status-if id r (raise (network n m), w) = ground arith
  logged_status-if id r (raise (http_error m), w) = ground arith
  logged_status-if id r (raise (builtin b m), w) = ground arith

  -- The middleware answers what the routes answer under the id of the request, its own or a new one,
  -- logs the status that is answered, and leaves no ids in the log context.
  pub dispatch-serve :
      (uuid : String) (headers : Headers) (r : Request) (w : World)
      → let served = dispatch uuid headers r w in
        let answered = serve env backend (or_text headers.request_id uuid) headers.api_key r w in
        (served.0.response ≡ answered.0)
        × (served.1 ≡ answered.1)
        × (served.0.logged_status ≡ answered.0.status_code)
        × (served.0.context ≡ none)
  unfolding dispatch serve context_of
  dispatch-serve uuid headers r w = (
    refl,
    refl,
    logged_status-if (or_text headers.request_id uuid) r
        (guarded env backend (or_text headers.request_id uuid) headers.api_key r w),
    refl,
  )
