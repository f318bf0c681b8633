-- ===== src/RcsSubmit.antt =====
-- app/services/rcs_submit_service.py: a request to any path under the RCS prefix, signed or plain,
-- with an idempotency cache of its own. Validation of a cached result is pydantic's, a parameter.
pub mod Body
pub mod Cache
pub mod Sends
pub mod Reach
pub mod Replay
pub mod Preview
pub mod Address
use mathlib.Core.List
use robo_control.Prelude.{
  String, Bool, true, false, ◌&&◌, not, Option, none, some, List, [], ◌∷◌, str_eq, is_none,
  if◌then◌else◌,
}
use robo_control.Text.{concat, is_empty}
use robo_control.Json.{
  Json, str, boolean, obj, end, Fields, object, opt_str, get_or_null, equals_text, or_empty, truthy,
}
use robo_control.Errors.{
  Exn, app, Result, ok, raise, new_error, duplicate_task_error, invalid_rcs_path_error,
  rcs_client_error, is_rcs_client_error, exn_text,
}
use robo_control.Redis
use robo_control.Redis.Keys.{idempotency_key_ttl_seconds}
use robo_control.Database.Tasks.{TaskHistory, pending, status_value}
use robo_control.World.{Env, World, App, pure, lift, gets, modify, ◌>>=◌, ◌>>◌}
use robo_control.World.Session.{flush_task, commit, or_rollback}
use robo_control.RcsPath.{normalize_rcs_path, validate_rcs_path}
use robo_control.Client.Wire.{Wire, call}
use robo_control.Client.Response.{as_object}
use robo_control.Client.Request.{path_details}
use robo_control.Client.Retry.{translate}
use robo_control.Client.Api.{signed_request, plain_request}
use robo_control.TaskService.Cache.{decode}
use Body.{
  Method, post, get, method_text, RcsRawSubmitRequest, RcsRawSubmitResult, sent_body, body_json,
  dump_result, extract_task_code, meta_from_body, raw_fingerprint,
}
use Cache.{checked_path, cached_result, save_result}

abbrev pub connection_failed : String → String → String → Exn
connection_failed path method text = app (
    new_error rcs_client_error (some (concat ("RCS connection failed: " ∷ text ∷ [])))
      (some "RCS_NETWORK_ERROR") none (some (path_details path method)))

-- Any exception of the call that is no RCSClientError becomes one.
unfoldable pub as_client_error : String → String → Exn → Exn
unfolding new_error
as_client_error path method (app e) =
    if is_rcs_client_error e.kind then app e else connection_failed path method e.message
as_client_error path method e = connection_failed path method (exn_text e)

module _ (env : Env) (model_validate : Json → Result RcsRawSubmitResult) where
  abbrev pub dispatch : RcsRawSubmitRequest → String → Wire Json
  dispatch request path =
      if request.send_signed
      then signed_request env (method_text request.method) path (sent_body request)
      else plain_request env (method_text request.method) path (sent_body request)

  -- The call of RCS-2000 with its two `except` clauses.
  unfoldable pub send_raw : RcsRawSubmitRequest → String → Wire Json
  unfolding as_client_error
  send_raw request path read sent =
      let (r, sent') = dispatch request path read sent in
      (translate (as_client_error path (method_text request.method)) r, sent')

  abbrev pub new_row : String → RcsRawSubmitRequest → Option String → World → TaskHistory
  new_row code request key w =
      let (source_code, target_code) = meta_from_body request.body in
      record {
        robot_task_code = code;
        status = pending;
        robot_code = none;
        source_code = source_code;
        target_code = target_code;
        idempotency_key = key;
        start_time = none;
        end_time = none;
        error_msg = none;
        created_at = w.now;
        updated_at = w.now;
      }

  -- Create, commit, and roll back on any exception.
  abbrev pub write_row : (World → TaskHistory) → App Bool
  write_row row = or_rollback (do t ← gets row; flush_task env t; commit env; pure true)

  -- The row, if it is wanted and there is a task code; the answer says whether it was written.
  unfoldable pub persist_raw : RcsRawSubmitRequest → Option String → Option String → App Bool
  unfolding meta_from_body
  persist_raw request key none w = (ok false, w)
  persist_raw request key (some code) w =
      if request.persist_task && not (is_empty code)
      then write_row (new_row code request key) w
      else (ok false, w)

  abbrev pub result_of : Option String → Bool → Json → RcsRawSubmitResult
  result_of code persisted rcs = record {
    robot_task_code = code;
    status = elim code [
      | none ↦ none
      | some c ↦ if is_empty c then none else some (status_value pending)
    ];
    cached = false;
    persisted = persisted;
    rcs = rcs;
  }

  -- From the reply of RCS-2000 on.
  unfoldable pub store_raw :
      RcsRawSubmitRequest → Option String → String → Json → App RcsRawSubmitResult
  store_raw request key path rcs_response = do
    code ← lift (extract_task_code env rcs_response)
    persisted ← persist_raw request key code
    save_result env model_validate key request path (result_of code persisted rcs_response)
    pure (result_of code persisted rcs_response)

  unfoldable pub send_and_store :
      RcsRawSubmitRequest → Option String → String → App RcsRawSubmitResult
  send_and_store request key path = do
    rcs_response ← call (send_raw request path)
    store_raw request key path rcs_response

  abbrev pub cached_or : App RcsRawSubmitResult → Option RcsRawSubmitResult → App RcsRawSubmitResult
  cached_or m (some cached) = pure cached
  cached_or m none = m

  unfoldable pub submit_at : RcsRawSubmitRequest → Option String → String → App RcsRawSubmitResult
  submit_at request key path = do
    found ← gets (cached_result env model_validate key request)
    cached ← lift found
    cached_or (send_and_store request key path) cached

  -- `submit_raw`
  unfoldable pub submit_raw : RcsRawSubmitRequest → Option String → App RcsRawSubmitResult
  submit_raw request key = do path ← lift (checked_path env request); submit_at request key path
