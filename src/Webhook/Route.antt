-- ===== src/Webhook/Route.antt =====
-- The route in app/api/v1/routers/webhooks.py, and the hand-over to app/workers/tasks.py.
-- `TaskFeedbackPayload.model_validate` is pydantic's and a parameter.
use robo_control.Prelude.{String, ◌≡◌, refl, true, Option, none, some, if◌then◌else◌}
use robo_control.Text.{is_empty, strip}
use robo_control.Json.{Json, find, get_or_null, opt_str}
use robo_control.Errors.{
  app, Result, raise, new_error, webhook_signature_error, handle_exception, builtin,
  validation_error,
}
use robo_control.World.{Env, World, App, throw, lift, ◌>>=◌}
use robo_control.Client.Response.{text_at}
use robo_control.Webhook.{TaskFeedbackPayload, WebhookAck, model_dump, handle_task_feedback}
use robo_control.Worker.{text_or_none, read_feedback}

module _ (env : Env) (model_validate : Json → Result TaskFeedbackPayload) where
  -- `json.loads(raw or b"{}")`
  abbrev pub payload_dict : String → Option Json
  payload_dict raw = env.loads (if is_empty raw then "{}" else raw)

  abbrev dispatch : String → Option String → Option Json → App WebhookAck
  dispatch raw signature none = throw (
      app
        (new_error webhook_signature_error (some "Webhook body is not valid JSON") none none none))
  dispatch raw signature (some v) = do
    payload ← lift (model_validate v)
    handle_task_feedback env true raw payload signature

  -- `task_feedback`
  unfoldable pub task_feedback : String → Option String → App WebhookAck
  task_feedback raw signature = dispatch raw signature (payload_dict raw)

  -- A body that is JSON but no payload fails the same way for every signature, even none or a wrong
  -- one: nothing is checked, logged or queued, and the caller gets status 500.
  pub task_feedback-malformed :
      (raw : String) (signature : Option String) (v : Json) (message request_id : String)
      (w : World)
      → payload_dict raw ≡ some v
      → model_validate v ≡ raise (builtin validation_error message)
      → (task_feedback raw signature w ≡ (raise (builtin validation_error message), w))
        × ((handle_exception request_id (builtin validation_error message)).status_code ≡ 500)
  unfolding task_feedback handle_exception
  task_feedback-malformed raw signature v message request_id w is_json malformed =
      (rw (is_json, malformed) refl, refl)

text_or_none-opt_str : (env : Env) (o : Option String) → text_or_none env (opt_str o) ≡ o
text_or_none-opt_str env none = refl
text_or_none-opt_str env (some s) = refl

-- The worker reads from the message the task and method that the webhook took, stripped, and the
-- robot and error message as they were, whatever other fields the payload has.
pub read_feedback-model_dump :
    (env : Env) (p : TaskFeedbackPayload)
    → read_feedback env (model_dump p) ≡ record {
      robot_task_code = strip p.robot_task_code;
      method = strip p.method;
      amr_code = p.amr_code;
      error_msg = p.error_msg;
    }
unfolding read_feedback model_dump text_at get_or_null find
read_feedback-model_dump env p =
    rw (text_or_none-opt_str env p.amr_code, text_or_none-opt_str env p.error_msg) refl
