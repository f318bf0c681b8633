-- ===== src/Webhook.antt =====
-- app/services/webhook_service.py, app/schemas/webhook.py and the route in
-- app/api/v1/routers/webhooks.py: a feedback of RCS-2000 is verified, taken once, logged and
-- queued. A body is modelled as the text that it decodes to.
pub mod Log
pub mod Branches
pub mod Once
pub mod Route
use mathlib.Core.List
use robo_control.Prelude.{
  ℕ, suc, String, Bool, true, false, Option, none, some, List, [], ◌∷◌, ◌++◌, if◌then◌else◌,
}
use robo_control.Text.{take}
use robo_control.Json.{Decimal, Json, str, obj, end, field, Fields, object, opt_str, opt_float}
use robo_control.Errors.{
  Exn, app, Kind, webhook_signature_error, builtin, broker_error, Result, ok, raise,
}
use robo_control.Redis
use robo_control.Redis.Keys.{webhook_dedupe_key, webhook_dedupe_ttl_seconds}
use robo_control.Database.Logs.{WebhookLog}
use robo_control.World.{Env, World, App, pure, throw, ◌>>=◌, ◌>>◌}
use robo_control.World.Session.{commit}
use robo_control.Security.{verify_webhook_signature}

-- The payload once pydantic has read it; `extra` holds the fields that it has no name for.
pub record TaskFeedbackPayload : Type 0 where
  pub robot_task_code : String
  pub method : String
  pub x : Option Decimal
  pub y : Option Decimal
  pub amr_code : Option String
  pub error_msg : Option String
  pub extra : Fields

pub record WebhookAck : Type 0 where
  pub acknowledged : Bool
  pub duplicate : Bool

abbrev append : Fields → Fields → Fields
append end gs = gs
append (field k v fs) gs = field k v (append fs gs)

-- `payload.model_dump(by_alias=True)`
unfoldable pub model_dump : TaskFeedbackPayload → Fields
model_dump p =
    append
      (object (
        ("robotTaskCode", str p.robot_task_code)
        ∷ ("method", str p.method)
        ∷ ("x", opt_float p.x)
        ∷ ("y", opt_float p.y)
        ∷ ("amrCode", opt_str p.amr_code)
        ∷ ("errorMsg", opt_str p.error_msg)
        ∷ []))
      p.extra

-- The row that `_log_event` adds.
abbrev pub log_row : TaskFeedbackPayload → String → Bool → Bool → ℕ → ℕ → WebhookLog
log_row p raw_body sig_valid duplicate id now = record {
  id = id;
  robot_task_code = p.robot_task_code;
  method = p.method;
  amr_code = p.amr_code;
  x = p.x;
  y = p.y;
  raw_payload = some (take 4096 raw_body);
  signature_valid = sig_valid;
  duplicate = duplicate;
  created_at = now;
}

-- The key under which a feedback is taken.
abbrev pub dedupe_key : TaskFeedbackPayload → String
dedupe_key p = webhook_dedupe_key p.robot_task_code p.method

-- `process_task_feedback.delay(payload)`
unfoldable pub enqueue : Env → Fields → App (Unit {0})
enqueue env payload w = elim (env.broker_error w.deliveries) [
  | some reason ↦ (raise (builtin broker_error reason), record w { deliveries = suc w.deliveries })
  | none ↦ (ok tt, record w { deliveries = suc w.deliveries; queue = obj payload ∷ w.queue })
]

-- The atomic `SET NX EX` of the dedupe key.
unfoldable pub set_first : String → App Bool
set_first key w =
    let (first, redis) = Redis.set_nx w.now key webhook_dedupe_ttl_seconds "1" w.redis in
    (ok first, record w { redis = redis })

-- `except Exception`, where the session is rolled back and the exception is dropped
abbrev pub swallowed : Result (Unit {0}) × World → Result (Unit {0}) × World
swallowed (ok _, w) = (ok tt, w)
swallowed (raise _, w) = (ok tt, record w { tx = w.db })

abbrev is_signature_kind : Kind → Bool
is_signature_kind webhook_signature_error = true
is_signature_kind _ = false

abbrev pub is_signature_error : Exn → Bool
is_signature_error (app a) = is_signature_kind a.kind
is_signature_error _ = false

-- A service with or without a session.
module _ (env : Env) (has_session : Bool) (raw_body : String) (payload : TaskFeedbackPayload) where
  abbrev pub with_row : Bool → Bool → World → World
  with_row sig_valid duplicate w = record w {
    tx = record w.tx {
      logs =
          w.tx.logs
          ++ log_row payload raw_body sig_valid duplicate (env.next_log_id w.commits) w.now ∷ [];
    };
  }

  -- `_log_event`
  unfoldable pub log_event : Bool → Bool → App (Unit {0})
  log_event sig_valid duplicate w =
      if has_session then swallowed (commit env (with_row sig_valid duplicate w)) else (ok tt, w)

  -- What follows the dedupe key.
  abbrev pub take_or_skip : Bool → App WebhookAck
  take_or_skip true = do
    log_event true false
    enqueue env (model_dump payload)
    pure (record { acknowledged = true; duplicate = false })
  take_or_skip false = do
    log_event true true
    pure (record { acknowledged = true; duplicate = true })

  unfoldable pub handle_verified : App WebhookAck
  handle_verified = do first ← set_first (dedupe_key payload); take_or_skip first

  unfoldable pub handle_rejected : Exn → App WebhookAck
  handle_rejected e = do log_event false false; throw e

  -- `except WebhookSignatureError`; any other exception goes on as it is.
  abbrev pub handle_refusal : Exn → App WebhookAck
  handle_refusal e = if is_signature_error e then handle_rejected e else throw e

  -- `handle_task_feedback`
  unfoldable pub handle_task_feedback : Option String → App WebhookAck
  handle_task_feedback signature w = elim (verify_webhook_signature env raw_body signature) [
    | ok _ ↦ handle_verified w
    | raise e ↦ handle_refusal e w
  ]
