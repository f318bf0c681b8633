-- ===== src/Tests/RawSubmissions.antt =====
-- Raw submissions on concrete inputs.
use robo_control.Prelude.{◌≡◌, refl, some, none, true, false, [], ◌∷◌, arith, str_eq, if◌then◌else◌}
use robo_control.Json.{Json, str, obj, object, boolean}
use robo_control.Errors.{Result, ok}
use robo_control.World.{Env, World, response}
use robo_control.RcsSubmit.Body.{RcsRawSubmitRequest, RcsRawSubmitResult, post}
use robo_control.RcsSubmit.Cache.{write_result}
use robo_control.RcsSubmit.{submit_raw, send_raw, as_client_error}
use robo_control.RcsSubmit.Reach.{Reached, submit_raw-Reached}
use robo_control.RcsSubmit.Replay.{ReadsBack, submit_raw_twice}
use robo_control.Tests

abbrev request : RcsRawSubmitRequest
request = record {
  method = post;
  path = "https://elsewhere.example/rcs/rtas/x?y=1";
  body = none;
  send_signed = false;
  persist_task = true;
}

abbrev result : RcsRawSubmitResult
result = record {
  robot_task_code = some "T1";
  status = some "pending";
  cached = false;
  persisted = true;
  rcs = Tests.reply;
}

abbrev entry : Json
entry = obj (
    object (
      ("fingerprint", str "{method:'POST',path:'/rcs/rtas/x',body:{},sendSigned:_,}")
      ∷ (
        "result",
        obj (
            object (
              ("robotTaskCode", str "T1")
              ∷ ("status", str "pending")
              ∷ ("cached", boolean false)
              ∷ ("persisted", boolean true)
              ∷ ("rcsResponse", Tests.reply)
              ∷ [])),
      )
      ∷ []))

abbrev env : Env
env = record Tests.env {
  loads = λ text. if str_eq text "REPLY" then some Tests.reply else some entry;
}

abbrev model_validate : Json → Result RcsRawSubmitResult
model_validate _ = ok result

submit_raw-Reached_example :
    Reached Tests.env model_validate request
      (some "k")
      Tests.start
      (submit_raw Tests.env model_validate request (some "k") Tests.start).1
submit_raw-Reached_example =
    submit_raw-Reached Tests.env model_validate request (some "k") Tests.start

abbrev down : Env
down = record Tests.env { http = λ _ _. response 503 "" }

reads_back : ReadsBack env model_validate request "k" "/rcs/rtas/x" result
unfolding Tests.show robo_control.RcsSubmit.Cache.cache_envelope
reads_back = (refl, refl, refl)

abbrev after : World
after = (submit_raw env model_validate request (some "k") Tests.start).1

submits : submit_raw env model_validate request (some "k") Tests.start ≡ (ok result, after)
unfolding submit_raw robo_control.RcsSubmit.Cache.checked_path
    robo_control.RcsPath.normalize_rcs_path robo_control.Text.starts_with robo_control.Text.before
    robo_control.RcsPath.validate_rcs_path robo_control.RcsSubmit.submit_at
    robo_control.RcsSubmit.Cache.cached_result robo_control.Redis.get
    robo_control.RcsSubmit.send_and_store send_raw robo_control.Client.Api.plain_request
    robo_control.RcsSubmit.Body.method_text robo_control.Client.Response.parse_response
    robo_control.RcsSubmit.store_raw robo_control.RcsSubmit.Body.extract_task_code
    robo_control.RcsSubmit.persist_raw robo_control.World.Session.commit
    robo_control.World.Session.flush_task robo_control.Database.Tasks.get_by_idempotency_key
    robo_control.Database.Tasks.get_by_robot_task_code robo_control.Database.Tasks.status_value
    robo_control.Database.Tasks.violates_unique robo_control.RcsSubmit.Cache.raw_refusal
    robo_control.RcsSubmit.Body.meta_from_body
submits = λ i. (answers i, after)
  where
    answers : (submit_raw env model_validate request (some "k") Tests.start).0 ≡ ok result
    answers = refl

abbrev later : World
later = record after { now = 2000 }

submit_raw_twice_example :
    submit_raw env model_validate request (some "k") later ≡ (ok result, later)
unfolding robo_control.RcsSubmit.Cache.checked_path robo_control.RcsPath.normalize_rcs_path
    robo_control.Text.starts_with robo_control.Text.before robo_control.RcsPath.validate_rcs_path
    robo_control.RcsSubmit.Cache.cached_result robo_control.Redis.get
submit_raw_twice_example =
    submit_raw_twice env model_validate request "k" "/rcs/rtas/x" Tests.start after later result
      refl refl refl submits reads_back refl (omega arith)
