-- ===== src/Tests/Feedbacks.antt =====
-- Feedbacks on concrete inputs.
use robo_control.Prelude.{ℕ, ◌≡◌, refl, some, none, true, List, [], ◌∷◌, arith, String}
use robo_control.Json.{Json, str, obj, end, Fields, object}
use robo_control.Errors.{
  ok, raise, Result, builtin, broker_error, validation_error, handle_exception,
}
use robo_control.Database.{Db}
use robo_control.Database.Tasks.{TaskHistory, get_by_robot_task_code, pending}
use robo_control.World.{World, Env}
use robo_control.Worker.{Report, processed, process_task_feedback, read_feedback}
use robo_control.Worker.Progress.{deliver, deliver_all}
use robo_control.Worker.History.{Evolves, deliver_all-Evolves}
use robo_control.Worker.Automaton.{run}
use robo_control.Worker.Machine.{events, deliver_all-run}
use robo_control.Worker.Repeat.{sans_update_time, process_task_feedback_again}
use robo_control.Webhook.{TaskFeedbackPayload, handle_task_feedback, model_dump}
use robo_control.Webhook.Branches.{Handled, handle_task_feedback-Handled, duplicate_ack}
use robo_control.Webhook.Once.{Call, receive, receive_all, feedback_once, feedback_lost}
use robo_control.Webhook.Route.{task_feedback, task_feedback-malformed, read_feedback-model_dump}
use robo_control.Tests

abbrev pub row : TaskHistory
row = record {
  robot_task_code = "T1";
  status = pending;
  robot_code = none;
  source_code = some "A";
  target_code = some "B";
  idempotency_key = some "k";
  start_time = none;
  end_time = none;
  error_msg = none;
  created_at = 800;
  updated_at = 800;
}

abbrev db_row : Db
db_row = record Tests.db { tasks = row ∷ [] }

abbrev pub populated : World
populated = record Tests.start { db = db_row; tx = db_row }

abbrev pub message : String → Fields
message method =
    object (("robotTaskCode", str "T1") ∷ ("method", str method) ∷ ("amrCode", str "R7") ∷ [])

abbrev pub deliveries : List (ℕ × Fields)
deliveries = (1001, message "start") ∷ (1050, message "end") ∷ (1060, message "start") ∷ []

deliver_all-Evolves_example :
    (u : TaskHistory) × (get_by_robot_task_code "T1"
        (deliver_all Tests.env deliveries populated).db.tasks
      ≡ some u)
    × Evolves row u
unfolding get_by_robot_task_code
deliver_all-Evolves_example = deliver_all-Evolves Tests.env deliveries populated "T1" row refl

abbrev processed_once : World
processed_once = (process_task_feedback Tests.env (message "end") populated).1

processes :
    process_task_feedback Tests.env (message "end") populated
    ≡ (ok (processed true true), processed_once)
unfolding process_task_feedback read_feedback robo_control.Text.strip
    robo_control.Client.Response.text_at robo_control.Worker.process_feedback
    robo_control.Worker.update_task_history robo_control.Worker.feedback_update
    get_by_robot_task_code robo_control.Worker.apply_update robo_control.Worker.write_update
    robo_control.World.Session.statement robo_control.World.Session.commit
    robo_control.Worker.update_robot_state robo_control.Json.get_or_null
    robo_control.Database.Tasks.matched_rows
processes = λ i. (reports i, processed_once)
  where
    reports :
        (process_task_feedback Tests.env (message "end") populated).0 ≡ ok (processed true true)
    reports = refl

process_task_feedback_again_example :
    (u v : TaskHistory) × (get_by_robot_task_code "T1" processed_once.db.tasks ≡ some u)
    × (get_by_robot_task_code "T1" (deliver Tests.env (2000, message "end") processed_once).db.tasks
        ≡ some v)
    × (sans_update_time v ≡ sans_update_time u)
unfolding get_by_robot_task_code
process_task_feedback_again_example =
    process_task_feedback_again Tests.env "T1" (message "end") populated processed_once 2000
      (processed true true) row refl processes

abbrev payload : TaskFeedbackPayload
payload = record {
  robot_task_code = "T1";
  method = "end";
  x = none;
  y = none;
  amr_code = some "R7";
  error_msg = none;
  extra = end;
}

handle_task_feedback-Handled_example :
    Handled Tests.env true "{}" payload
      (some "hook{}")
      populated
      (handle_task_feedback Tests.env true "{}" payload (some "hook{}") populated).0
      (handle_task_feedback Tests.env true "{}" payload (some "hook{}") populated).1
handle_task_feedback-Handled_example =
    handle_task_feedback-Handled Tests.env true "{}" payload (some "hook{}") populated refl

abbrev call_at : ℕ → Call
call_at time = record { time = time; raw_body = "{}"; signature = some "hook{}"; payload = payload }

-- The world in which the same feedback came at 1000 and at 2000.
abbrev twice : World
twice = receive_all Tests.env (call_at 2000 ∷ []) (receive Tests.env (call_at 1000) populated).1

feedback_once_example :
    ((receive Tests.env (call_at 4599) twice).0 ≡ ok duplicate_ack)
    × ((receive Tests.env (call_at 4599) twice).1.queue ≡ twice.queue)
unfolding robo_control.Security.verify_webhook_signature robo_control.Redis.get
feedback_once_example =
    feedback_once Tests.env (call_at 1000) (call_at 4599) (call_at 2000 ∷ []) populated refl refl
      (omega arith, tt) (omega arith) refl refl refl

abbrev broken : Env
broken = record Tests.env { broker_error = λ _. some "connection refused" }

abbrev lost : World
lost = (receive broken (call_at 1000) populated).1

feedback_lost_example :
    ((receive broken (call_at 1000) populated).0
      ≡ raise (builtin broker_error "connection refused"))
    × (lost.queue ≡ [])
    × ((receive broken (call_at 1010) lost).0 ≡ ok duplicate_ack)
    × ((receive broken (call_at 1010) lost).1.queue ≡ [])
unfolding robo_control.Security.verify_webhook_signature robo_control.Redis.get
feedback_lost_example =
    feedback_lost broken (call_at 1000) (call_at 1010) populated "connection refused" refl refl refl
      (omega arith) refl refl refl

abbrev model_validate : Json → Result TaskFeedbackPayload
model_validate (obj end) =
    raise (builtin validation_error "2 validation errors for TaskFeedbackPayload")
model_validate _ = ok payload

abbrev reading_braces : Env
reading_braces = record Tests.env { loads = λ _. some (obj end) }

task_feedback-malformed_example :
    (task_feedback reading_braces model_validate "{}" none populated
      ≡ (raise (builtin validation_error "2 validation errors for TaskFeedbackPayload"), populated))
    × ((handle_exception "r"
          (builtin validation_error "2 validation errors for TaskFeedbackPayload")).status_code
        ≡ 500)
task_feedback-malformed_example =
    task_feedback-malformed reading_braces model_validate "{}" none (obj end)
      "2 validation errors for TaskFeedbackPayload" "r" populated refl refl

read_feedback-model_dump_example : read_feedback Tests.env (model_dump payload) ≡ record {
  robot_task_code = robo_control.Text.strip "T1";
  method = robo_control.Text.strip "end";
  amr_code = some "R7";
  error_msg = none;
}
read_feedback-model_dump_example = read_feedback-model_dump Tests.env payload

commits :
    (n : ℕ) (d : Db) → (Tests.env.commit_error n d ≡ none) × (Tests.env.statement_error n d ≡ none)
commits n d = (refl, refl)

deliver_all-run_example :
    (u : TaskHistory) × (get_by_robot_task_code "T1"
        (deliver_all Tests.env deliveries populated).db.tasks
      ≡ some u)
    × (u.status ≡ run pending (events Tests.env "T1" deliveries))
unfolding get_by_robot_task_code
deliver_all-run_example = deliver_all-run Tests.env commits deliveries "T1" populated row refl
