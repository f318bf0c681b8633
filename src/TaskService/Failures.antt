-- ===== src/TaskService/Failures.antt =====
-- How a creation ends when RCS-2000 answers 5xx, and when the key is in the task table already.
use robo_control.Prelude.{ℕ, ◌≤◌, String, ◌≡◌, refl, false, Option, none, some, [], ◌∷◌, ◌∙◌, ap}
use robo_control.Text.{concat}
use robo_control.Json.{Json}
use robo_control.Json.Print.{print_nat}
use robo_control.Errors.{
  Exn, builtin, integrity_error, retryable_upstream, ok, raise, handle_exception,
}
use robo_control.Redis
use robo_control.Database.{RobotType}
use robo_control.Database.Tasks.{TaskHistory, get_by_idempotency_key}
use robo_control.Database.Tasks.Rows.{violates_unique_of_key}
use robo_control.World.{Env, World, Outgoing, response, ◌>>◌, pure}
use robo_control.World.Rules.{bind-ok, bind-raise, or_rollback-raise}
use robo_control.World.Session.{flush_task, commit}
use robo_control.World.Session.Laws.{flush_task-duplicate}
use robo_control.Client.Wire.{call}
use robo_control.Client.Request.{interpret}
use robo_control.Client.Api.{submit_task}
use robo_control.Client.Api.Laws.{submission, submit_path, submit_task_lem, submit_task-5xx}
use robo_control.TaskService.Schemas.{TaskCreateRequest, build_submit_payload}
use robo_control.TaskService.Cache.{cached_answer, lookup_idempotency, save_idempotency}
use robo_control.TaskService.{
  new_task, extract_task_code, persist, created, store_task, store_reply, submit_as, robot_type_of,
  submit_and_store, answer_or, create_task,
}

module _ (env : Env) (request : TaskCreateRequest) (key : Option String) (w : World)
    (robot_type : RobotType) where
  abbrev pub payload : Json
  payload = build_submit_payload request robot_type.rcs_task_type

  abbrev pub redis_get : String → Option String
  redis_get k = Redis.get w.now k w.redis

  -- The request with which the task is submitted.
  abbrev pub submitted : Outgoing
  submitted = submission env payload redis_get w.sent

  abbrev pub after_submit : World
  after_submit = record w { sent = submitted ∷ w.sent }

  module _ (missed : cached_answer env key request w ≡ ok none)
      (known : robot_type_of env request w ≡ ok robot_type) where
    create_task_miss : create_task env request key w ≡ submit_as env request key robot_type w
    unfolding create_task submit_and_store
    create_task_miss =
        bind-ok (lookup_idempotency env key request)
          (answer_or env (submit_and_store env request key)) w w none (ap (λ r. (r, w)) missed)
        ∙ bind-ok (λ v. (robot_type_of env request w, v)) (submit_as env request key) w w robot_type
            (ap (λ r. (r, w)) known)

    -- The cache has no answer, the robot type is known, and RCS-2000 answers the submission with 5xx:
    -- then the internal marker of the client leaves `create_task` after the one request, and the
    -- handlers answer it with a plain 500, not the 502 of an upstream error.
    pub create_task-5xx :
        (status : ℕ) (text request_id : String)
        → env.http submitted w.sent ≡ response status text
        → 500 ≤ status
        → let leak =
            retryable_upstream
              (concat ("RCS 5xx " ∷ print_nat status ∷ " on " ∷ submit_path ∷ [])) in
          (create_task env request key w ≡ (raise leak, after_submit))
          × ((handle_exception request_id leak).status_code ≡ 500)
    unfolding submit_as handle_exception
    create_task-5xx status text request_id answered bad = (
      create_task_miss
          ∙ bind-raise (call (submit_task env payload)) (store_reply env request key) w after_submit
              _
              (ap (λ r. (r.0, record w { sent = r.1 }))
                (submit_task-5xx env payload redis_get w.sent status text answered bad)),
      refl,
    )

    -- RCS-2000 accepts the task under some code and the insert of its row fails: the exception
    -- leaves `create_task`, the session is rolled back, and the task stays submitted.
    pub create_task-unsaved :
        (code : String) (reply : Json) (e : Exn)
        → interpret env false "POST" submit_path (env.http submitted w.sent) ≡ ok reply
        → extract_task_code env reply ≡ ok code
        → flush_task env (new_task env code request key after_submit) after_submit
          ≡ (raise e, after_submit)
        → create_task env request key w ≡ (raise e, record after_submit { tx = w.db })
    unfolding submit_as store_reply store_task persist
    create_task-unsaved code reply e answered extracted refused =
        let new = new_task env code request key after_submit in
        create_task_miss
        ∙ bind-ok (call (submit_task env payload)) (store_reply env request key) w after_submit
            reply
            (ap (λ r. (r.0, record w { sent = r.1 }))
              (submit_task_lem env payload redis_get w.sent
                ∙ ap (λ r. (r, submitted ∷ w.sent)) answered))
        ∙ bind-ok (λ v. (extract_task_code env reply, v)) (store_task env request key) after_submit
            after_submit code (ap (λ r. (r, after_submit)) extracted)
        ∙ bind-raise (persist env code request key)
            (λ _. save_idempotency env key request (created env code) >> pure (created env code))
            after_submit (record after_submit { tx = w.db }) e
            (or_rollback-raise (flush_task env new >> commit env) after_submit after_submit e (
              bind-raise (flush_task env new) (λ _. commit env) after_submit after_submit e
                refused))

    -- The cache has no answer for a key that a row in the session holds, the robot type is known, and
    -- RCS-2000 accepts the task under some code: then the task has been submitted to RCS-2000 once
    -- more, and only after that does the insert fail.
    pub create_task-resubmits :
        (k code : String) (reply : Json) (t : TaskHistory)
        → key ≡ some k
        → get_by_idempotency_key k w.tx.tasks ≡ some t
        → interpret env false "POST" submit_path (env.http submitted w.sent) ≡ ok reply
        → extract_task_code env reply ≡ ok code
        → create_task env request key w
          ≡ (raise (builtin integrity_error "Duplicate entry"), record after_submit { tx = w.db })
    create_task-resubmits k code reply t is_key taken answered extracted =
        let new = new_task env code request key after_submit in
        create_task-unsaved code reply (builtin integrity_error "Duplicate entry") answered
          extracted
          (flush_task-duplicate env new after_submit
            (violates_unique_of_key new t k w.tx.tasks is_key taken))
