-- ===== src/Tests/Creation.antt =====
-- Task creation on concrete inputs.
use robo_control.Prelude.{◌≡◌, ◌≢◌, refl, some, none, true, [], ◌∷◌, arith, str_eq, eq_refl, sym}
use mathlib.Core.Path.{subst}
use robo_control.Errors.{ok, raise, retryable_upstream, handle_exception, builtin, integrity_error}
use robo_control.Database.{RobotType, Db}
use robo_control.Database.Tasks.{TaskHistory, get_by_idempotency_key, completed}
use robo_control.World.{World, Env, response}
use robo_control.Client.Request.{interpret}
use robo_control.TaskService.{create_task, robot_type_of, extract_task_code}
use robo_control.TaskService.Cache.{cached_answer, duplicate, write_cache}
use robo_control.TaskService.Creation.{Created, create_task-Created, create_task_twice}
use robo_control.TaskService.Replay.{ReadsBack, create_task_conflict}
use robo_control.TaskService.Failures.{create_task-5xx, create_task-resubmits, after_submit}
use robo_control.TaskService.Schemas.{fingerprint}
use robo_control.Tests

abbrev after : World
after = (create_task Tests.env Tests.request_a (some "k") Tests.start).1

abbrev later : World
later = record after { now = 2000 }

creates_a :
    create_task Tests.env Tests.request_a (some "k") Tests.start ≡ (ok Tests.created_a, after)
unfolding create_task robo_control.TaskService.Cache.cache_refusal
    robo_control.TaskService.Cache.cached_answer robo_control.Redis.get
    robo_control.TaskService.submit_and_store robo_control.TaskService.get_by_name
    robo_control.TaskService.submit_as robo_control.Client.Api.submit_task
    robo_control.Client.Response.parse_response robo_control.TaskService.store_reply
    robo_control.TaskService.extract_task_code robo_control.TaskService.store_task
    robo_control.TaskService.persist robo_control.World.Session.flush_task
    robo_control.Database.Tasks.get_by_robot_task_code
    robo_control.Database.Tasks.get_by_idempotency_key robo_control.World.Session.commit
    robo_control.Database.Tasks.status_value
creates_a = λ i. (answers_a i, after)
  where
    answers_a :
        (create_task Tests.env Tests.request_a (some "k") Tests.start).0 ≡ ok Tests.created_a
    answers_a = refl

reads_a : ReadsBack Tests.env "k" Tests.request_a Tests.created_a
unfolding fingerprint Tests.show robo_control.TaskService.Cache.cache_envelope
reads_a = (refl, refl)

create_task-Created_example :
    Created Tests.env Tests.request_a
      (some "k")
      Tests.start
      (create_task Tests.env Tests.request_a (some "k") Tests.start)
create_task-Created_example =
    create_task-Created Tests.env Tests.request_a (some "k") Tests.start refl

create_task_twice_example :
    create_task Tests.env Tests.request_a (some "k") later
    ≡ (ok (record Tests.created_a { cached = true }), later)
create_task_twice_example =
    create_task_twice Tests.env Tests.request_a "k" Tests.start after later Tests.created_a refl
      refl creates_a refl reads_a refl (omega arith)

abbrev cached : World
cached = write_cache Tests.env (some "k") Tests.request_a Tests.created_a Tests.start

fingerprints_differ : fingerprint Tests.env Tests.request_b ≢ fingerprint Tests.env Tests.request_a
unfolding fingerprint Tests.show
fingerprints_differ h =
    let text_a = fingerprint Tests.env Tests.request_a in
    let text_b = fingerprint Tests.env Tests.request_b in
    let same : str_eq text_b text_a ≡ true =
      subst (λ t. str_eq t text_a ≡ true) (sym h) (eq_refl text_a) in
    ground (arith, same)

create_task_conflict_example :
    create_task Tests.env Tests.request_b (some "k") cached
    ≡ (raise (duplicate "Idempotency-Key reused with a different payload." "k"), cached)
unfolding write_cache
create_task_conflict_example =
    create_task_conflict Tests.env "k" Tests.request_a Tests.created_a Tests.start cached refl
      reads_a (refl, omega arith) Tests.request_b fingerprints_differ

abbrev lift : RobotType
lift = record { name = "lift"; description = none; rcs_task_type = "F01" }

abbrev failing : Env
failing = record Tests.env { http = λ _ _. response 503 "" }

misses :
    (env : Env)
    → (w : World) → w.redis ≡ []
    → cached_answer env (some "k") Tests.request_a w ≡ ok none
unfolding cached_answer robo_control.Redis.get
misses env w h = rw h refl

create_task-5xx_example :
    (create_task failing Tests.request_a (some "k") Tests.start ≡ (
      raise (retryable_upstream "RCS 5xx 503 on /rcs/rtas/api/robot/controller/task/submit"),
      after_submit failing Tests.request_a (some "k") Tests.start lift,
    ))
    × ((handle_exception "r" (
          retryable_upstream
            "RCS 5xx 503 on /rcs/rtas/api/robot/controller/task/submit")).status_code
        ≡ 500)
unfolding robo_control.TaskService.get_by_name robo_control.Json.Print.print_nat
create_task-5xx_example =
    create_task-5xx failing Tests.request_a (some "k") Tests.start lift
      (misses failing Tests.start refl) refl 503 "" "r" refl (omega arith)

abbrev done : TaskHistory
done = record {
  robot_task_code = "T0";
  status = completed;
  robot_code = none;
  source_code = some "A";
  target_code = some "B";
  idempotency_key = some "k";
  start_time = none;
  end_time = some 900;
  error_msg = none;
  created_at = 800;
  updated_at = 900;
}

abbrev db_done : Db
db_done = record Tests.db { tasks = done ∷ [] }

abbrev next_day : World
next_day = record Tests.start { now = 100000; db = db_done; tx = db_done }

create_task-resubmits_example : create_task Tests.env Tests.request_a (some "k") next_day ≡ (
  raise (builtin integrity_error "Duplicate entry"),
  record (after_submit Tests.env Tests.request_a (some "k") next_day lift) { tx = db_done },
)
unfolding robo_control.TaskService.get_by_name get_by_idempotency_key interpret
    robo_control.Client.Response.parse_response extract_task_code
create_task-resubmits_example =
    create_task-resubmits Tests.env Tests.request_a (some "k") next_day lift
      (misses Tests.env next_day refl) refl "k" "T1" Tests.reply done refl refl refl refl
