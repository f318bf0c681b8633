-- ===== src/Migrations/Sizes.antt =====
-- Task rows and the widths of their columns, from the request to the table, where nothing bounds the key.
use robo_control.Prelude.{◌<◌, ◌≡◌, inl, inr, refl, String, false, none, some, Bool-cases}
use robo_control.Text.{text_length}
use robo_control.Json.{Json}
use robo_control.Errors.{Exn, ok, raise, builtin, integrity_error}
use robo_control.Database.{RobotType}
use robo_control.Database.Tasks.{TaskHistory, violates_unique}
use robo_control.World.{Env, World}
use robo_control.World.Session.{flush_task}
use robo_control.World.Session.Laws.{flush_task-duplicate}
use robo_control.Client.Request.{interpret}
use robo_control.Client.Api.Laws.{submit_path}
use robo_control.TaskService.Schemas.{TaskCreateRequest}
use robo_control.TaskService.Cache.{cached_answer}
use robo_control.TaskService.{new_task, extract_task_code, robot_type_of, create_task}
use robo_control.TaskService.Failures.{submitted, after_submit, create_task-unsaved}
use robo_control.Migrations.Cells.{task_fits, long_key-fits}

module _ (env : Env) where
  module _
      (refuses : (t : TaskHistory)
        → task_fits t ≡ false
        → (reason : String) × (env.flush_error t ≡ some reason)) where
    flush_task-refused :
        (t : TaskHistory) (w : World)
        → task_fits t ≡ false
        → (e : Exn) × (flush_task env t w ≡ (raise e, w))
    unfolding flush_task
    flush_task-refused t w wide =
        let (reason, refused) = refuses t wide in
        elim (Bool-cases (violates_unique t w.tx.tasks)) [
          | inl taken ↦
              (builtin integrity_error "Duplicate entry", flush_task-duplicate env t w taken)
          | inr free ↦ (builtin integrity_error reason, rw (free, refused) refl)
        ]

    -- Where the database refuses a row that its table does not take, a creation under a key of more than 255 characters, which nothing else refuses, submits the task and then raises: RCS-2000 has the task, no row is stored and nothing is cached.
    pub create_task-long_key :
        (request : TaskCreateRequest) (k code : String) (reply : Json) (w : World)
        (robot_type : RobotType)
        → 255 < text_length k
        → cached_answer env (some k) request w ≡ ok none
        → robot_type_of env request w ≡ ok robot_type
        → interpret env false "POST" submit_path
            (env.http (submitted env request (some k) w robot_type) w.sent)
          ≡ ok reply
        → extract_task_code env reply ≡ ok code
        → (e : Exn) × (create_task env request (some k) w
            ≡ (raise e, record (after_submit env request (some k) w robot_type) { tx = w.db }))
    create_task-long_key request k code reply w robot_type long missed known answered extracted =
        let after = after_submit env request (some k) w robot_type in
        let (e, refused) =
          flush_task-refused (new_task env code request (some k) after) after
            (long_key-fits env code request k after long) in
        (
          e,
          create_task-unsaved env request (some k) w robot_type missed known code reply e answered
              extracted refused,
        )
