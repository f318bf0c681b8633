-- ===== src/Tests/Sizing.antt =====
-- A key that is too long for its column.
use robo_control.Prelude.{◌≡◌, refl, String, Bool, true, false, Option, none, some, arith}
use robo_control.Errors.{Exn, raise}
use robo_control.Database.{RobotType}
use robo_control.Database.Tasks.{TaskHistory}
use robo_control.World.{Env}
use robo_control.TaskService.{new_task, create_task}
use robo_control.TaskService.Failures.{after_submit}
use robo_control.Migrations.Cells.{task_fits}
use robo_control.Migrations.Sizes.{create_task-long_key}
use robo_control.Tests

abbrev long : String
long =
    "kkkkkkkkkkkkkkkkkkkkkkkkkkkkkkkkkkkkkkkkkkkkkkkkkkkkkkkkkkkkkkkkkkkkkkkkkkkkkkkkkkkkkkkkkkkkkkkkkkkkkkkkkkkkkkkkkkkkkkkkkkkkkkkkkkkkkkkkkkkkkkkkkkkkkkkkkkkkkkkkkkkkkkkkkkkkkkkkkkkkkkkkkkkkkkkkkkkkkkkkkkkkkkkkkkkkkkkkkkkkkkkkkkkkkkkkkkkkkkkkkkkkkkkkkkkkkkkk"

abbrev refusal : Bool → Option String
refusal true = none
refusal false = some "Data too long for column"

abbrev strict : Env
strict = record Tests.env { flush_error = λ t. refusal (task_fits t) }

refuses :
    (t : TaskHistory)
    → task_fits t ≡ false
    → (reason : String) × (strict.flush_error t ≡ some reason)
refuses t wide = ("Data too long for column", rw wide refl)

abbrev lift : RobotType
lift = record { name = "lift"; description = none; rcs_task_type = "F01" }

create_task-long_key_example :
    (e : Exn) × (create_task strict Tests.request_a (some long) Tests.start ≡ (
      raise e,
      record (after_submit strict Tests.request_a (some long) Tests.start lift) {
        tx = Tests.start.db;
      },
    ))
unfolding robo_control.Text.text_length robo_control.TaskService.Cache.cached_answer
    robo_control.Redis.get robo_control.TaskService.get_by_name
    robo_control.Client.Request.interpret robo_control.Client.Response.parse_response
    robo_control.TaskService.extract_task_code
create_task-long_key_example =
    create_task-long_key strict refuses Tests.request_a long "T1" Tests.reply Tests.start lift
      (omega arith) refl refl refl refl
