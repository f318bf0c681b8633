-- ===== src/TaskService.antt =====
-- app/services/task_service.py: robot type lookup, submission to RCS-2000, persistence, and the
-- idempotency cache. The request and response schemas are of app/schemas/task.py.
pub mod Schemas
pub mod Cache
pub mod Replay
pub mod Effects
pub mod Creation
pub mod Failures
use robo_control.Prelude.{
  String, Bool, true, false, not, Option, none, some, List, [], ◌∷◌, str_eq, if◌then◌else◌,
}
use robo_control.Text.{concat, is_empty}
use robo_control.Json.{Json, str, obj, end, Fields, object, get_or_null, truthy, or_empty}
use robo_control.Errors.{
  Exn, app, Result, ok, raise, new_error, robot_type_not_found_error, rcs_client_error,
}
use robo_control.Database.{RobotType}
use robo_control.Database.Tasks.{TaskHistory, TaskStatus, pending, status_value}
use robo_control.World.{Env, World, App, pure, throw, lift, gets, ◌>>=◌, ◌>>◌}
use robo_control.World.Session.{flush_task, commit, or_rollback}
use robo_control.Client.Wire.{call}
use robo_control.Client.Response.{as_object, py_str}
use robo_control.Client.Api.{submit_task}
use Schemas.{TaskCreateRequest, TaskCreateResponseData, build_submit_payload}
use Cache.{lookup_idempotency, save_idempotency}

-- `RobotTypeRepository.get_by_name`
unfoldable pub get_by_name : String → List RobotType → Option RobotType
get_by_name name [] = none
get_by_name name (t ∷ ts) = if str_eq t.name name then some t else get_by_name name ts

abbrev pub type_not_found : String → Exn
type_not_found name = app (
    new_error robot_type_not_found_error
      (some (concat ("Robot type '" ∷ name ∷ "' not found." ∷ []))) none none
      (some (obj (object (("robotType", str name) ∷ [])))))

abbrev or_not_found : String → Option RobotType → Result RobotType
or_not_found name none = raise (type_not_found name)
or_not_found name (some t) = ok t

abbrev pub first_truthy : Json → Json → Json
first_truthy a b = if truthy a then a else b

abbrev malformed : Json → Exn
malformed rcs_response = app (
    new_error rcs_client_error (some "RCS submit response missing robotTaskCode")
      (some "RCS_MALFORMED_RESPONSE") none (some (obj (object (("response", rcs_response) ∷ [])))))

-- `data.get("robotTaskCode") or rcs_response.get("robotTaskCode")` with the `data` before it.
unfoldable pub task_code_value : Json → Result Json
unfolding as_object get_or_null truthy
task_code_value rcs_response = elim (as_object rcs_response) [
  | raise e ↦ raise e
  | ok fs ↦ elim (as_object (or_empty (get_or_null "data" fs))) [
    | raise e ↦ raise e
    | ok inner ↦
        ok (first_truthy (get_or_null "robotTaskCode" inner) (get_or_null "robotTaskCode" fs))
  ]
]

module _ (env : Env) where
  -- `_extract_task_code`
  unfoldable pub extract_task_code : Json → Result String
  unfolding task_code_value truthy py_str new_error
  extract_task_code rcs_response = elim (task_code_value rcs_response) [
    | raise e ↦ raise e
    | ok code ↦ if truthy code then ok (py_str env code) else raise (malformed rcs_response)
  ]

  -- The new row of `TaskHistoryRepository.create`; the server sets both times.
  abbrev pub new_task : String → TaskCreateRequest → Option String → World → TaskHistory
  new_task code request key w = record {
    robot_task_code = code;
    status = pending;
    robot_code = none;
    source_code = some request.source_code;
    target_code = some request.target_code;
    idempotency_key = key;
    start_time = none;
    end_time = none;
    error_msg = none;
    created_at = w.now;
    updated_at = w.now;
  }

  -- Step 5: create, commit, and roll back on any exception.
  unfoldable pub persist : String → TaskCreateRequest → Option String → App (Unit {0})
  persist code request key =
      or_rollback (do t ← gets (new_task code request key); flush_task env t; commit env)

  abbrev pub created : String → TaskCreateResponseData
  created code = record { robot_task_code = code; status = status_value pending; cached = false }

  -- Steps 5 and 6, for the task code of the reply.
  unfoldable pub store_task :
      TaskCreateRequest → Option String → String → App TaskCreateResponseData
  store_task request key code = do
    persist code request key
    save_idempotency env key request (created code)
    pure (created code)

  -- From the reply of RCS-2000 on.
  unfoldable pub store_reply : TaskCreateRequest → Option String → Json → App TaskCreateResponseData
  store_reply request key rcs_response = do
    code ← lift (extract_task_code rcs_response)
    store_task request key code

  -- Steps 3 to 6, for the robot type that was found.
  unfoldable pub submit_as :
      TaskCreateRequest → Option String → RobotType → App TaskCreateResponseData
  submit_as request key robot_type = do
    rcs_response ← call (submit_task env (build_submit_payload request robot_type.rcs_task_type))
    store_reply request key rcs_response

  abbrev pub robot_type_of : TaskCreateRequest → World → Result RobotType
  robot_type_of request w =
      or_not_found request.robot_type (get_by_name request.robot_type w.tx.robot_types)

  -- Steps 2 to 6.
  unfoldable pub submit_and_store : TaskCreateRequest → Option String → App TaskCreateResponseData
  submit_and_store request key = do
    found ← gets (robot_type_of request)
    robot_type ← lift found
    submit_as request key robot_type

  abbrev answer_or :
      App TaskCreateResponseData → Option TaskCreateResponseData → App TaskCreateResponseData
  answer_or m (some cached) = pure cached
  answer_or m none = m

  -- `create_task`
  unfoldable pub create_task : TaskCreateRequest → Option String → App TaskCreateResponseData
  create_task request key = do
    cached ← lookup_idempotency env key request
    answer_or (submit_and_store request key) cached
