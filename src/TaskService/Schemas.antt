-- ===== src/TaskService/Schemas.antt =====
-- `TaskCreateRequest`, `TaskCreateResponseData`, their `model_dump(by_alias=True)`, and the payload
-- that is sent to RCS-2000.
use robo_control.Prelude.{ℕ, String, Bool, [], ◌∷◌}
use robo_control.Json.{Json, int, pos, str, boolean, obj, object}
use robo_control.World.{Env}

pub record TaskCreateRequest : Type 0 where
  pub robot_type : String
  pub source_code : String
  pub target_code : String
  pub priority : ℕ

pub record TaskCreateResponseData : Type 0 where
  pub robot_task_code : String
  pub status : String
  pub cached : Bool

unfoldable pub dump_request : TaskCreateRequest → Json
dump_request r = obj (
    object (
      ("robotType", str r.robot_type)
      ∷ ("sourceCode", str r.source_code)
      ∷ ("targetCode", str r.target_code)
      ∷ ("priority", int (pos r.priority))
      ∷ []))

unfoldable pub dump_response : TaskCreateResponseData → Json
dump_response r = obj (
    object (
      ("robotTaskCode", str r.robot_task_code)
      ∷ ("status", str r.status)
      ∷ ("cached", boolean r.cached)
      ∷ []))

-- `_fingerprint`
unfoldable pub fingerprint : Env → TaskCreateRequest → String
unfolding dump_request
fingerprint env r = env.dumps_sorted (dump_request r)

-- `_build_target_route`
unfoldable pub build_target_route : TaskCreateRequest → Json
build_target_route r =
    obj (object (("targetCode", str r.target_code) ∷ ("priority", int (pos r.priority)) ∷ []))

-- `_build_submit_payload`
unfoldable pub build_submit_payload : TaskCreateRequest → String → Json
unfolding build_target_route
build_submit_payload r rcs_task_type = obj (
    object (
      ("taskTyp", str rcs_task_type)
      ∷ ("sourceCode", str r.source_code)
      ∷ ("targetRoute", build_target_route r)
      ∷ ("priority", int (pos r.priority))
      ∷ []))
