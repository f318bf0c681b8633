-- ===== src/Tests/Robots.antt =====
-- The listing of robot states on concrete texts.
use robo_control.Prelude.{
  ℕ, arith, ◌≡◌, refl, true, String, Option, none, some, [], ◌∷◌, if◌then◌else◌, str_eq,
}
use robo_control.Json.{Json, str, null, boolean, int, float, arr, obj, Fields, object}
use robo_control.Errors.{Result, ok, raise, Exn, builtin, validation_error}
use robo_control.Redis.Keys.{robot_state_key}
use robo_control.Database.Tasks.{running}
use robo_control.World.{World, Env}
use robo_control.Worker.{state_payload, update_robot_state}
use robo_control.Dashboard.Robots.{RobotStatusResponse, list_robot_states, is_skipped}
use robo_control.Dashboard.Robots.Cached.{list_robot_states_cached}
use robo_control.Tests

abbrev seen : RobotStatusResponse
seen = record {
  amr_code = "R7";
  x = none;
  y = none;
  state = some "running";
  updated_at = some 1000;
}

abbrev feedback : Fields
feedback = object (("robotTaskCode", str "T1") ∷ [])

abbrev env : Env
env = record Tests.env {
  dumps_default = λ _. "STATE";
  loads = λ text.
      if str_eq text "STATE"
      then some (state_payload Tests.env Tests.start running "R7" feedback)
      else none;
}

abbrev pub fromisoformat : String → Option ℕ
fromisoformat _ = some 1000

-- A response model that accepts the robot R7 alone.
abbrev pub validate : Json → Json → Json → Json → Option ℕ → Result RobotStatusResponse
validate (str code) x y state updated_at =
    if str_eq code "R7" then ok seen else raise (builtin validation_error "")
validate _ x y state updated_at = raise (builtin validation_error "")

list_robot_states_cached_example :
    (list_robot_states env fromisoformat validate
      (robot_state_key "R7" ∷ [])
      (record (update_robot_state env (some "R7") feedback running Tests.start).1 { now = 1299 })).0
    ≡ ok (seen ∷ [])
unfolding Tests.show state_payload
list_robot_states_cached_example =
    list_robot_states_cached env fromisoformat validate Tests.start "R7" feedback running seen refl
      refl refl refl refl refl 1299

validate-skips :
    (a x y s : Json) (t : Option ℕ) (e : Exn) → validate a x y s t ≡ raise e → is_skipped e ≡ true
validate-skips (str code) x y s t e h = ground arith
validate-skips null x y s t e h = ground arith
validate-skips (boolean b) x y s t e h = ground arith
validate-skips (int n) x y s t e h = ground arith
validate-skips (float d) x y s t e h = ground arith
validate-skips (arr vs) x y s t e h = ground arith
validate-skips (obj fs) x y s t e h = ground arith

abbrev stored : World
stored = record Tests.start {
  redis = ("robot:R7:state", record { value = "STATE"; expires = some 1300 }) ∷ [];
}
