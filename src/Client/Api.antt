-- ===== src/Client/Api.antt =====
-- The public calls of `RCS2000Client`.
pub mod Laws
use mathlib.Core.List
use robo_control.Prelude.{
  String, Bool, true, false, ◌||◌, Option, none, some, List, [], ◌∷◌, str_eq, if◌then◌else◌,
}
use robo_control.Text.{concat, upper}
use robo_control.Json.{Json, str, obj, object}
use robo_control.Errors.{Exn, builtin, value_error, raise}
use robo_control.World.{Env}
use robo_control.RcsPath.{
  rcs_path_prefix, rcs_task_submit_path, rcs_task_cancel_path, rcs_robot_status_path,
}
use robo_control.Client.Wire.{Wire, lift}
use robo_control.Client.Request.{do_plain_request}
use robo_control.Client.Retry.{request}

abbrev pub is_get_or_post : String → Bool
is_get_or_post method = str_eq method "GET" || str_eq method "POST"

abbrev pub unsupported : String → Exn
unsupported method = builtin value_error (concat ("Unsupported HTTP method: " ∷ method ∷ []))

module _ (env : Env) where
  unfoldable pub submit_task : Json → Wire Json
  unfolding request
  submit_task payload =
      request env "POST" (concat (rcs_path_prefix ∷ rcs_task_submit_path ∷ [])) (some payload) false
        []

  unfoldable pub get_robot_status : String → Wire Json
  unfolding request
  get_robot_status robot_code =
      request env "GET" (concat (rcs_path_prefix ∷ rcs_robot_status_path ∷ [])) none true
        (("robotCode", robot_code) ∷ [])

  unfoldable pub cancel_task : String → Wire Json
  unfolding request
  cancel_task robot_task_code =
      request env "POST" (concat (rcs_path_prefix ∷ rcs_task_cancel_path ∷ []))
        (some (obj (object (("robotTaskCode", str robot_task_code) ∷ [])))) true []

  -- The body goes out with POST only, and GET alone is retried.
  unfoldable pub signed_request : String → String → Option Json → Wire Json
  unfolding request upper
  signed_request method path body =
      let method_u = upper method in
      if is_get_or_post method_u
      then request env method_u path (if str_eq method_u "POST" then body else none)
          (str_eq method_u "GET") []
      else lift (raise (unsupported method))

  unfoldable pub plain_request : String → String → Option Json → Wire Json
  unfolding do_plain_request upper
  plain_request method path body =
      let method_u = upper method in
      if is_get_or_post method_u
      then do_plain_request env method_u path body
      else lift (raise (unsupported method))
