-- ===== src/RcsSubmit/Preview.antt =====
-- `preview` of app/services/rcs_submit_service.py: where a submission would go, and an example.
use robo_control.Prelude.{String, [], ◌∷◌}
use robo_control.Text.{concat, rstrip_slash}
use robo_control.Json.{nil, cons, str, arr, obj, Fields, object}
use robo_control.World.{Env, App, pure, ◌>>=◌}
use robo_control.RcsPath.{rcs_path_prefix, rcs_task_submit_path}
use robo_control.Config.{ConnectionSettings, get_connection_settings}
use robo_control.RcsSubmit.Body.{Method, post}

-- `RcsSubmitPreviewData`
pub record RcsSubmitPreviewData : Type 0 where
  pub resolved_base_url : String
  pub method : Method
  pub path : String
  pub full_url_without_sign : String
  pub example_body : Fields

-- `_default_submit_path`
abbrev pub default_submit_path : String
default_submit_path = concat (rcs_path_prefix ∷ rcs_task_submit_path ∷ [])

-- `_example_submit_body`
abbrev pub example_submit_body : Fields
example_submit_body = object (
    ("taskType", str "CT71")
    ∷ (
      "targetRoute",
      arr (
          cons (obj (object (("type", str "SITE") ∷ ("code", str "PW-CELL-3") ∷ [])))
            (cons (obj (object (("type", str "SITE") ∷ ("code", str "GP") ∷ []))) nil)),
    )
    ∷ (
      "extra",
      obj (
          object (
            (
              "carrierInfo",
              arr (
                  cons
                    (obj (object (("carrierType", str "4") ∷ ("carrierCode", str "100003") ∷ [])))
                    nil),
            )
            ∷ [])),
    )
    ∷ [])

abbrev pub preview_of : ConnectionSettings → RcsSubmitPreviewData
preview_of conn = record {
  resolved_base_url = rstrip_slash conn.rcs_base_url;
  method = post;
  path = default_submit_path;
  full_url_without_sign = concat (rstrip_slash conn.rcs_base_url ∷ default_submit_path ∷ []);
  example_body = example_submit_body;
}

-- `preview`
unfoldable pub preview : Env → App RcsSubmitPreviewData
preview env = do conn ← get_connection_settings env; pure (preview_of conn)
