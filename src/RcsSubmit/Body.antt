-- ===== src/RcsSubmit/Body.antt =====
-- The schemas of a raw submission, and what is read from its body and its reply.
use robo_control.Prelude.{String, Bool, Option, none, some, List, [], ◌∷◌, if◌then◌else◌}
use robo_control.Text.{concat, upper}
use robo_control.Json.{
  Json, Items, nil, cons, str, arr, boolean, obj, end, Fields, object, opt_str, get_or_null, truthy,
}
use robo_control.Errors.{Result, ok, ◌>>=◌}
use robo_control.World.{Env}
use robo_control.Client.Response.{py_str}
use robo_control.TaskService.{task_code_value}

-- `Literal["POST", "GET"]`
pub data Method : Type 0 where
  post get : Method

unfoldable pub method_text : Method → String
method_text post = "POST"
method_text get = "GET"

pub record RcsRawSubmitRequest : Type 0 where
  pub method : Method
  pub path : String
  pub body : Option Fields
  pub send_signed : Bool
  pub persist_task : Bool

pub record RcsRawSubmitResult : Type 0 where
  pub robot_task_code : Option String
  pub status : Option String
  pub cached : Bool
  pub persisted : Bool
  pub rcs : Json

abbrev body_object : Option Fields → Option Json
body_object none = none
body_object (some fs) = some (obj fs)

-- `request.body if request.method == "POST" else None`
unfoldable pub sent_body : RcsRawSubmitRequest → Option Json
sent_body request = elim request.method [ post ↦ body_object request.body | get ↦ none ]

-- `result.model_dump(by_alias=True)`
unfoldable pub dump_result : RcsRawSubmitResult → Json
dump_result r = obj (
    object (
      ("robotTaskCode", opt_str r.robot_task_code)
      ∷ ("status", opt_str r.status)
      ∷ ("cached", boolean r.cached)
      ∷ ("persisted", boolean r.persisted)
      ∷ ("rcsResponse", r.rcs)
      ∷ []))

-- `body or {}`
abbrev pub body_json : Option Fields → Json
body_json none = obj end
body_json (some fs) = obj fs

-- `_extract_task_code`
unfoldable pub extract_task_code : Env → Json → Result (Option String)
unfolding task_code_value truthy py_str
extract_task_code env rcs_response = do
  code ← task_code_value rcs_response
  ok (if truthy code then some (py_str env code) else none)

-- `v if isinstance(v, str) else None`
abbrev as_str : Json → Option String
as_str (str s) = some s
as_str _ = none

-- `c` of one step of the route, if it is a dict with a text there.
abbrev step_code : Json → Option String
step_code (obj fs) = as_str (get_or_null "code" fs)
step_code _ = none

abbrev prepend : Option String → List String → List String
prepend none codes = codes
prepend (some c) codes = c ∷ codes

unfoldable pub step_codes : Items → List String
unfolding get_or_null
step_codes nil = []
step_codes (cons v vs) = prepend (step_code v) (step_codes vs)

-- `" → ".join(codes)`
unfoldable pub join_arrows : String → List String → String
join_arrows c [] = c
join_arrows c (d ∷ codes) = concat (c ∷ " → " ∷ join_arrows d codes ∷ [])

abbrev joined : List String → Option String
joined [] = none
joined (c ∷ codes) = some (join_arrows c codes)

-- The target that the route names.
abbrev route_target : Json → Option String
route_target (arr vs) = joined (step_codes vs)
route_target (obj fs) = as_str (get_or_null "targetCode" fs)
route_target _ = none

abbrev or_else : Option String → Option String → Option String
or_else none o = o
or_else (some s) o = some s

-- `_meta_from_body`
unfoldable pub meta_from_body : Option Fields → Option String × Option String
unfolding step_codes join_arrows get_or_null
meta_from_body none = (none, none)
meta_from_body (some fs) = (
  as_str (get_or_null "sourceCode" fs),
  or_else (route_target (get_or_null "targetRoute" fs)) (as_str (get_or_null "targetCode" fs)),
)

-- `_raw_fingerprint`
unfoldable pub raw_fingerprint : Env → RcsRawSubmitRequest → String → String
unfolding upper method_text
raw_fingerprint env request path = env.dumps_sorted (
    obj (
      object (
        ("method", str (upper (method_text request.method)))
        ∷ ("path", str path)
        ∷ ("body", body_json request.body)
        ∷ ("sendSigned", boolean request.send_signed)
        ∷ [])))
