-- ===== src/Tests.antt =====
-- An environment and a world in which the code runs on concrete inputs.
pub mod Creation
pub mod Calls
pub mod Feedbacks
pub mod RawSubmissions
pub mod Connection
pub mod LogEvents
pub mod Startup
pub mod Serving
pub mod Migrating
pub mod Retrying
pub mod Sizing
pub mod Robots
pub mod Dashboard
use mathlib.Core.List
use robo_control.Prelude.{
  ℕ, String, Bool, true, false, Option, none, some, List, [], ◌∷◌, str_eq, if◌then◌else◌,
}
use robo_control.Text.{concat}
use robo_control.Json.{Json, str, obj, object, Fields, end, field}
use robo_control.Json.Print.{print_nat}
use robo_control.Database.{Db, RobotType}
use robo_control.World.{Env, World, Settings, Outgoing, response, Draw}
use robo_control.TaskService.Schemas.{TaskCreateRequest, TaskCreateResponseData}

mutual
  -- A text for each value that the tests write.
  pub show : Json → String
  show (str s) = concat ("'" ∷ s ∷ "'" ∷ [])
  show (obj fs) = concat ("{" ∷ show_fields fs ∷ "}" ∷ [])
  show _ = "_"

  show_fields : Fields → String
  show_fields end = ""
  show_fields (field k v rest) = concat (k ∷ ":" ∷ show v ∷ "," ∷ show_fields rest ∷ [])

abbrev pub reply : Json
reply =
    obj
      (object (("code", str "0") ∷ ("data", obj (object (("robotTaskCode", str "T1") ∷ []))) ∷ []))

abbrev pub request_a : TaskCreateRequest
request_a = record { robot_type = "lift"; source_code = "A"; target_code = "B"; priority = 1 }

abbrev pub request_b : TaskCreateRequest
request_b = record { robot_type = "lift"; source_code = "A"; target_code = "C"; priority = 1 }

abbrev pub created_a : TaskCreateResponseData
created_a = record { robot_task_code = "T1"; status = "pending"; cached = false }

abbrev pub entry_a : Json
entry_a = obj (
    object (
      ("request_fingerprint", str "{robotType:'lift',sourceCode:'A',targetCode:'B',priority:_,}")
      ∷ (
        "response",
        obj (
            object (
              ("robotTaskCode", str "T1")
              ∷ ("status", str "pending")
              ∷ ("cached", Json.boolean false)
              ∷ [])),
      )
      ∷ []))

-- What the tests read back: the reply of RCS-2000 and the cache entry.
abbrev pub loads : String → Option Json
loads text =
    if str_eq text "REPLY"
    then some reply
    else if str_eq text (show entry_a)
    then some entry_a
    else none

abbrev pub settings : Settings
settings = record {
  rcs_base_url = "https://rcs.local";
  rcs_app_key = "app";
  rcs_app_secret = "secret";
  rcs_api_version = "v1.0";
  api_key = "key";
  webhook_secret = "hook";
  debug = false;
}

abbrev pub env : Env
env = record {
  settings = settings;
  http = λ _ _. response 200 "REPLY";
  draw = λ _. record {
    timestamp = "1";
    nonce = "n";
    request_id = "r";
    trace_id = "t";
    minute_stamp = "m";
  };
  hmac_sha256 = λ secret body. concat (secret ∷ body ∷ []);
  md5 = λ s. s;
  dumps = show;
  dumps_sorted = show;
  dumps_default = show;
  loads = loads;
  repr = λ _. "1.5";
  netloc_error = λ _. none;
  int_other = λ _. none;
  isoformat = print_nat;
  flush_error = λ _. none;
  statement_error = λ _ _. none;
  commit_error = λ _ _. none;
  next_log_id = λ n. n;
  broker_error = λ _. none;
  redis_error = λ _ _. none;
  debug_page = λ _. str "Traceback";
}

abbrev pub db : Db
db = record {
  tasks = [];
  robot_types = record { name = "lift"; description = none; rcs_task_type = "F01" } ∷ [];
  configs = [];
  logs = [];
}

abbrev pub start : World
start = record {
  now = 1000;
  redis = [];
  db = db;
  tx = db;
  commits = 0;
  sent = [];
  queue = [];
  deliveries = 0;
}
