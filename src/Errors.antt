-- ===== src/Errors.antt =====
-- app/core/exceptions.py: the exception hierarchy, what a call raises, and the handlers that turn
-- an exception into the response envelope.
use robo_control.Prelude.{
  ℕ, String, Bool, true, false, Option, none, some, List, [], ◌∷◌, ◌==◌, if◌then◌else◌,
}
use robo_control.Text.{concat, or_text}
use robo_control.Json.{Json, boolean, str, arr, obj, Items, object}
use robo_control.Json.Print.{print_nat}

-- The classes of the hierarchy.
pub data Kind : Type 0 where
  base_app_error rcs_client_error task_not_started_error robot_type_not_found_error : Kind
  task_not_found_error duplicate_task_error webhook_signature_error : Kind
  invalid_rcs_path_error authentication_error : Kind

-- The class attribute `http_status`.
unfoldable pub class_http_status : Kind → ℕ
class_http_status base_app_error = 500
class_http_status rcs_client_error = 502
class_http_status task_not_started_error = 409
class_http_status robot_type_not_found_error = 404
class_http_status task_not_found_error = 404
class_http_status duplicate_task_error = 409
class_http_status webhook_signature_error = 401
class_http_status invalid_rcs_path_error = 422
class_http_status authentication_error = 401

-- The class attribute `code`.
unfoldable pub class_code : Kind → String
class_code base_app_error = "INTERNAL_ERROR"
class_code rcs_client_error = "RCS_UPSTREAM_ERROR"
class_code task_not_started_error = "TASK_NOT_STARTED"
class_code robot_type_not_found_error = "ROBOT_TYPE_NOT_FOUND"
class_code task_not_found_error = "TASK_NOT_FOUND"
class_code duplicate_task_error = "DUPLICATE_TASK"
class_code webhook_signature_error = "WEBHOOK_SIGNATURE_INVALID"
class_code invalid_rcs_path_error = "INVALID_RCS_PATH"
class_code authentication_error = "UNAUTHORIZED"

-- The class attribute `message`.
unfoldable pub class_message : Kind → String
class_message base_app_error = "Internal server error"
class_message rcs_client_error = "Upstream RCS-2000 returned an error."
class_message task_not_started_error = "RCS reports the task has not started yet."
class_message robot_type_not_found_error = "Robot type not found."
class_message task_not_found_error = "Task not found."
class_message duplicate_task_error = "A task with the same Idempotency-Key already exists."
class_message webhook_signature_error = "Webhook signature is missing or invalid."
class_message invalid_rcs_path_error =
    "RCS path must start with /rcs/rtas and must not contain '..'."
class_message authentication_error = "Missing or invalid API key."

pub record AppError : Type 0 where
  pub kind : Kind
  pub message : String
  pub code : String
  pub http_status : ℕ
  pub details : Option Json

-- `http_status or self.http_status`
abbrev or_status : Option ℕ → ℕ → ℕ
or_status none default = default
or_status (some n) default = if n == 0 then default else n

-- `BaseAppError.__init__` of a class of the hierarchy.
unfoldable pub new_error : Kind → Option String → Option String → Option ℕ → Option Json → AppError
unfolding class_http_status class_code class_message
new_error kind message code http_status details = record {
  kind = kind;
  message = or_text message (class_message kind);
  code = or_text code (class_code kind);
  http_status = or_status http_status (class_http_status kind);
  details = details;
}

-- `isinstance(exc, RCSClientError)`
abbrev pub is_rcs_client_error : Kind → Bool
is_rcs_client_error rcs_client_error = true
is_rcs_client_error task_not_started_error = true
is_rcs_client_error _ = false

-- The transport errors that the client retries (`_RETRYABLE_HTTP_EXC`).
pub data NetworkError : Type 0 where
  connect_error read_timeout connect_timeout remote_protocol_error : NetworkError

-- Exceptions of Python and of the libraries that the program's paths raise.
pub data Builtin : Type 0 where
  value_error attribute_error key_error type_error runtime_error : Builtin
  validation_error integrity_error commit_error broker_error redis_error database_error : Builtin

-- What a call raises. Each carries the text that `str(exc)` gives.
pub data Exn : Type 0 where
  app : AppError → Exn
  retryable_upstream : String → Exn
  network : NetworkError → String → Exn
  http_error : String → Exn
  builtin : Builtin → String → Exn
  http_exception : ℕ → String → Exn
  request_validation : Items → Exn

-- `str(exc)`; the texts of the last two are not read by the program.
abbrev pub exn_text : Exn → String
exn_text (app e) = e.message
exn_text (retryable_upstream m) = m
exn_text (network _ m) = m
exn_text (http_error m) = m
exn_text (builtin _ m) = m
exn_text (http_exception _ m) = m
exn_text (request_validation _) = ""

pub data Result {ℓ} (A : Type ℓ) : Type ℓ where
  ok : A → Result A
  raise : Exn → Result A

infixl 5 ◌>>=◌
abbrev pub ◌>>=◌ {ℓ κ} : {A : Type ℓ} {B : Type κ} → Result A → (A → Result B) → Result B
ok a >>= f = f a
raise e >>= f = raise e

pub record Response : Type 0 where
  pub status_code : ℕ
  pub content : Json

abbrev details_field : Option Json → List (String × Json)
details_field none = []
details_field (some d) = ("details", d) ∷ []

-- The error envelope, absent fields dropped.
unfoldable pub envelope : String → String → String → Option Json → Json
envelope request_id code message details = obj (
    object (
      ("success", boolean false)
      ∷ ("requestId", str request_id)
      ∷ (
        "error",
        obj (object (("code", str code) ∷ ("message", str message) ∷ details_field details)),
      )
      ∷ []))

-- The registered handlers: the handler of the nearest registered class answers.
unfoldable pub handle_exception : String → Exn → Response
unfolding envelope print_nat
handle_exception request_id (app e) = record {
  status_code = e.http_status;
  content = envelope request_id e.code e.message e.details;
}
handle_exception request_id (http_exception status detail) = record {
  status_code = status;
  content = envelope request_id (concat ("HTTP_" ∷ print_nat status ∷ [])) detail none;
}
handle_exception request_id (request_validation errors) = record {
  status_code = 422;
  content =
      envelope request_id "VALIDATION_ERROR" "Request validation failed."
        (some (obj (object (("errors", arr errors) ∷ []))));
}
handle_exception request_id _ = record {
  status_code = 500;
  content = envelope request_id "INTERNAL_ERROR" "Internal server error" none;
}
