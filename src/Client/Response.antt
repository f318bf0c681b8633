-- ===== src/Client/Response.antt =====
-- `_parse_response` and `_raise_business_error`: from a response to a value or a typed error.
pub mod Laws
use mathlib.Core.List
use robo_control.Prelude.{
  ℕ, String, Bool, true, false, ◌&&◌, ◌||◌, not, Option, none, some, List, [], ◌∷◌, leb, str_eq,
  if◌then◌else◌,
}
use robo_control.Text.{concat}
use robo_control.Json.{
  Json, null, boolean, int, str, obj, Fields, find, truthy, type_name, equals_one, equals_zero,
  equals_text, object,
}
use robo_control.Json.Print.{print_nat, print_int}
use robo_control.Errors.{
  Exn, app, builtin, attribute_error, retryable_upstream, Result, ok, raise, ◌>>=◌, new_error,
  task_not_started_error, rcs_client_error,
}
use robo_control.World.{Env}

-- A value that has `.get`: anything but a dict raises AttributeError.
unfoldable pub as_object : Json → Result Fields
unfolding type_name
as_object (obj fs) = ok fs
as_object v =
    raise (
      builtin attribute_error (concat ("'" ∷ type_name v ∷ "' object has no attribute 'get'" ∷ [])))

-- An envelope code that does not signal a business error.
unfoldable pub is_success_code : Json → Bool
unfolding equals_zero equals_text equals_one
is_success_code v =
    equals_zero v
    || equals_text "0" v
    || equals_text "0x00000000" v
    || equals_text "Success" v
    || equals_text "OK" v
    || equals_text "success" v
    || equals_one v

module _ (env : Env) where
  -- `str(v)`
  unfoldable pub py_str : Json → String
  unfolding print_int
  py_str (str s) = s
  py_str null = "None"
  py_str (boolean true) = "True"
  py_str (boolean false) = "False"
  py_str (int z) = print_int z
  py_str v = env.repr v

  -- `str(data.get(key, default))`
  unfoldable pub text_at : String → String → Fields → String
  unfolding find py_str
  text_at key default fs = elim (find key fs) [ none ↦ default | some v ↦ py_str v ]

  abbrev error_details : String → Json → Json
  error_details code payload = obj (object (("rcs_code", str code) ∷ ("payload", payload) ∷ []))

  -- `_raise_business_error`
  unfoldable pub business_error : String → String → Json → Exn
  unfolding new_error
  business_error code message payload =
      if str_eq code "Err_TaskNotStart"
      then app (
          new_error task_not_started_error (some message) none none
            (some (error_details code payload)))
      else app (
          new_error rcs_client_error (some message) (some (concat ("RCS_" ∷ code ∷ []))) none
            (some (error_details code payload)))

  -- `data.get("code")` of an envelope that came with a status below 400.
  check_code : Fields → Option Json → Result Json
  unfolding truthy is_success_code text_at business_error
  check_code fs none = ok (obj fs)
  check_code fs (some code) =
      if truthy code && not (is_success_code code)
      then raise (business_error (py_str code) (text_at "message" "RCS error" fs) (obj fs))
      else ok (obj fs)

  -- The envelope of a response below 500.
  check_envelope : ℕ → Fields → Result Json
  unfolding find check_code
  check_envelope status fs =
      if leb 400 status
      then raise (
          business_error (text_at "code" (concat ("HTTP_" ∷ print_nat status ∷ [])) fs)
            (text_at "message" "RCS error" fs) (obj fs))
      else check_code fs (find "code" fs)

  -- `_parse_response`
  unfoldable pub parse_response : String → ℕ → String → Result Json
  unfolding as_object check_envelope
  parse_response path status text =
      if leb 500 status
      then raise (retryable_upstream (concat ("RCS 5xx " ∷ print_nat status ∷ " on " ∷ path ∷ [])))
      else elim (env.loads text) [
        | none ↦ raise (
            app (
              new_error rcs_client_error
                (some
                  (concat ("RCS returned non-JSON body (status=" ∷ print_nat status ∷ ")" ∷ [])))
                none none none))
        | some v ↦ as_object v >>= λ fs. check_envelope status fs
      ]
