-- ===== src/RcsPath.antt =====
-- app/utils/rcs_path.py and `_validate_rcs_path` of app/services/rcs_submit_service.py.
pub mod Safety
use Prim.Native.Char.{Char, code}
use Prim.Native.String
use Prim.Native.String.{[], ◌∷◌}
use robo_control.Prelude.{
  String, Bool, true, false, ◌&&◌, ◌||◌, not, Option, none, some, ◌==◌, if◌then◌else◌,
}
use mathlib.Core.List
use robo_control.Text.{concat, is_empty, strip, starts_with, contains, before}
use robo_control.Json.{str, obj, object}
use robo_control.Errors.{
  Result, ok, raise, app, builtin, value_error, new_error, invalid_rcs_path_error,
}

-- app/core/constants.py
abbrev pub rcs_path_prefix : String
rcs_path_prefix = "/rcs/rtas"

abbrev pub rcs_task_submit_path : String
rcs_task_submit_path = "/api/robot/controller/task/submit"

abbrev pub rcs_task_cancel_path : String
rcs_task_cancel_path = "/api/robot/controller/task/cancel"

abbrev pub rcs_robot_status_path : String
rcs_robot_status_path = "/api/robot/controller/robot/status"

-- The characters that `urlsplit` removes from a URL: tab, line feed, carriage return.
without_breaks : String → String
without_breaks [] = []
without_breaks (c ∷ s) =
    let rest = without_breaks s in
    if code c == 9 || code c == 10 || code c == 13 then rest else c ∷ rest

abbrev ends_authority : Char → Bool
ends_authority c = code c == b'/' || code c == b'?' || code c == b'#'

-- The authority of what stands behind "//", and what follows it.
authority : String → String
authority [] = []
authority (c ∷ s) = let rest = authority s in if ends_authority c then [] else c ∷ rest

after_authority : String → String
after_authority [] = []
after_authority (c ∷ s) = let rest = after_authority s in if ends_authority c then c ∷ s else rest

-- `_splitparams`: cut at the first ";" behind the last "/".
without_params : String → String
without_params [] = []
without_params (c ∷ s) =
    let rest = without_params s in if code c == b';' && not (contains "/" s) then [] else c ∷ rest

-- Drops as many characters as `p` has.
drop_prefix : String → String → String
drop_prefix [] s = s
drop_prefix (_ ∷ p) [] = []
drop_prefix (_ ∷ p) (_ ∷ s) = drop_prefix p s

-- `urlparse(url).path` of a URL that begins with "http://" or "https://"
url_path : String → String
unfolding after_authority without_params
url_path rest = without_params (before b'?' (before b'#' (after_authority rest)))

abbrev slash_or : String → String
slash_or path = if is_empty path then "/" else path

-- `urlparse(raw).path or "/"`
path_of_url : (String → Option String) → String → Result String
unfolding authority url_path
path_of_url netloc_error rest = elim (netloc_error (authority rest)) [
  | some reason ↦ raise (builtin value_error reason)
  | none ↦ ok (slash_or (url_path rest))
]

abbrev scheme_of : String → String
scheme_of raw = if starts_with "http://" raw then "http://" else "https://"

-- The two branches of `normalize_rcs_path`, at a stripped text.
path_of : (String → Option String) → String → Result String
unfolding path_of_url without_breaks drop_prefix
path_of netloc_error raw =
    if starts_with "http://" raw || starts_with "https://" raw
    then path_of_url netloc_error (drop_prefix (scheme_of raw) (without_breaks raw))
    else ok (if starts_with "/" raw then raw else "/" ∷ raw)

abbrev cut_query : Result String → Result String
cut_query (ok path) = ok (before b'?' path)
cut_query (raise e) = raise e

unfoldable pub normalize_rcs_path : (String → Option String) → String → Result String
unfolding path_of strip
normalize_rcs_path netloc_error path_or_url =
    let raw = strip path_or_url in
    if is_empty raw then ok "" else cut_query (path_of netloc_error raw)

-- `_validate_rcs_path`
unfoldable pub validate_rcs_path : String → Result (Unit {0})
unfolding contains starts_with new_error
validate_rcs_path path =
    if contains ".." path || not (starts_with rcs_path_prefix path)
    then raise (
        app (
          new_error invalid_rcs_path_error
            (some (
              concat (
                List.◌∷◌ "Path must start with '"
                  (List.◌∷◌ rcs_path_prefix (List.◌∷◌ "' and must not contain '..'." List.[])))))
            none none (some (obj (object (List.◌∷◌ ("path", str path) List.[]))))))
    else ok tt
