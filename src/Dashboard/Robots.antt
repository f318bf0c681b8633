-- ===== src/Dashboard/Robots.antt =====
-- app/services/robot_service.py: the robot states that are cached in Redis. The keys that SCAN
-- gives, `datetime.fromisoformat` and the validation of `RobotStatusResponse`, which is pydantic's,
-- are arguments.
pub mod Cached
pub mod Skipped
use Prim.Native.Char.{code}
use Prim.Native.String
use Prim.Native.String.{[], ◌∷◌}
use mathlib.Core.List
use robo_control.Prelude.{
  ℕ, String, Bool, true, false, Option, none, some, List, ◌==◌, if◌then◌else◌,
}
use robo_control.Text.{is_empty, before}
use robo_control.Json.{Json, Decimal, str, obj, Fields, get_or_null, truthy}
use robo_control.Errors.{
  Exn, builtin, value_error, key_error, type_error, validation_error, Result, ok, raise, ◌>>=◌,
}
use robo_control.Redis
use robo_control.World.{Env, World, App}

-- `RobotStatusResponse`
pub record RobotStatusResponse : Type 0 where
  pub amr_code : String
  pub x : Option Decimal
  pub y : Option Decimal
  pub state : Option String
  pub updated_at : Option ℕ

-- What stands after the first `:`, if there is one.
unfoldable pub after_colon : String → Option String
after_colon [] = none
after_colon (c ∷ s) = let rest = after_colon s in if code c == b':' then some s else rest

-- `_extract_amr_code`
unfoldable pub extract_amr_code : String → String
extract_amr_code key = elim (after_colon key) [ none ↦ key | some rest ↦ before b':' rest ]

abbrev pub or_key_part : Json → String → Json
or_key_part v key = if truthy v then v else str (extract_amr_code key)

-- `except (KeyError, ValueError, TypeError)`; pydantic's error is a ValueError.
abbrev pub is_skipped : Exn → Bool
is_skipped (builtin key_error _) = true
is_skipped (builtin value_error _) = true
is_skipped (builtin type_error _) = true
is_skipped (builtin validation_error _) = true
is_skipped _ = false

abbrev pub keep_or_skip : Result RobotStatusResponse → Result (Option RobotStatusResponse)
keep_or_skip (ok r) = ok (some r)
keep_or_skip (raise e) = if is_skipped e then ok none else raise e

abbrev pub add : Option RobotStatusResponse → List RobotStatusResponse → List RobotStatusResponse
add none rs = rs
add (some r) rs = List.◌∷◌ r rs

module _ (env : Env) (fromisoformat : String → Option ℕ)
    (validate : Json → Json → Json → Json → Option ℕ → Result RobotStatusResponse) where
  -- `_decode`, and the test that follows: a dict that is not empty.
  unfoldable pub decode : String → Option Fields
  decode raw = elim (env.loads raw) [
    | some (obj fs) ↦ if truthy (obj fs) then some fs else none
    | some _ ↦ none
    | none ↦ none
  ]

  abbrev pub updated_at_of : Json → Result (Option ℕ)
  updated_at_of (str s) = elim (fromisoformat s) [
    | none ↦ raise (builtin value_error "Invalid isoformat string")
    | some t ↦ ok (some t)
  ]
  updated_at_of _ = ok none

  -- `_to_schema`
  unfoldable pub to_schema : String → Fields → Result RobotStatusResponse
  to_schema key payload = updated_at_of (get_or_null "updatedAt" payload) >>= λ updated_at.
      validate (or_key_part (get_or_null "amrCode" payload) key) (get_or_null "x" payload)
        (get_or_null "y" payload) (get_or_null "state" payload) updated_at

  abbrev pub of_raw : String → Option String → Result (Option RobotStatusResponse)
  of_raw key none = ok none
  of_raw key (some raw) = if is_empty raw then ok none else elim (decode raw) [
    | none ↦ ok none
    | some payload ↦ keep_or_skip (to_schema key payload)
  ]

  -- One round of the loop.
  unfoldable pub robot_state : World → String → Result (Option RobotStatusResponse)
  robot_state w key = of_raw key (Redis.get w.now key w.redis)

  unfoldable pub robot_states : World → List String → Result (List RobotStatusResponse)
  robot_states w List.[] = ok List.[]
  robot_states w (List.◌∷◌ key keys) =
      let rest = robot_states w keys in
      robot_state w key >>= λ found. rest >>= λ states. ok (add found states)

  -- `list_robot_states`
  unfoldable pub list_robot_states : List String → App (List RobotStatusResponse)
  list_robot_states scanned w = (robot_states w scanned, w)
