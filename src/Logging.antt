-- ===== src/Logging.antt =====
-- app/core/logging.py: the processors that add the request's ids to a log event and redact its
-- secrets. A dict is its fields in order of insertion.
pub mod Redaction
pub mod Secrets
pub mod Pipeline
use mathlib.Core.List
use robo_control.Prelude.{
  String, Bool, true, false, ◌||◌, Option, none, some, List, [], ◌∷◌, str_eq, is_in, if◌then◌else◌,
}
use robo_control.Text.{contains}
use robo_control.Json.{Json, str, obj, Fields, end, field, find}

-- `d[key] = v`: in place for a key that is there, at the end for a new one.
unfoldable pub set : String → Json → Fields → Fields
set key v end = field key v end
set key v (field k u rest) =
    let more = set key v rest in if str_eq k key then field k v rest else field k u more

-- `d.setdefault(key, v)`
unfoldable pub setdefault : String → Json → Fields → Fields
setdefault key v fs = elim (find key fs) [ none ↦ set key v fs | some _ ↦ fs ]

unfoldable pub add_if_set : String → Option String → Fields → Fields
add_if_set key none fs = fs
add_if_set key (some value) fs = setdefault key (str value) fs

-- `_add_request_context`; the two context variables are arguments.
unfoldable pub add_request_context : Option String → Option String → Fields → Fields
add_request_context rid tid event_dict =
    add_if_set "trace_id" tid (add_if_set "request_id" rid event_dict)

-- `SENSITIVE_LOG_FIELDS`
abbrev pub sensitive_log_fields : List String
sensitive_log_fields =
    "password" ∷ "secret" ∷ "token" ∷ "authorization" ∷ "x-api-key" ∷ "x-webhook-signature" ∷ []

abbrev pub keys : Fields → List String
keys end = []
keys (field k _ rest) = k ∷ keys rest

abbrev pub mask : Json
mask = str "***"

-- `lower` is `str.lower`, whose tables are data of the interpreter.
module _ (lower : String → String) where
  unfoldable pub is_sensitive : String → Bool
  is_sensitive key =
      let lowered = lower key in
      is_in lowered sensitive_log_fields
      || contains "secret" lowered
      || contains "token" lowered
      || contains "password" lowered

  unfoldable mutual
    -- A value that stands under a key which is not sensitive.
    pub mask_value : Json → Json
    mask_value (obj fs) = obj (mask_into end fs)
    mask_value v = v

    -- The loop of `_mask_dict`, from the `masked` it has built.
    pub mask_into : Fields → Fields → Fields
    mask_into masked end = masked
    mask_into masked (field k v rest) =
        mask_into (set k (if is_sensitive k then mask else mask_value v) masked) rest

  -- `_mask_dict`
  unfoldable pub mask_dict : Fields → Fields
  mask_dict value = mask_into end value

  -- `elif isinstance(event_dict[key], dict)`
  unfoldable pub mask_found : String → Option Json → Fields → Fields
  mask_found key (some (obj fs)) event_dict = set key (obj (mask_dict fs)) event_dict
  mask_found key _ event_dict = event_dict

  -- What the loop does at a key of the event dict.
  unfoldable pub mask_key : String → Fields → Fields
  mask_key key event_dict =
      if is_sensitive key
      then set key mask event_dict
      else mask_found key (find key event_dict) event_dict

  unfoldable pub mask_keys : List String → Fields → Fields
  mask_keys [] event_dict = event_dict
  mask_keys (k ∷ ks) event_dict = mask_keys ks (mask_key k event_dict)

  -- `_mask_sensitive`
  unfoldable pub mask_sensitive : Fields → Fields
  mask_sensitive event_dict = mask_keys (keys event_dict) event_dict
