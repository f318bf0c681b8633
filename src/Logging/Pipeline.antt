-- ===== src/Logging/Pipeline.antt =====
-- `configure_logging` of app/core/logging.py: the processors that an event passes before it is
-- rendered, in their order. Those of structlog are parameters.
use robo_control.Prelude.{
  String, ◌≡◌, inl, inr, refl, Bool, true, false, ◌||◌, Option, none, some, List, [], ◌∷◌, arith,
  str_eq, eq_iff, is_in, Bool-cases,
}
use robo_control.Json.{Json, str, Fields, end, field, find}
use robo_control.Startup.{AppEnv, dev}
use robo_control.Logging.{
  set, setdefault, add_if_set, add_request_context, keys, is_sensitive, mask, mask_sensitive,
}
use robo_control.Logging.Redaction.{Unique, UniqueKeys}
use robo_control.Logging.Secrets.{walk, last, mask_sensitive_secret}

-- The processors of structlog that are used, and `str.lower`.
pub record Structlog : Type 0 where
  pub lower : String → String
  pub merge_contextvars : Fields → Fields
  pub add_log_level : Fields → Fields
  pub add_logger_name : Fields → Fields
  pub time_stamper : Fields → Fields
  pub stack_info_renderer : Fields → Fields
  pub format_exc_info : Fields → Fields
  pub console_renderer : Fields → String
  pub json_renderer : Fields → String

module _ (lib : Structlog) where
  -- The list `processors`, without the renderer; the two context variables are arguments.
  abbrev pub processors : Option String → Option String → List (Fields → Fields)
  processors rid tid =
      lib.merge_contextvars
      ∷ lib.add_log_level
      ∷ lib.add_logger_name
      ∷ lib.time_stamper
      ∷ add_request_context rid tid
      ∷ mask_sensitive lib.lower
      ∷ lib.stack_info_renderer
      ∷ lib.format_exc_info
      ∷ []

  abbrev pub renderer : AppEnv → Fields → String
  renderer dev = lib.console_renderer
  renderer _ = lib.json_renderer

  abbrev pub processed_by : List (Fields → Fields) → Fields → Fields
  processed_by [] event_dict = event_dict
  processed_by (p ∷ ps) event_dict = processed_by ps (p event_dict)

  -- What is rendered of an event.
  unfoldable pub event_for_renderer : Option String → Option String → Fields → Fields
  event_for_renderer rid tid event_dict = processed_by (processors rid tid) event_dict

  -- The line of the log.
  unfoldable pub log_line : AppEnv → Option String → Option String → Fields → String
  log_line app_env rid tid event_dict = renderer app_env (event_for_renderer rid tid event_dict)

or_same : (a b : Bool) → a || b ≡ (a || (a || b))
or_same true b = refl
or_same false b = refl

or_swap : (a b c : Bool) → a || (b || c) ≡ (b || (a || c))
or_swap true true c = refl
or_swap true false c = refl
or_swap false b c = refl

is_in-set :
    (j k : String) (v : Json) (fs : Fields)
    → is_in j (keys (set k v fs)) ≡ (str_eq k j || is_in j (keys fs))
unfolding set
is_in-set j k v end = refl
is_in-set j k v (field k' u rest) =
    let more = is_in-set j k v rest in
    elim (Bool-cases (str_eq k' k)) [
      | inl e ↦
          let same = (eq_iff k' k).0 e in rw (e, same) (or_same (str_eq k j) (is_in j (keys rest)))
      | inr e ↦ rw (e, more) (or_swap (str_eq k' j) (str_eq k j) (is_in j (keys rest)))
    ]

set-Unique : (k : String) (v : Json) (fs : Fields) → UniqueKeys v → Unique fs → Unique (set k v fs)
unfolding set Unique
set-Unique k v end uv u = (refl, uv, tt)
set-Unique k v (field k' x rest) uv (fresh, ux, u) = elim (Bool-cases (str_eq k' k)) [
  | inl e ↦ rw e (fresh, uv, u)
  | inr e ↦ rw e (
    rw (is_in-set k' k v rest) (ground (arith, eq_iff k k', eq_iff k' k)),
    ux,
    set-Unique k v rest uv u,
  )
]

add_if_set-Unique :
    (key : String) (o : Option String) (fs : Fields) → Unique fs → Unique (add_if_set key o fs)
unfolding add_if_set setdefault UniqueKeys
add_if_set-Unique key none fs u = u
add_if_set-Unique key (some s) fs u =
    elim (find key fs) as (λ o. Unique (elim o [ none ↦ set key (str s) fs | some _ ↦ fs ])) [
      | none ↦ set-Unique key (str s) fs tt u
      | some v ↦ u
    ]

add_request_context-Unique :
    (rid tid : Option String) (fs : Fields) → Unique fs → Unique (add_request_context rid tid fs)
unfolding add_request_context
add_request_context-Unique rid tid fs u =
    add_if_set-Unique "trace_id" tid _ (add_if_set-Unique "request_id" rid fs u)

module _ (lib : Structlog) where
  -- What the four processors in front make of an event.
  abbrev pub stamped : Fields → Fields
  stamped event_dict =
      lib.time_stamper (lib.add_logger_name (lib.add_log_level (lib.merge_contextvars event_dict)))

  -- In the event that is rendered, a value at a path of dict keys whose last key is sensitive is "***", whatever the ids of the request are; if the processors in front leave each dict with each key once, and those behind the redaction add nothing at that path.
  pub event_for_renderer-secret :
      (rid tid : Option String) (event_dict : Fields) (k : String) (ks : List String) (v : Json)
      → Unique (stamped event_dict)
      → ((fs : Fields) (u : Json)
          → walk k ks (lib.format_exc_info (lib.stack_info_renderer fs)) ≡ some u
          → walk k ks fs ≡ some u)
      → is_sensitive lib.lower (last k ks) ≡ true
      → walk k ks (event_for_renderer lib rid tid event_dict) ≡ some v
      → v ≡ mask
  unfolding event_for_renderer
  event_for_renderer-secret rid tid event_dict k ks v unique kept secret found =
      let event = add_request_context rid tid (stamped event_dict) in
      mask_sensitive_secret lib.lower event
        (add_request_context-Unique rid tid (stamped event_dict) unique) k ks v secret
        (kept (mask_sensitive lib.lower event) v found)
