-- ===== src/Startup.antt =====
-- The validators of app/core/config.py, which run when the process starts, and the documentation
-- URLs that `create_app` of app/main.py takes from the settings.
pub mod Celery
use Prim.Native.Char.{code}
use Prim.Native.String.{[], ◌∷◌}
use mathlib.Core.Path.{subst}
use robo_control.Prelude.{
  String, ◌≡◌, inl, inr, refl, Bool, true, false, ◌&&◌, ◌||◌, not, Option, none, some, List, All,
  ◌==◌, if◌then◌else◌, Bool-cases,
}
use robo_control.Text.{is_empty, strip, or_text}
use robo_control.Errors.{Result, ok, raise, builtin, value_error, ◌>>=◌}

-- `APP_ENV`
pub data AppEnv : Type 0 where
  dev staging prod : AppEnv

abbrev pub is_prod : AppEnv → Bool
is_prod prod = true
is_prod _ = false

-- The settings that the validators and `create_app` read.
pub record AppSettings : Type 0 where
  pub app_env : AppEnv
  pub debug : Bool
  pub redis_url : String
  pub celery_broker_url : Option String
  pub celery_result_backend : Option String
  pub cors_origins : List String

abbrev onto_first : List String → List String → List String
onto_first List.[] rest = rest
onto_first (List.◌∷◌ c cs) List.[] = List.◌∷◌ c cs
onto_first (List.◌∷◌ c cs) (List.◌∷◌ s ss) = List.◌∷◌ s ss

-- `value.split(",")`
unfoldable pub split_commas : String → List String
split_commas [] = List.◌∷◌ "" List.[]
split_commas (c ∷ s) = elim (split_commas s) [
  | List.[] ↦ List.[]
  | List.◌∷◌ t ts ↦ if code c == b',' then List.◌∷◌ "" (List.◌∷◌ t ts) else List.◌∷◌ (c ∷ t) ts
]

abbrev pub stripped : List String → List String
stripped List.[] = List.[]
stripped (List.◌∷◌ s ss) =
    let rest = stripped ss in if is_empty (strip s) then rest else List.◌∷◌ (strip s) rest

-- `CORS_ORIGINS` as it is given: a text, or already a list (the default, or JSON).
pub data CorsOrigins : Type 0 where
  joined : String → CorsOrigins
  listed : List String → CorsOrigins

-- `_split_cors`
unfoldable pub split_cors : CorsOrigins → List String
split_cors (joined value) = stripped (split_commas value)
split_cors (listed value) = value

-- `_prod_debug_must_be_false`
unfoldable pub prod_debug_must_be_false : AppSettings → Result AppSettings
prod_debug_must_be_false s =
    if is_prod s.app_env && s.debug
    then raise (builtin value_error "DEBUG must be False when APP_ENV=prod")
    else ok s

-- `if not url: url = self.REDIS_URL`
abbrev pub or_redis : Option String → String → Option String
or_redis url redis_url = some (or_text url redis_url)

-- `_default_celery_to_redis`
unfoldable pub default_celery_to_redis : AppSettings → AppSettings
default_celery_to_redis s = record s {
  celery_broker_url = or_redis s.celery_broker_url s.redis_url;
  celery_result_backend = or_redis s.celery_result_backend s.redis_url;
}

-- The validators in their order: that of `CORS_ORIGINS`, then those of the whole model.
unfoldable pub validate_settings : CorsOrigins → AppSettings → Result AppSettings
validate_settings cors s =
    prod_debug_must_be_false (record s { cors_origins = split_cors cors }) >>= λ t.
    ok (default_celery_to_redis t)

-- `path if settings.APP_ENV != "prod" or settings.DEBUG else None`
unfoldable pub docs_url : AppSettings → String → Option String
docs_url s path = if not (is_prod s.app_env) || s.debug then some path else none

-- `openapi_url`, `docs_url` and `redoc_url` of `create_app`
unfoldable pub documentation : AppSettings → Option String × Option String × Option String
documentation s = (docs_url s "/openapi.json", docs_url s "/docs", docs_url s "/redoc")

abbrev pub IsFilled : String → Type 0
IsFilled s = is_empty s ≡ false

stripped-IsFilled : (ss : List String) → All IsFilled (stripped ss)
stripped-IsFilled List.[] = tt
stripped-IsFilled (List.◌∷◌ s ss) =
    let rest = stripped-IsFilled ss in
    elim (Bool-cases (is_empty (strip s))) [ inl e ↦ rw e rest | inr e ↦ rw e (e, rest) ]

or_redis-IsFilled :
    (url : Option String) (redis_url : String)
    → IsFilled redis_url
    → (broker : String) × (or_redis url redis_url ≡ some broker) × IsFilled broker
or_redis-IsFilled none redis_url filled = (redis_url, refl, filled)
or_redis-IsFilled (some url) redis_url filled = elim (Bool-cases (is_empty url)) [
  | inl e ↦ (redis_url, rw e refl, filled)
  | inr e ↦ (url, rw e refl, e)
]

-- The documentation is off exactly in production.
abbrev pub documentation_of : Bool → Option String × Option String × Option String
documentation_of true = (none, none, none)
documentation_of false = (some "/openapi.json", some "/docs", some "/redoc")

-- The origins of a text are not empty; those of a list are the list.
abbrev pub OriginsOf : CorsOrigins → List String → Type 0
OriginsOf (joined value) origins = All IsFilled origins
OriginsOf (listed value) origins = origins ≡ value

split_cors-OriginsOf : (cors : CorsOrigins) → OriginsOf cors (split_cors cors)
unfolding split_cors
split_cors-OriginsOf (joined value) = stripped-IsFilled (split_commas value)
split_cors-OriginsOf (listed value) = refl

-- What holds of settings `t` that passed the validators.
abbrev pub IsSound : CorsOrigins → AppSettings → Type 0
IsSound cors t =
    OriginsOf cors t.cors_origins
    × ((broker : String) × (t.celery_broker_url ≡ some broker) × IsFilled broker)
    × ((backend : String) × (t.celery_result_backend ≡ some backend) × IsFilled backend)
    × (is_prod t.app_env && t.debug ≡ false)
    × (documentation t ≡ documentation_of (is_prod t.app_env))

abbrev SoundIfOk : CorsOrigins → Result AppSettings → Type 0
SoundIfOk cors (ok t) = IsSound cors t
SoundIfOk cors (raise e) = Unit

documentation_lem :
    (s : AppSettings)
    → is_prod s.app_env && s.debug ≡ false
    → documentation s ≡ documentation_of (is_prod s.app_env)
unfolding documentation docs_url
documentation_lem s allowed = elim (Bool-cases (is_prod s.app_env)) [
  | inl production ↦
      let off : s.debug ≡ false = rw production at allowed in rw (production, off) refl
  | inr other ↦ rw other refl
]

with_celery-IsSound :
    (cors : CorsOrigins) (s : AppSettings) (origins : List String)
    → OriginsOf cors origins
    → IsFilled s.redis_url
    → is_prod s.app_env && s.debug ≡ false
    → IsSound cors (default_celery_to_redis (record s { cors_origins = origins }))
unfolding default_celery_to_redis documentation docs_url
with_celery-IsSound cors s origins filled redis allowed = (
  filled,
  or_redis-IsFilled s.celery_broker_url s.redis_url redis,
  or_redis-IsFilled s.celery_result_backend s.redis_url redis,
  allowed,
  documentation_lem s allowed,
)

validate_settings-SoundIfOk :
    (cors : CorsOrigins) (s : AppSettings)
    → IsFilled s.redis_url
    → SoundIfOk cors (validate_settings cors s)
unfolding validate_settings prod_debug_must_be_false
validate_settings-SoundIfOk cors s redis = elim (Bool-cases (is_prod s.app_env && s.debug)) [
  | inl refused ↦ rw refused tt
  | inr allowed ↦
      rw allowed
        (with_celery-IsSound cors s (split_cors cors) (split_cors-OriginsOf cors) redis allowed)
]

-- Settings with a Redis URL that pass the validators have the origins that were given as a list, or none that is empty if they were given as a text, have a broker and a result backend, do not have production with debugging, and serve the API documentation exactly outside production.
pub validate_settings-IsSound :
    (cors : CorsOrigins) (s t : AppSettings)
    → IsFilled s.redis_url
    → validate_settings cors s ≡ ok t
    → IsSound cors t
validate_settings-IsSound cors s t redis valid =
    subst (SoundIfOk cors) valid (validate_settings-SoundIfOk cors s redis)
