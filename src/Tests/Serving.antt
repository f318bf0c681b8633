-- ===== src/Tests/Serving.antt =====
-- The routes, the process and its settings on concrete inputs.
use robo_control.Prelude.{
  ◌≡◌, ◌≢◌, ◌⊎◌, refl, ap, str_eq, String, Bool, true, false, Option, none, some, [], ◌∷◌, arith,
}
use robo_control.Json.{Json, pos}
use robo_control.Errors.{ok, raise, builtin, envelope, validation_error}
use robo_control.World.{World}
use robo_control.Redis.Keys.{sysconfig_key}
use robo_control.Redis
use robo_control.Client.Request.{full_url}
use robo_control.RcsSubmit.Preview.{RcsSubmitPreviewData, preview}
use robo_control.RcsSubmit.Address.{preview-full_url}
use robo_control.Api.Endpoints.{Backend}
use robo_control.Api.{create, history, serve}
use robo_control.Api.Access.{serve-unauthorized}
use robo_control.Api.Envelopes.{IsSuccess, IsFailure, IsDebugPage, serve-IsStandard}
use robo_control.Startup.{
  AppSettings, joined, prod, validate_settings, IsSound, validate_settings-IsSound,
}
use robo_control.Lifespan.{
  Process, Singleton, startup, shutdown, Reachable, here, next, starts, stops,
}
use robo_control.Lifespan.Singletons.{IsTidy, AreTidy, given_open, Reachable-AreTidy}
use robo_control.Tests
use robo_control.Tests.Dashboard.{task_order, log_order, select_1, ping}
use robo_control.Tests.Robots.{fromisoformat, validate}

abbrev backend : Backend
backend = record {
  tasks_by_creation = task_order 0;
  tasks_by_update = task_order 0;
  logs_by_creation = log_order 0;
  like = λ pattern text. true;
  scanned = "robot:R7:state" ∷ [];
  start_of_day = λ now. 0;
  select_1 = select_1;
  ping = ping;
  raw_result = λ v. raise (builtin validation_error "");
  fromisoformat = fromisoformat;
  robot_status = validate;
}

abbrev other : Option String
other = some "other"

abbrev is_key : Option String → Bool
is_key none = false
is_key (some s) = str_eq s "key"

true-ne-false : false ≢ true
true-ne-false = λ e. ground arith

other_key : other ≢ some Tests.env.settings.api_key
other_key e = true-ne-false (ap (λ (o : Option String). is_key o) e)

serve-unauthorized_example :
    serve Tests.env backend "r" (some "other") (create Tests.request_a none) Tests.start ≡ (
      record {
        status_code = 401;
        content = envelope "r" "UNAUTHORIZED" "Missing or invalid API key." none;
      },
      record Tests.start { tx = Tests.start.db },
    )
serve-unauthorized_example =
    serve-unauthorized Tests.env backend "r" (some "other") (create Tests.request_a none)
      Tests.start other_key

serve-IsStandard_example :
    (IsSuccess "r"
        (serve Tests.env backend "r" (some "key") (history none 1 20) Tests.start).0.content
      × ((serve Tests.env backend "r" (some "key") (history none 1 20) Tests.start).0.status_code
          ≡ 200))
    ⊎ (IsFailure "r"
          (serve Tests.env backend "r" (some "key") (history none 1 20) Tests.start).0.content
        ⊎ IsDebugPage Tests.env backend
            (serve Tests.env backend "r" (some "key") (history none 1 20) Tests.start).0)
serve-IsStandard_example =
    serve-IsStandard Tests.env backend "r" (some "key") (history none 1 20) Tests.start

-- A world in which Redis holds the address and the port.
abbrev connected : World
connected = record Tests.start {
  redis =
      ("sysconfig:rcs_ip", record { value = "10.0.0.7"; expires = none })
      ∷ ("sysconfig:rcs_port", record { value = "8080"; expires = none })
      ∷ [];
}

preview-full_url_example :
    (shown : RcsSubmitPreviewData) × (preview Tests.env connected ≡ (ok shown, connected))
    × (full_url Tests.env
          (Redis.get connected.now (sysconfig_key "rcs_ip") connected.redis)
          (Redis.get connected.now (sysconfig_key "rcs_port") connected.redis)
          shown.path
        ≡ shown.full_url_without_sign)
unfolding Redis.get sysconfig_key robo_control.Json.Print.print_int
preview-full_url_example =
    preview-full_url Tests.env "10.0.0.7" (pos 8080) connected refl (refl, refl)

abbrev nothing_made : Singleton
nothing_made = record { current = none; made = 0; closed = [] }

nothing_made-IsTidy : IsTidy nothing_made
nothing_made-IsTidy = record {
  one_open = λ i below. ground arith;
  closed_made = λ i old. ground arith;
  current_made = λ i same. ground arith;
}

abbrev booted : Process
booted = record { rcs = nothing_made; redis = nothing_made; world = Tests.start }

abbrev up : Process
up = (startup Tests.env select_1 ping booted).1

abbrev restarted : Process
restarted = (startup Tests.env select_1 ping (shutdown up)).1

restarts : Reachable Tests.env backend booted restarted
restarts =
    next (next (next here (starts select_1 ping booted)) (stops up))
      (starts select_1 ping (shutdown up))

Reachable-AreTidy_example : AreTidy restarted × (given_open restarted.rcs ≡ true)
Reachable-AreTidy_example =
    Reachable-AreTidy Tests.env backend booted restarted restarts
      (nothing_made-IsTidy, nothing_made-IsTidy)

abbrev given : AppSettings
given = record {
  app_env = prod;
  debug = false;
  redis_url = "redis://redis:6379/0";
  celery_broker_url = none;
  celery_result_backend = some "";
  cors_origins = [];
}

abbrev taken : AppSettings
taken = record given {
  celery_broker_url = some "redis://redis:6379/0";
  celery_result_backend = some "redis://redis:6379/0";
  cors_origins = "http://a.com" ∷ "http://b.com" ∷ [];
}

validate_settings-IsSound_example : IsSound (joined "http://a.com, http://b.com,") taken
unfolding validate_settings robo_control.Startup.prod_debug_must_be_false
    robo_control.Startup.default_celery_to_redis robo_control.Startup.split_cors
    robo_control.Startup.split_commas robo_control.Text.strip
validate_settings-IsSound_example =
    validate_settings-IsSound (joined "http://a.com, http://b.com,") given taken refl refl
