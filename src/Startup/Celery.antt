-- ===== src/Startup/Celery.antt =====
-- app/workers/celery_app.py: the application that the worker runs, from the settings.
use robo_control.Prelude.{ℕ, String, ◌≡◌, refl, Bool, true, Option, some, List, [], ◌∷◌}
use robo_control.Errors.{ok}
use robo_control.Startup.{
  AppSettings, validate_settings, CorsOrigins, IsFilled, validate_settings-IsSound,
}

pub record Celery : Type 0 where
  pub main : String
  pub broker : Option String
  pub backend : Option String
  pub include : List String
  pub task_acks_late : Bool
  pub task_reject_on_worker_lost : Bool
  pub task_default_queue : String
  pub worker_prefetch_multiplier : ℕ
  pub task_serializer : String
  pub result_serializer : String
  pub accept_content : List String
  pub timezone : String
  pub enable_utc : Bool
  pub broker_connection_retry_on_startup : Bool

-- `create_celery_app`
unfoldable pub create_celery_app : AppSettings → Celery
create_celery_app settings = record {
  main = "rcs_middleware";
  broker = settings.celery_broker_url;
  backend = settings.celery_result_backend;
  include = "app.workers.tasks" ∷ [];
  task_acks_late = true;
  task_reject_on_worker_lost = true;
  task_default_queue = "rcs.default";
  worker_prefetch_multiplier = 4;
  task_serializer = "json";
  result_serializer = "json";
  accept_content = "json" ∷ [];
  timezone = "UTC";
  enable_utc = true;
  broker_connection_retry_on_startup = true;
}

-- From settings that passed the validators, and that have a Redis URL, Celery has a broker and a
-- backend; and it reads the messages that it writes.
pub create_celery_app-broker :
    (cors : CorsOrigins) (s t : AppSettings)
    → IsFilled s.redis_url
    → validate_settings cors s ≡ ok t
    → let celery = create_celery_app t in
      ((broker : String) × (celery.broker ≡ some broker) × IsFilled broker)
      × ((backend : String) × (celery.backend ≡ some backend) × IsFilled backend)
      × (celery.accept_content ≡ celery.task_serializer ∷ [])
unfolding create_celery_app
create_celery_app-broker cors s t filled valid =
    let sound = validate_settings-IsSound cors s t filled valid in (sound.1, sound.2, refl)
