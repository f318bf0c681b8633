-- ===== src/Lib.antt =====
-- The RCS-2000 middleware (app/): a FastAPI service that submits tasks to a robot control system
-- (RCS-2000), keeps their history in a database, and takes the progress feedbacks that RCS-2000
-- sends to a webhook. A request to create a task goes through TaskService (idempotency cache in
-- Redis, robot type, one signed call of the client, a committed row, the cache again). A feedback
-- goes through the webhook (signature, dedupe key, log, queue) to a Celery worker, which updates
-- the task row and caches the state of the robot.
--
-- State and libraries. `World` holds the clock, Redis, the committed database and what the session
-- sees, the requests that were sent, and the queue; `Env` holds the libraries and services as
-- parameters: HTTP, HMAC, MD5, JSON text, the refusals of the database, Redis and the broker. A call is a
-- function from a world to a result and the world it leaves, so that an exception keeps what was
-- written before it. Redis may refuse the writes of a creation, a raw submission and the worker that
-- set a key to expire; its other calls, and the SELECTs outside the worker, are taken to succeed.
-- Two calls do not interleave inside each other; a sequence of calls may be any.
--
--   Prelude, Text, Json    shared notation, Python's text operations, JSON values and numerals
--   Errors                 app/core/exceptions.py: error classes, handlers, envelope
--   Redis                  entries with an expiry time, and the keys of app/utils/redis_helper.py
--   Database               app/models and app/repositories
--   World                  settings, environment, session, and the rules by which calls are reasoned on
--   RcsPath                app/utils/rcs_path.py and `_validate_rcs_path`
--   Signing                app/utils/signing.py
--   Security               app/core/security.py
--   Client                 app/clients/rcs2000_client.py
--   TaskService            app/services/task_service.py
--   Webhook                app/services/webhook_service.py and app/api/v1/routers/webhooks.py
--   Worker                 app/workers/tasks.py
--   Config                 app/repositories/system_config_repository.py and its routes
--   RcsSubmit              app/services/rcs_submit_service.py: submissions to any path under the prefix
--   Sorting                Python's stable sort, the order of texts
--   Listing                paging in app/api/v1/routers/tasks.py and webhook_logs.py
--   Dashboard              alerts.py of the routers, app/services/stats_service.py and robot_service.py,
--                          app/observability/health.py
--   Seed                   app/db/init_seed.py
--   Logging                app/core/logging.py: the processors that add ids and redact secrets, and
--                          the order in which an event passes the processors
--   Api                    app/api/v1/routers: the routes behind the API key, from request to response
--   Startup                app/core/config.py: the validators of the settings, and the application of
--                          app/workers/celery_app.py
--   Lifespan               app/main.py: starts, stops, and the client singletons
--   Migrations             alembic/versions and the tables that app/models declare: what a script does
--                          to tables is `effect`, what performs it is given by `Alembic`
--   Tests                  an environment in which the code runs, and the theorems applied in it
--
-- Bounds. The retry loop recurs on the number of attempts left, two after the first, as
-- `stop_after_attempt(3)` says; its waiting times are left out. The retries of Celery recur on the
-- number that is left, of five. The printer of numerals recurs on fuel,
-- one more than the number it prints: each step divides that by ten. All other recursion is on the data.
--
-- Not modelled: the wiring of FastAPI, SQLAlchemy, Celery, Alembic and structlog (application and
-- engine set-up, alembic/env.py, the decorators of routes), the static pages, and the checks that
-- pydantic makes of request bodies, but for the bounds of a task creation.
-- Texts stand for byte strings where the code encodes and decodes.
pub mod Prelude
pub mod Text
pub mod Json
pub mod Errors
pub mod Redis
pub mod Database
pub mod World
pub mod RcsPath
pub mod Signing
pub mod Client
pub mod TaskService
pub mod Security
pub mod Config
pub mod RcsSubmit
pub mod Worker
pub mod Webhook
pub mod Logging
pub mod Seed
pub mod Sorting
pub mod Listing
pub mod Dashboard
pub mod Api
pub mod Startup
pub mod Lifespan
pub mod Migrations
pub mod Tests
