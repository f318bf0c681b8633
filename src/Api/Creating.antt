-- ===== src/Api/Creating.antt =====
-- POST /tasks/create of app/api/v1/routers/tasks.py, from the request to the response: what the
-- caller is told, and what the program and RCS-2000 then hold.
use robo_control.Prelude.{◌+◌, ◌≤◌, String, ◌≡◌, ◌⊎◌, true, Option, some, List, length}
use robo_control.Json.{Json}
use robo_control.Errors.{Exn, builtin, redis_error, Result, Response}
use robo_control.Redis
use robo_control.World.{Env, World, Outgoing}
use robo_control.TaskService.Schemas.{TaskCreateRequest, TaskCreateResponseData, dump_response}
use robo_control.TaskService.Cache.{write_cache, cache_refusal}
use robo_control.TaskService.Effects.{with_task}
use robo_control.TaskService.{created}
use robo_control.Api.Endpoints.{Backend, standard_response}
use robo_control.Api.{create, answer_exception, respond}

-- The end of a request closes its session.
abbrev closed : World → World
closed w = record w { tx = w.db }

module _ (env : Env) (request_id : String) (payload : TaskCreateRequest) (key : Option String) where
  abbrev success : TaskCreateResponseData → Response
  success result = record {
    status_code = 201;
    content = standard_response request_id (dump_response result);
  }

  -- The answer was in the cache, and nothing has changed.
  abbrev FromCache : World → Response × World → Type 0
  FromCache w (answer, w') =
      (result : TaskCreateResponseData) × (result.cached ≡ true)
      × (answer ≡ success result)
      × (w' ≡ closed w)

  -- One request was sent, a pending row is committed, and the answer names its task code and is
  -- cached.
  abbrev Submitted : World → Response × World → Type 0
  Submitted w (answer, w') =
      (code : String) × (sent : List Outgoing) × (answer ≡ success (created env code))
      × (length sent ≡ length w.sent + 1)
      × (w'
          ≡ write_cache env key payload (created env code)
              (with_task env code payload key (record w { sent = sent; tx = w.db })))

  -- Nothing is stored.
  abbrev Refused : World → World → Type 0
  Refused w w' =
      (w'.db ≡ w.db)
      × (w'.tx ≡ w.db)
      × (w'.redis ≡ w.redis)
      × (w'.queue ≡ w.queue)
      × (length w'.sent ≤ length w.sent + 1)

  -- One request was sent and the row is committed, but Redis refused the cache entry.
  abbrev Unsaved : World → Exn → World → Type 0
  Unsaved w e w' =
      (code reason : String) × (sent : List Outgoing) × (cache_refusal env key w.now ≡ some reason)
      × (e ≡ builtin redis_error reason)
      × (length sent ≡ length w.sent + 1)
      × (w' ≡ with_task env code payload key (record w { sent = sent; tx = w.db }))

module _ (env : Env) (backend : Backend) (request_id : String) (given : Option String)
    (payload : TaskCreateRequest) (key : Option String) where
  -- The ways in which a creation can end with an error.
  abbrev Failed : World → Response × World → Type 0
  Failed w (response, w') =
      (e : Exn) × (response ≡ answer_exception env backend request_id e)
      × (Refused env request_id payload key w w' ⊎ Unsaved env request_id payload key w e w')

  -- The ways in which a creation can end, as the caller and the stores see them.
  abbrev pub Answered : World → Response × World → Type 0
  Answered w out =
      ((given ≡ some env.settings.api_key)
        × (FromCache env request_id payload key w out ⊎ Submitted env request_id payload key w out))
      ⊎ Failed w out

  answer : Result Json × World → Response × World
  answer out = respond env backend request_id (create payload key) out
