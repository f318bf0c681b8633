-- ===== src/TaskService/Cache.antt =====
-- `_lookup_idempotency` and `_save_idempotency`.
use robo_control.Prelude.{ℕ, String, true, Option, none, some, [], ◌∷◌, if◌then◌else◌}
use robo_control.Text.{is_empty}
use robo_control.Json.{
  Json, str, obj, Fields, object, find, get_or_null, truthy, or_empty, equals_text,
}
use robo_control.Errors.{
  Exn, app, builtin, key_error, type_error, validation_error, Result, ok, raise, new_error, ◌>>=◌,
  duplicate_task_error,
}
use robo_control.Redis
use robo_control.Redis.Keys.{idempotency_key, idempotency_key_ttl_seconds}
use robo_control.World.{Env, World, App, write_unless}
use robo_control.Client.Response.{as_object}
use robo_control.TaskService.Schemas.{
  TaskCreateRequest, TaskCreateResponseData, dump_response, fingerprint,
}

abbrev pub duplicate : String → String → Exn
duplicate message key = app (
    new_error duplicate_task_error (some message) none none
      (some (obj (object (("idempotency_key", str key) ∷ [])))))

-- `data[key]`
unfoldable pub item : String → Json → Result Json
unfolding find
item key (obj fs) = elim (find key fs) [ none ↦ raise (builtin key_error key) | some v ↦ ok v ]
item key _ = raise (builtin type_error "indices must be integers")

-- A field that pydantic reads as a text.
abbrev pub as_text : Json → Result String
as_text (str s) = ok s
as_text _ = raise (builtin validation_error "Input should be a valid string")

-- The response that a cache entry holds.
unfoldable pub read_response : Json → Result TaskCreateResponseData
unfolding item
read_response data_ = do
  code ← item "robotTaskCode" data_
  status ← item "status" data_
  code_text ← as_text code
  status_text ← as_text status
  ok (record { robot_task_code = code_text; status = status_text; cached = true })

module _ (env : Env) where
  -- What a cache entry answers to a request.
  unfoldable pub read_entry : String → TaskCreateRequest → Fields → Result TaskCreateResponseData
  unfolding get_or_null truthy equals_text new_error read_response
  read_entry key request cached =
      if equals_text (fingerprint env request) (get_or_null "request_fingerprint" cached)
      then read_response (or_empty (get_or_null "response" cached))
      else raise (duplicate "Idempotency-Key reused with a different payload." key)

  -- `cached_raw` is there and is JSON.
  abbrev pub decode : Option String → Option Json
  decode none = none
  decode (some raw) = if is_empty raw then none else env.loads raw

  abbrev pub answer :
      String → TaskCreateRequest → Option Json → Result (Option TaskCreateResponseData)
  answer key request none = ok none
  answer key request (some v) = do
    cached ← as_object v
    response ← read_entry key request cached
    ok (some response)

  -- What the cache answers to a request under a key, if one is given.
  unfoldable pub cached_answer :
      Option String → TaskCreateRequest → World → Result (Option TaskCreateResponseData)
  unfolding as_object read_entry
  cached_answer none request w = ok none
  cached_answer (some key) request w =
      if is_empty key
      then ok none
      else answer key request (decode (Redis.get w.now (idempotency_key key) w.redis))

  -- Step 1 and `_lookup_idempotency`.
  abbrev pub lookup_idempotency :
      Option String → TaskCreateRequest → App (Option TaskCreateResponseData)
  lookup_idempotency key request w = (cached_answer key request w, w)

  -- The text that is cached for a request and its response.
  unfoldable pub cache_envelope : TaskCreateRequest → TaskCreateResponseData → Json
  unfolding dump_response
  cache_envelope request result = obj (
      object (
        ("request_fingerprint", str (fingerprint env request))
        ∷ ("response", dump_response result)
        ∷ []))

  -- The write of a given key into Redis.
  unfoldable pub write_cache :
      Option String → TaskCreateRequest → TaskCreateResponseData → World → World
  write_cache none request result w = w
  write_cache (some key) request result w = if is_empty key then w else record w {
    redis =
        Redis.setex w.now (idempotency_key key) idempotency_key_ttl_seconds
          (env.dumps_default (cache_envelope request result)) w.redis;
  }

  -- Why Redis refuses the entry of a given key, if it does.
  unfoldable pub cache_refusal : Option String → ℕ → Option String
  cache_refusal none now = none
  cache_refusal (some key) now =
      if is_empty key then none else env.redis_error now (idempotency_key key)

  -- Step 6 and `_save_idempotency`.
  abbrev pub save_idempotency :
      Option String → TaskCreateRequest → TaskCreateResponseData → App (Unit {0})
  save_idempotency key request result w =
      write_unless (cache_refusal key w.now) (write_cache key request result) w
