-- ===== src/RcsSubmit/Cache.antt =====
-- The path check of `submit_raw`, `_lookup_idempotency` and `_save_idempotency`.
use robo_control.Prelude.{ℕ, String, Option, none, some, [], ◌∷◌, if◌then◌else◌}
use robo_control.Text.{concat, is_empty}
use robo_control.Json.{Json, str, obj, end, object, get_or_null, equals_text, or_empty, truthy}
use robo_control.Errors.{
  Exn, app, Result, ok, raise, ◌>>=◌, new_error, duplicate_task_error, invalid_rcs_path_error,
}
use robo_control.Redis
use robo_control.Redis.Keys.{idempotency_key_ttl_seconds}
use robo_control.World.{Env, World, App, write_unless}
use robo_control.RcsPath.{normalize_rcs_path, validate_rcs_path}
use robo_control.Client.Response.{as_object}
use robo_control.TaskService.Cache.{decode}
use robo_control.RcsSubmit.Body.{
  RcsRawSubmitRequest, RcsRawSubmitResult, dump_result, raw_fingerprint,
}

-- `_idem_key`
unfoldable pub idem_key : String → String
idem_key client_key = concat ("idempotency:rcs_raw:" ∷ client_key ∷ [])

abbrev empty_path : Exn
empty_path =
    app (new_error invalid_rcs_path_error (some "Path is empty.") none none (some (obj end)))

-- A path that is let through.
abbrev pub allowed : String → Result String
allowed path = if is_empty path then raise empty_path else (validate_rcs_path path >>= λ _. ok path)

-- The path that a request may go to.
unfoldable pub checked_path : Env → RcsRawSubmitRequest → Result String
checked_path env request = normalize_rcs_path env.netloc_error request.path >>= allowed

module _ (env : Env) (model_validate : Json → Result RcsRawSubmitResult) where
  -- What the cache answers, once its text is read.
  abbrev pub answer :
      String → RcsRawSubmitRequest → Option Json → Result (Option RcsRawSubmitResult)
  answer key request none = ok none
  answer key request (some v) = do
    path ← normalize_rcs_path env.netloc_error request.path
    envelope ← as_object v
    if equals_text (raw_fingerprint env request path) (get_or_null "fingerprint" envelope)
        then (model_validate (or_empty (get_or_null "result" envelope)) >>= λ r. ok (some r))
        else raise (
            app (
              new_error duplicate_task_error
                (some "Idempotency-Key reused with a different RCS request.") none none
                (some (obj (object (("idempotency_key", str key) ∷ []))))))

  -- `_lookup_idempotency`, if a key is given
  unfoldable pub cached_result :
      Option String → RcsRawSubmitRequest → World → Result (Option RcsRawSubmitResult)
  unfolding as_object get_or_null equals_text new_error idem_key truthy
  cached_result none request w = ok none
  cached_result (some key) request w =
      if is_empty key
      then ok none
      else answer key request (decode env (Redis.get w.now (idem_key key) w.redis))

  unfoldable pub cache_envelope : RcsRawSubmitRequest → String → RcsRawSubmitResult → Json
  unfolding dump_result raw_fingerprint
  cache_envelope request path result = obj (
      object (
        ("fingerprint", str (raw_fingerprint env request path))
        ∷ ("result", dump_result result)
        ∷ []))

  -- `_save_idempotency`, if a key is given
  unfoldable pub write_result :
      Option String → RcsRawSubmitRequest → String → RcsRawSubmitResult → World → World
  unfolding idem_key cache_envelope
  write_result none request path result w = w
  write_result (some key) request path result w = if is_empty key then w else record w {
    redis =
        Redis.setex w.now (idem_key key) idempotency_key_ttl_seconds
          (env.dumps_default (cache_envelope request path result)) w.redis;
  }

  -- Why Redis refuses the entry of a given key, if it does.
  unfoldable pub raw_refusal : Option String → ℕ → Option String
  raw_refusal none now = none
  raw_refusal (some key) now = if is_empty key then none else env.redis_error now (idem_key key)

  abbrev pub save_result :
      Option String → RcsRawSubmitRequest → String → RcsRawSubmitResult → App (Unit {0})
  save_result key request path result w =
      write_unless (raw_refusal key w.now) (write_result key request path result) w
