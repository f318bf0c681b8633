-- ===== src/TaskService/Replay.antt =====
-- What the idempotency cache answers.
use robo_control.Prelude.{
  ℕ, ◌+◌, ◌<◌, String, ◌≡◌, ◌≢◌, true, false, some, arith, ap, ◌∙◌, sym, eq_refl, str_eq_ne, ltb,
}
use robo_control.Text.{is_empty}
use robo_control.Json.{Json}
use robo_control.Errors.{ok, raise}
use robo_control.Redis
use robo_control.Redis.Keys.{idempotency_key, idempotency_key_ttl_seconds}
use robo_control.Redis.Laws.{get-setex}
use robo_control.World.{Env, World}
use robo_control.World.Rules.{bind-ok, bind-raise}
use robo_control.TaskService.Schemas.{TaskCreateRequest, TaskCreateResponseData, fingerprint}
use robo_control.TaskService.Cache.{
  duplicate, decode, answer, cached_answer, lookup_idempotency, cache_envelope, write_cache,
}
use robo_control.TaskService.{create_task, answer_or, submit_and_store}

lt→ltb : (a b : ℕ) → a < b → ltb a b ≡ true
lt→ltb a b h = ground arith

module _ (env : Env) (key : String) (request : TaskCreateRequest)
    (result : TaskCreateResponseData) where
  abbrev pub entry : Json
  entry = cache_envelope env request result

  -- The text of the entry is not empty and reads back.
  abbrev pub ReadsBack : Type 0
  ReadsBack =
      (is_empty (env.dumps_default entry) ≡ false)
      × (env.loads (env.dumps_default entry) ≡ some entry)

  -- A non-empty key was cached at `w`, and `v` is a later world in which Redis is as it was then
  -- and the entry has not expired.
  abbrev pub IsFresh : World → World → Type 0
  IsFresh w v =
      (v.redis ≡ (write_cache env (some key) request result w).redis)
      × (v.now < w.now + idempotency_key_ttl_seconds)

  answer-entry_same :
      answer env key request (some entry) ≡ ok (some (record result { cached = true }))
  unfolding cached_answer cache_envelope
  answer-entry_same = rw (eq_refl (fingerprint env request))

  answer-entry_other :
      (other : TaskCreateRequest)
      → fingerprint env other ≢ fingerprint env request
      → answer env key other (some entry)
        ≡ raise (duplicate "Idempotency-Key reused with a different payload." key)
  unfolding cached_answer cache_envelope
  answer-entry_other other ne =
      rw (str_eq_ne (fingerprint env request) (fingerprint env other) (λ e. ne (sym e)))

  module _ (w v : World) (given : is_empty key ≡ false) (reads : ReadsBack)
      (fresh : IsFresh w v) where
    get-entry : Redis.get v.now (idempotency_key key) v.redis ≡ some (env.dumps_default entry)
    unfolding write_cache
    get-entry =
        rw (fresh.0, given)
          (get-setex w.now v.now (idempotency_key key) (idempotency_key key)
              idempotency_key_ttl_seconds (env.dumps_default entry) w.redis
            ∙ rw (eq_refl (idempotency_key key), lt→ltb _ _ fresh.1))

    decode-entry : decode env (Redis.get v.now (idempotency_key key) v.redis) ≡ some entry
    decode-entry = rw (get-entry, reads.0) (reads.1)

    lookup_entry :
        (r : TaskCreateRequest) → cached_answer env (some key) r v ≡ answer env key r (some entry)
    unfolding cached_answer
    lookup_entry r = rw (given, decode-entry)

    -- While the entry lives, the same request under the same key gets the cached task code, and
    -- nothing at all is changed: no request is sent, no row is written.
    pub create_task_replay :
        create_task env request (some key) v ≡ (ok (record result { cached = true }), v)
    unfolding create_task
    create_task_replay =
        bind-ok (lookup_idempotency env (some key) request)
          (answer_or env (submit_and_store env request (some key))) v v _
          (ap (λ r. (r, v)) (lookup_entry request ∙ answer-entry_same))

    -- While the cache entry of a request under a non-empty key lives and reads back, a request with
    -- another fingerprint under that key raises the duplicate error and changes nothing.
    pub create_task_conflict :
        (other : TaskCreateRequest)
        → fingerprint env other ≢ fingerprint env request
        → create_task env other (some key) v
          ≡ (raise (duplicate "Idempotency-Key reused with a different payload." key), v)
    unfolding create_task
    create_task_conflict other ne =
        bind-raise (lookup_idempotency env (some key) other)
          (answer_or env (submit_and_store env other (some key))) v v _
          (ap (λ r. (r, v)) (lookup_entry other ∙ answer-entry_other other ne))
