-- ===== src/TaskService/Creation.antt =====
-- `create_task` as a whole: its effect on every branch, and a repeated call.
use mathlib.Core.Path.{subst}
use robo_control.Prelude.{
  ◌+◌, ◌<◌, String, ◌≡◌, ◌⊎◌, inl, inr, refl, true, false, Option, none, some, arith, ap, ◌∙◌, sym,
  if-cases,
}
use robo_control.Text.{is_empty}
use robo_control.Json.{Json, Fields, or_empty, get_or_null}
use robo_control.Client.Response.{as_object}
use robo_control.Errors.{Exn, Result, ok, raise, ◌>>=◌}
use robo_control.Redis
use robo_control.Redis.Keys.{idempotency_key, idempotency_key_ttl_seconds}
use robo_control.World.{Env, World}
use robo_control.World.Rules.{lift_rule}
use robo_control.TaskService.Schemas.{TaskCreateRequest, TaskCreateResponseData}
use robo_control.TaskService.Cache.{
  decode, answer, read_entry, read_response, cached_answer, write_cache,
}
use robo_control.TaskService.Effects.{Effect, with_task, submit_and_store-Effect}
use robo_control.TaskService.Replay.{ReadsBack, create_task_replay}
use robo_control.TaskService.{create_task, answer_or, submit_and_store}

as_object-cases :
    (v : Json) → ((fs : Fields) × (as_object v ≡ ok fs)) ⊎ ((x : Exn) × (as_object v ≡ raise x))
as_object-cases v = go (as_object v)
  where
    go : (r : Result Fields) → ((fs : Fields) × (r ≡ ok fs)) ⊎ ((x : Exn) × (r ≡ raise x))
    go (ok fs) = inl (fs, refl)
    go (raise x) = inr (x, refl)

module _ (env : Env) (request : TaskCreateRequest) (key : Option String) where
  -- What `create_task` has done: it answered from the cache and changed nothing, or it did what
  -- steps 2 to 6 do.
  abbrev pub Created : World → Result TaskCreateResponseData × World → Type 0
  Created w (ok response, w') =
      ((response.cached ≡ true) × (w' ≡ w)) ⊎ Effect env request key w (ok response, w')
  Created w (raise x, w') = Effect env request key w (raise x, w')

  Effect→Created :
      (w : World) (out : Result TaskCreateResponseData × World)
      → Effect env request key w out
      → Created w out
  Effect→Created w (ok response, w') h = inr h
  Effect→Created w (raise x, w') h = h

  -- Every cached answer says so.
  abbrev IsCachedAnswer : Result (Option TaskCreateResponseData) → Type 0
  IsCachedAnswer (ok (some r)) = r.cached ≡ true
  IsCachedAnswer _ = Unit

  read_response-cached :
      (j : Json) (r : TaskCreateResponseData) → read_response j ≡ ok r → r.cached ≡ true
  unfolding read_response
  read_response-cached j r h = ground arith

  read_entry-cached :
      (k : String) (fs : Fields) (r : TaskCreateResponseData)
      → read_entry env k request fs ≡ ok r
      → r.cached ≡ true
  unfolding read_entry
  read_entry-cached k fs r h =
      ground (arith, read_response-cached (or_empty (get_or_null "response" fs)) r)

  wrapped-cached :
      (x : Result TaskCreateResponseData)
      → ((r : TaskCreateResponseData) → x ≡ ok r → r.cached ≡ true)
      → IsCachedAnswer (x >>= λ r. ok (some r))
  wrapped-cached (ok r) h = h r refl
  wrapped-cached (raise e) h = tt

  answer-cached : (k : String) (o : Option Json) → IsCachedAnswer (answer env k request o)
  answer-cached k none = tt
  answer-cached k (some v) = elim (as_object-cases v) [
    | inl (fs, e) ↦ rw e (wrapped-cached (read_entry env k request fs) (read_entry-cached k fs))
    | inr (x, e) ↦ rw e tt
  ]

  lookup_cached : (k : Option String) (w : World) → IsCachedAnswer (cached_answer env k request w)
  unfolding cached_answer
  lookup_cached none w = tt
  lookup_cached (some k) w =
      if-cases IsCachedAnswer (is_empty k) (ok none)
        (answer env k request (decode env (Redis.get w.now (idempotency_key k) w.redis))) (λ _. tt)
        (λ _. answer-cached k (decode env (Redis.get w.now (idempotency_key k) w.redis)))

  continue_cached :
      (w : World) (o : Option TaskCreateResponseData)
      → w.tx ≡ w.db
      → IsCachedAnswer (ok o)
      → Created w (answer_or env (submit_and_store env request key) o w)
  continue_cached w none clean h =
      Effect→Created w _ (submit_and_store-Effect env request key w clean)
  continue_cached w (some r) clean h = inl (h, refl)

  -- `create_task` in a session with nothing pending, on every branch. If it returns, the answer came
  -- from the cache and nothing has changed, or one request was sent, one pending row with the task
  -- code is committed, and the answer is cached under the key. If it raises
  -- because Redis refuses the cache entry, one request was sent and the row is committed all the
  -- same; if it raises otherwise, the database, the session, the cache and the queue are as before,
  -- and at most one request has been sent.
  pub create_task-Created : (w : World) → w.tx ≡ w.db → Created w (create_task env request key w)
  unfolding create_task
  create_task-Created w clean =
      lift_rule (Created w) (cached_answer env key request w)
        (answer_or env (submit_and_store env request key)) w
        (λ o e. continue_cached w o clean (subst IsCachedAnswer e (lookup_cached key w)))
        (λ x _. inl (refl, clean, refl, refl, omega arith))

module _ (env : Env) (request : TaskCreateRequest) (key : String) where
  -- A creation that was not itself answered from the cache is answered from it when it is repeated
  -- under the same non-empty key, as long as Redis is as the first call left it and less than 24
  -- hours have passed: the same task code and status with `cached` set, and nothing changes.
  pub create_task_twice :
      (w w' v : World) (result : TaskCreateResponseData)
      → w.tx ≡ w.db
      → is_empty key ≡ false
      → create_task env request (some key) w ≡ (ok result, w')
      → result.cached ≡ false
      → ReadsBack env key request result
      → v.redis ≡ w'.redis
      → v.now < w.now + idempotency_key_ttl_seconds
      → create_task env request (some key) v ≡ (ok (record result { cached = true }), v)
  create_task_twice w w' v result clean given done uncached reads same_redis soon =
      elim (subst (Created env request (some key) w) done
        (create_task-Created env request (some key) w clean)) [
          | inl (cached, _) ↦ cc
          | inr (code, sent, is_created, one, after) ↦
              let stored = with_task env code request (some key) (record w { sent = sent }) in
              create_task_replay env key request result stored v given reads (
                same_redis
                    ∙ ap (λ (u : World). u.redis) after
                    ∙ ap (λ r. (write_cache env (some key) request r stored).redis)
                        (sym is_created),
                soon,
              )
        ]
