-- ===== src/RcsSubmit/Replay.antt =====
-- What a raw submission raises when its call fails, and what its cache answers.
use mathlib.Core.Path.{subst}
use robo_control.Prelude.{
  ◌+◌, ◌<◌, String, ◌≡◌, refl, ap, ◌∙◌, true, false, ℕ, sym, Option, none, some, List, eq_refl,
  if-cases,
}
use robo_control.Text.{is_empty}
use robo_control.Json.{Json}
use robo_control.Errors.{Exn, app, AppError, is_rcs_client_error, Result, ok, raise}
use robo_control.Redis
use robo_control.Redis.Keys.{idempotency_key_ttl_seconds}
use robo_control.Redis.Laws.{setex_self}
use robo_control.World.{Env, World, Outgoing, pure, write_unless, ◌>>◌}
use robo_control.World.Rules.{bind-ok, bind_rule, lift_rule, call_rule}
use robo_control.Client.Retry.{translate}
use robo_control.RcsPath.{normalize_rcs_path}
use robo_control.RcsSubmit.Body.{
  extract_task_code, RcsRawSubmitRequest, RcsRawSubmitResult, dump_result, raw_fingerprint,
  method_text,
}
use robo_control.RcsSubmit.Cache.{
  idem_key, checked_path, answer, cached_result, write_result, raw_refusal, cache_envelope,
}
use robo_control.RcsSubmit.Reach.{checked_path-ok, Keeps, persist_raw-Keeps, cached_as, stored}
use robo_control.RcsSubmit.{
  connection_failed, as_client_error, send_raw, store_raw, persist_raw, result_of, send_and_store,
  cached_or, submit_at, submit_raw,
}

-- An RCSClientError or one of its subclasses.
abbrev pub IsClientError : Exn → Type 0
IsClientError e = (a : AppError) × (e ≡ app a) × (is_rcs_client_error a.kind ≡ true)

as_client_error-IsClientError :
    (path method : String) (e : Exn) → IsClientError (as_client_error path method e)
unfolding as_client_error
as_client_error-IsClientError path method (app a) =
    if-cases IsClientError (is_rcs_client_error a.kind) (app a)
      (connection_failed path method a.message) (λ e. (a, refl, e)) (λ _. (_, refl, refl))
as_client_error-IsClientError path method _ = (_, refl, refl)

translate-IsClientError :
    {A : Type 0} (path method : String) (r : Result A) (e : Exn)
    → translate (as_client_error path method) r ≡ raise e
    → IsClientError e
translate-IsClientError path method (ok a) e h = cc
translate-IsClientError path method (raise x) e h =
    let same : as_client_error path method x ≡ e = cc h in
    rw (← same) (as_client_error-IsClientError path method x)

module _ (env : Env) (model_validate : Json → Result RcsRawSubmitResult)
    (request : RcsRawSubmitRequest) where
  -- Whatever goes wrong in the call of RCS-2000, it leaves `submit_raw` as an RCSClientError.
  pub send_raw-IsClientError :
      (path : String) (get : String → Option String) (sent : List Outgoing) (e : Exn)
      → (send_raw env model_validate request path get sent).0 ≡ raise e
      → IsClientError e
  unfolding send_raw
  send_raw-IsClientError path get sent e h =
      translate-IsClientError path (method_text request.method) _ e h

  module _ (key path : String) (result : RcsRawSubmitResult) where
    abbrev entry : Json
    entry = cache_envelope env model_validate request path result

    -- The text of the entry is not empty and reads back, and so does the result in it.
    abbrev pub ReadsBack : Type 0
    ReadsBack =
        (is_empty (env.dumps_default entry) ≡ false)
        × (env.loads (env.dumps_default entry) ≡ some entry)
        × (model_validate (dump_result result) ≡ ok result)

    get-entry :
        (w v : World)
        → is_empty key ≡ false
        → v.redis ≡ (write_result env model_validate (some key) request path result w).redis
        → v.now < w.now + idempotency_key_ttl_seconds
        → Redis.get v.now (idem_key key) v.redis ≡ some (env.dumps_default entry)
    unfolding write_result
    get-entry w v given same_redis soon =
        rw (same_redis, given)
          (setex_self w.now v.now (idem_key key) idempotency_key_ttl_seconds
            (env.dumps_default entry) w.redis soon)

    answer-entry :
        normalize_rcs_path env.netloc_error request.path ≡ ok path
        → ReadsBack
        → answer env model_validate key request (some entry) ≡ ok (some result)
    unfolding cached_result cache_envelope
    answer-entry normal (filled, reads, valid) =
        rw (normal, eq_refl (raw_fingerprint env request path), valid)

    cached_result-entry :
        (w : World)
        → is_empty key ≡ false
        → Redis.get w.now (idem_key key) w.redis ≡ some (env.dumps_default entry)
        → normalize_rcs_path env.netloc_error request.path ≡ ok path
        → ReadsBack
        → cached_result env model_validate (some key) request w ≡ ok (some result)
    unfolding cached_result
    cached_result-entry w given held normal (filled, reads, valid) =
        rw (given, held, filled, reads) (answer-entry normal (filled, reads, valid))

    -- While Redis holds the entry of a result that reads back, the request is answered with it.
    submit_raw_replay :
        (w v : World)
        → checked_path env request ≡ ok path
        → is_empty key ≡ false
        → ReadsBack
        → v.redis ≡ (write_result env model_validate (some key) request path result w).redis
        → v.now < w.now + idempotency_key_ttl_seconds
        → submit_raw env model_validate request (some key) v ≡ (ok result, v)
    unfolding submit_raw submit_at
    submit_raw_replay w v checked given reads same_redis soon =
        let held = get-entry w v given same_redis soon in
        let normal = (checked_path-ok env request path checked).0 in
        let found = cached_result-entry v given held normal reads in
        bind-ok (λ u. (checked_path env request, u))
          (submit_at env model_validate request (some key)) v v path (ap (λ r. (r, v)) checked)
        ∙ bind-ok (λ u. (cached_result env model_validate (some key) request u, u))
            (cached_or env model_validate
              (send_and_store env model_validate request (some key) path))
            v v (some result) (ap (λ r. (r, v)) found)

  module _ (key path : String) where
    -- What returned has been written to Redis, at a given time.
    abbrev Saved : ℕ → Result RcsRawSubmitResult × World → Type 0
    Saved now (ok r, v) =
        (u : World) × (u.now ≡ now)
        × (v.redis ≡ (write_result env model_validate (some key) request path r u).redis)
    Saved now (raise _, v) = Unit

    cached_as-Saved :
        (r : RcsRawSubmitResult) (now : ℕ) (v : World)
        → v.now ≡ now
        → Saved now (cached_as env model_validate request (some key) path r v)
    cached_as-Saved r now v same = go (raw_refusal env model_validate (some key) v.now)
      where
        go :
            (o : Option String)
            → Saved now (
                (write_unless o (write_result env model_validate (some key) request path r)
                    >> pure r)
                  v)
        go none = (v, same, refl)
        go (some reason) = tt

    store_raw-Saved :
        (reply : Json) (w : World)
        → Saved w.now (store_raw env model_validate request (some key) path reply w)
    unfolding store_raw
    store_raw-Saved reply w =
        lift_rule (Saved w.now) (extract_task_code env reply)
          (stored env model_validate request (some key) path reply) w
          (λ code _.
            let kept = persist_raw-Keeps env model_validate request (some key) code w in
            bind_rule (Saved w.now) (persist_raw env model_validate request (some key) code)
              (λ persisted.
                cached_as env model_validate request (some key) path
                  (result_of env model_validate code persisted reply))
              w
              (λ persisted v e.
                cached_as-Saved (result_of env model_validate code persisted reply) w.now v
                  (subst (Keeps env model_validate request (some key) w) e kept).1)
              (λ x v e. tt))
          (λ x _. tt)

    send_and_store-Saved :
        (w : World) → Saved w.now (send_and_store env model_validate request (some key) path w)
    unfolding send_and_store
    send_and_store-Saved w =
        call_rule (Saved w.now) (send_raw env model_validate request path)
          (store_raw env model_validate request (some key) path) w
          (λ reply sent e. store_raw-Saved reply (record w { sent = sent })) (λ x sent e. tt)

    submit_raw-Saved :
        (w : World)
        → checked_path env request ≡ ok path
        → cached_result env model_validate (some key) request w ≡ ok none
        → Saved w.now (submit_raw env model_validate request (some key) w)
    unfolding submit_raw submit_at
    submit_raw-Saved w checked absent =
        let goes_on =
          bind-ok (λ u. (checked_path env request, u))
            (submit_at env model_validate request (some key)) w w path (ap (λ r. (r, w)) checked)
          ∙ bind-ok (λ u. (cached_result env model_validate (some key) request u, u))
              (cached_or env model_validate
                (send_and_store env model_validate request (some key) path))
              w w none (ap (λ r. (r, w)) absent) in
        subst (Saved w.now) (sym goes_on) (send_and_store-Saved w)

    -- After a raw submission under a non-empty key that was not in the cache has returned a result, it is repeated under the same key within 24 hours of the first, with Redis as the first one left it, if the entry reads back: it gives the same result, its `cached` flag included, and changes nothing.
    pub submit_raw_twice :
        (w w' v : World) (result : RcsRawSubmitResult)
        → checked_path env request ≡ ok path
        → is_empty key ≡ false
        → cached_result env model_validate (some key) request w ≡ ok none
        → submit_raw env model_validate request (some key) w ≡ (ok result, w')
        → ReadsBack key path result
        → v.redis ≡ w'.redis
        → v.now < w.now + idempotency_key_ttl_seconds
        → submit_raw env model_validate request (some key) v ≡ (ok result, v)
    submit_raw_twice w w' v result checked given absent done reads same_redis soon =
        let (u, at_w, saved) = subst (Saved w.now) done (submit_raw-Saved w checked absent) in
        submit_raw_replay key path result u v checked given reads (same_redis ∙ saved)
          (rw at_w soon)
