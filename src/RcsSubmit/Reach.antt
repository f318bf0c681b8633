-- ===== src/RcsSubmit/Reach.antt =====
-- Where a raw submission can send to, whatever path or address the client gives.
use mathlib.Core.Path.{subst}
use robo_control.Prelude.{
  String, ◌≡◌, ◌⊎◌, inl, inr, refl, sym, ap, ◌∙◌, true, false, not, ◌&&◌, Option, none, some, [],
  arith, if-cases, Bool-cases,
}
use robo_control.Text.{is_empty, starts_with, contains}
use robo_control.Json.{Json}
use robo_control.Client.Response.Laws.{raise-ne-ok}
use robo_control.Errors
use robo_control.Errors.{Exn, Result, ok, raise}
use robo_control.Redis
use robo_control.Database.Tasks.{TaskHistory}
use robo_control.World.{Env, World, pure, write_unless, ◌>>=◌, ◌>>◌}
use robo_control.World.Rules.{bind_rule, or_rollback_rule, lift_rule, call_rule}
use robo_control.World.Session.{flush_task, commit}
use robo_control.World.Session.Laws.{flush_task-ok, flush_task-raise, commit-ok, commit-raise}
use robo_control.RcsPath.{rcs_path_prefix, normalize_rcs_path, validate_rcs_path}
use robo_control.RcsPath.Safety.{validate_rcs_path_iff}
use robo_control.Client.Retry.{request}
use robo_control.RcsSubmit.Body.{RcsRawSubmitRequest, RcsRawSubmitResult, extract_task_code}
use robo_control.Database.{Db}
use robo_control.RcsSubmit.Cache.{
  allowed, checked_path, cached_result, write_result, save_result, raw_refusal,
}
use robo_control.RcsSubmit.{
  send_raw, write_row, new_row, persist_raw, store_raw, send_and_store, cached_or, submit_at,
  submit_raw, result_of,
}
use robo_control.RcsSubmit.Sends.{Adds, GoesTo, send_raw-AddsOnly}

validated-ok :
    (r : Result (Unit {0})) (p path : String)
    → Errors.◌>>=◌ r (λ _. ok p) ≡ ok path
    → (p ≡ path) × (r ≡ ok tt)
validated-ok (ok tt) p path h = (cc, refl)
validated-ok (raise x) p path h = cc

allowed-ok : (p path : String) → allowed p ≡ ok path → (p ≡ path) × (validate_rcs_path p ≡ ok tt)
allowed-ok p path h = elim (Bool-cases (is_empty p)) [
  | inl e ↦ absurd (raise-ne-ok (rw e at h))
  | inr e ↦ validated-ok (validate_rcs_path p) p path (rw e at h)
]

bound-allowed :
    (r : Result String) (path : String)
    → Errors.◌>>=◌ r allowed ≡ ok path
    → (r ≡ ok path) × (validate_rcs_path path ≡ ok tt)
bound-allowed (ok p) path h =
    let (same, valid) = allowed-ok p path h in (ap ok same, rw (← same) valid)
bound-allowed (raise x) path h = cc

pub checked_path-ok :
    (env : Env) (request : RcsRawSubmitRequest) (path : String)
    → checked_path env request ≡ ok path
    → (normalize_rcs_path env.netloc_error request.path ≡ ok path)
      × (validate_rcs_path path ≡ ok tt)
unfolding checked_path
checked_path-ok env request path h =
    bound-allowed (normalize_rcs_path env.netloc_error request.path) path h

module _ (env : Env) (model_validate : Json → Result RcsRawSubmitResult)
    (request : RcsRawSubmitRequest) (key : Option String) where
  -- A call that sends nothing and takes no time.
  abbrev pub Keeps : {A : Type 0} → World → Result A × World → Type 0
  Keeps w out = (out.1.sent ≡ w.sent) × (out.1.now ≡ w.now)

  same-Keeps :
      (u w : World) (d : Db) → u ≡ record w { tx = d } → (u.sent ≡ w.sent) × (u.now ≡ w.now)
  same-Keeps u w d same = (ap (λ (y : World). y.sent) same, ap (λ (y : World). y.now) same)

  write_row-Keeps :
      (row : World → TaskHistory) (w : World) → Keeps w (write_row env model_validate row w)
  write_row-Keeps row w =
      or_rollback_rule (Keeps w) (λ v. (flush_task env (row v) >> (commit env >> pure true)) v) w
        (λ a w' e. subst (Keeps w) e attempt) (λ x w' e. subst (Keeps w) e attempt)
    where
      attempt : Keeps w ((flush_task env (row w) >> (commit env >> pure true)) w)
      attempt =
          bind_rule (Keeps w) (flush_task env (row w)) (λ _. commit env >> pure true) w
            (λ _ u flushed.
              let kept = flush_task-ok env (row w) w u flushed in
              bind_rule (Keeps w) (commit env) (λ _. pure true) u
                (λ _ v done. rw (commit-ok env u v done) (same-Keeps u w _ kept.1))
                (λ x v failed. rw (commit-raise env u v x failed) (same-Keeps u w _ kept.1)))
            (λ x u failed. rw (flush_task-raise env (row w) w u x failed) (refl, refl))

  pub persist_raw-Keeps :
      (code : Option String) (w : World)
      → Keeps w (persist_raw env model_validate request key code w)
  unfolding persist_raw
  persist_raw-Keeps none w = (refl, refl)
  persist_raw-Keeps (some code) w =
      if-cases (Keeps w) (request.persist_task && not (is_empty code))
        (write_row env model_validate (new_row env model_validate code request key) w) (ok false, w)
        (λ _. write_row-Keeps (new_row env model_validate code request key) w) (λ _. (refl, refl))

  write_result-sent :
      (path : String) (result : RcsRawSubmitResult) (w : World)
      → (write_result env model_validate key request path result w).sent ≡ w.sent
  unfolding write_result
  write_result-sent path result w = ground arith

  -- The cache and the answer of a result.
  abbrev pub cached_as : String → RcsRawSubmitResult → World → Result RcsRawSubmitResult × World
  cached_as path result = save_result env model_validate key request path result >> pure result

  cached_as-sent :
      (path : String) (result : RcsRawSubmitResult) (w : World)
      → (cached_as path result w).1.sent ≡ w.sent
  cached_as-sent path result w = go (raw_refusal env model_validate key w.now)
    where
      go :
          (o : Option String)
          → ((write_unless o (write_result env model_validate key request path result)
                >> pure result)
              w).1.sent
            ≡ w.sent
      go none = write_result-sent path result w
      go (some reason) = refl

  -- The rest of `store_raw` for a task code.
  abbrev pub stored : String → Json → Option String → World → Result RcsRawSubmitResult × World
  stored path reply code = persist_raw env model_validate request key code >>= λ persisted.
      cached_as path (result_of env model_validate code persisted reply)

  store_raw-sent :
      (path : String) (reply : Json) (w : World)
      → (store_raw env model_validate request key path reply w).1.sent ≡ w.sent
  unfolding store_raw
  store_raw-sent path reply w =
      let SendsNone = λ (out : Result RcsRawSubmitResult × World). out.1.sent ≡ w.sent in
      lift_rule SendsNone (extract_task_code env reply) (stored path reply) w
        (λ code _.
          bind_rule SendsNone (persist_raw env model_validate request key code)
            (λ persisted. cached_as path (result_of env model_validate code persisted reply)) w
            (λ persisted v e.
              cached_as-sent path (result_of env model_validate code persisted reply) v
              ∙ (subst (Keeps w) e (persist_raw-Keeps code w)).0)
            (λ x v e. (subst (Keeps w) e (persist_raw-Keeps code w)).0))
        (λ x _. refl)

  -- What a raw submission has sent: nothing, or requests to its normalised path, which lies under
  -- the RCS prefix and holds no "..", at the address that the settings give.
  abbrev pub Reached : World → World → Type 0
  Reached w v =
      (v.sent ≡ w.sent)
      ⊎ ((path : String) × (normalize_rcs_path env.netloc_error request.path ≡ ok path)
          × (starts_with rcs_path_prefix path ≡ true)
          × (contains ".." path ≡ false)
          × Adds (GoesTo env (λ k. Redis.get w.now k w.redis) path) (λ k. Redis.get w.now k w.redis)
              w.sent v.sent)

  send_and_store-Adds :
      (path : String) (w : World)
      → Adds
          (GoesTo env (λ k. Redis.get w.now k w.redis) path)
          (λ k. Redis.get w.now k w.redis)
          w.sent
          (send_and_store env model_validate request key path w).1.sent
  unfolding send_and_store
  send_and_store-Adds path w =
      let get = λ (k : String). Redis.get w.now k w.redis in
      let sends = send_raw-AddsOnly env get model_validate request path w.sent in
      call_rule (λ out. Adds (GoesTo env get path) get w.sent out.1.sent)
        (send_raw env model_validate request path) (store_raw env model_validate request key path) w
        (λ reply sent e.
          subst (Adds (GoesTo env get path) get w.sent)
            (ap (λ r. r.1) e ∙ sym (store_raw-sent path reply (record w { sent = sent }))) sends)
        (λ x sent e. subst (Adds (GoesTo env get path) get w.sent) (ap (λ r. r.1) e) sends)

  continue-Adds :
      (path : String) (w : World) (o : Option RcsRawSubmitResult)
      → Adds
          (GoesTo env (λ k. Redis.get w.now k w.redis) path)
          (λ k. Redis.get w.now k w.redis)
          w.sent
          (cached_or env model_validate
            (send_and_store env model_validate request key path)
            o
            w).1.sent
  continue-Adds path w none = send_and_store-Adds path w
  continue-Adds path w (some cached) = ([], refl, tt)

  submit_at-Adds :
      (path : String) (w : World)
      → Adds
          (GoesTo env (λ k. Redis.get w.now k w.redis) path)
          (λ k. Redis.get w.now k w.redis)
          w.sent
          (submit_at env model_validate request key path w).1.sent
  unfolding submit_at
  submit_at-Adds path w =
      let get = λ (k : String). Redis.get w.now k w.redis in
      lift_rule (λ out. Adds (GoesTo env get path) get w.sent out.1.sent)
        (cached_result env model_validate key request w)
        (cached_or env model_validate (send_and_store env model_validate request key path)) w
        (λ o _. continue-Adds path w o) (λ x _. ([], refl, tt))

  -- Whatever path or address the client gives, each request that a raw submission sends goes to the
  -- normalised path, which begins with the RCS prefix and holds no "..", at the address that the
  -- connection settings give, however the submission ends.
  pub submit_raw-Reached : (w : World) → Reached w (submit_raw env model_validate request key w).1
  unfolding submit_raw
  submit_raw-Reached w =
      lift_rule (λ out. Reached w out.1) (checked_path env request)
        (submit_at env model_validate request key) w
        (λ path e.
          let (normal, valid) = checked_path-ok env request path e in
          let (under, plain) = (validate_rcs_path_iff path).0 valid in
          inr (path, normal, under, plain, submit_at-Adds path w))
        (λ x _. inl refl)
