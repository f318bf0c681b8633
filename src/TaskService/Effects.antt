-- ===== src/TaskService/Effects.antt =====
-- What a task creation changes, on every branch.
use robo_control.Prelude.{
  suc, ◌+◌, ◌≤◌, String, ◌≡◌, refl, Option, none, some, ◌⊎◌, inl, inr, List, [], ◌∷◌, ◌++◌, arith,
  length, ap, sym, ◌∙◌,
}
use robo_control.Json.{Json}
use robo_control.Errors.{Exn, builtin, redis_error, Result, ok, raise}
use mathlib.Core.Path.{subst}
use robo_control.World.{Env, World, Outgoing, pure, write_unless, ◌>>◌}
use robo_control.TaskService.Cache.{save_idempotency, write_cache, cache_refusal}
use robo_control.Client.Api.{submit_task}
use robo_control.Client.Api.Laws.{submit_task_sends}
use robo_control.World.Rules.{result_rule, bind_rule, or_rollback_rule, call_rule, lift_rule}
use robo_control.World.Session.Laws.{flush_task-ok, flush_task-raise, commit-ok, commit-raise}
use robo_control.World.Session.{flush_task, commit}
use robo_control.TaskService.Schemas.{
  TaskCreateRequest, TaskCreateResponseData, build_submit_payload,
}
use robo_control.Redis
use robo_control.Database.{RobotType}
use robo_control.TaskService.{
  new_task, extract_task_code, persist, created, store_task, store_reply, submit_as, robot_type_of,
  submit_and_store,
}

-- A call that raised: the session is back at what is committed, and nothing else has changed.
abbrev pub RolledBack : World → World → Type 0
RolledBack w w' = w' ≡ record w { tx = w.db; commits = w'.commits }

module _ (env : Env) (code : String) (request : TaskCreateRequest) (key : Option String) where
  -- The world in which the row is committed.
  abbrev pub with_task : World → World
  with_task w =
      let t = record w.tx { tasks = w.tx.tasks ++ new_task env code request key w ∷ [] } in
      record w { tx = t; db = t; commits = suc w.commits }

  abbrev Outcome : World → Result (Unit {0}) × World → Type 0
  Outcome w (ok _, w') = w' ≡ with_task w
  Outcome w (raise _, w') = RolledBack w (record w' { tx = w'.db })

  commit-Outcome :
      (w w' : World)
      → w' ≡ record w {
        tx = record w.tx { tasks = w.tx.tasks ++ new_task env code request key w ∷ [] };
      }
      → Outcome w (commit env w')
  commit-Outcome w w' e =
      result_rule (Outcome w) (commit env) w'
        (λ _ v done. let after = commit-ok env w' v done in rw (after, e) refl)
        (λ x v failed. let after = commit-raise env w' v x failed in rw (after, e) refl)

  attempt-Outcome :
      (w : World) → Outcome w ((flush_task env (new_task env code request key w) >> commit env) w)
  attempt-Outcome w =
      let t = new_task env code request key w in
      bind_rule (Outcome w) (flush_task env t) (λ _. commit env) w
        (λ _ w' flushed. commit-Outcome w w' (flush_task-ok env t w w' flushed).1)
        (λ x w' failed. rw (flush_task-raise env t w w' x failed) refl)

  abbrev pub PersistOutcome : World → Result (Unit {0}) × World → Type 0
  PersistOutcome w (ok _, w') = w' ≡ with_task w
  PersistOutcome w (raise _, w') = RolledBack w w'

  pub persist_outcome : (w : World) → PersistOutcome w (persist env code request key w)
  unfolding persist
  persist_outcome w =
      let t = new_task env code request key w in
      or_rollback_rule (PersistOutcome w) (flush_task env t >> commit env) w
        (λ _ w' e. subst (Outcome w) e (attempt-Outcome w))
        (λ _ w' e. subst (Outcome w) e (attempt-Outcome w))

module _ (env : Env) (request : TaskCreateRequest) (key : Option String) where
  -- Nothing is stored, and at most one request has been sent.
  abbrev pub Untouched : World → World → Type 0
  Untouched w w' =
      (w'.db ≡ w.db)
      × (w'.tx ≡ w.db)
      × (w'.redis ≡ w.redis)
      × (w'.queue ≡ w.queue)
      × (length w'.sent ≤ length w.sent + 1)

  -- One request was sent and the row is committed, but Redis refused the cache entry.
  abbrev pub Uncached : World → Exn → World → Type 0
  Uncached w x w' =
      (code reason : String) × (sent : List Outgoing) × (cache_refusal env key w.now ≡ some reason)
      × (x ≡ builtin redis_error reason)
      × (length sent ≡ length w.sent + 1)
      × (w' ≡ with_task env code request key (record w { sent = sent }))

  -- What steps 2 to 6 have done, by how they ended.
  abbrev pub Effect : World → Result TaskCreateResponseData × World → Type 0
  Effect w (ok response, w') =
      (code : String) × (sent : List Outgoing) × (response ≡ created env code)
      × (length sent ≡ length w.sent + 1)
      × (w'
          ≡ write_cache env key request (created env code)
              (with_task env code request key (record w { sent = sent })))
  Effect w (raise x, w') = Untouched w w' ⊎ Uncached w x w'

  -- Step 6, after the commit.
  saved :
      (code : String) (w : World) (sent : List Outgoing)
      → length sent ≡ length w.sent + 1
      → Effect w (
          (save_idempotency env key request (created env code) >> pure (created env code))
            (with_task env code request key (record w { sent = sent })))
  saved code w sent one = go (cache_refusal env key w.now) refl
    where
      go :
          (o : Option String)
          → cache_refusal env key w.now ≡ o
          → Effect w (
              (write_unless o (write_cache env key request (created env code))
                  >> pure (created env code))
                (with_task env code request key (record w { sent = sent })))
      go none fine = (code, sent, refl, one, refl)
      go (some reason) refused = inr (code, reason, sent, refused, refl, one, refl)

  store_task-Effect :
      (code : String) (w : World) (sent : List Outgoing)
      → length sent ≡ length w.sent + 1
      → Effect w (store_task env request key code (record w { sent = sent }))
  unfolding store_task
  store_task-Effect code w sent one =
      let w₁ = record w { sent = sent } in
      let stored = persist_outcome env code request key w₁ in
      bind_rule (Effect w) (persist env code request key)
        (λ _. save_idempotency env key request (created env code) >> pure (created env code)) w₁
        (λ _ w' e.
          let same = subst (PersistOutcome env code request key w₁) e stored in
          rw same (saved code w sent one))
        (λ x w' e.
          let same = subst (PersistOutcome env code request key w₁) e stored in
          rw same (inl (refl, refl, refl, refl, omega (arith, one))))

  store_reply-Effect :
      (rcs_response : Json) (w : World) (sent : List Outgoing)
      → w.tx ≡ w.db
      → length sent ≡ length w.sent + 1
      → Effect w (store_reply env request key rcs_response (record w { sent = sent }))
  unfolding store_reply
  store_reply-Effect rcs_response w sent clean one =
      lift_rule (Effect w) (extract_task_code env rcs_response) (store_task env request key)
        (record w { sent = sent }) (λ code _. store_task-Effect code w sent one)
        (λ x _. inl (refl, clean, refl, refl, omega (arith, one)))

  submit_as-Effect :
      (robot_type : RobotType) (w : World)
      → w.tx ≡ w.db
      → Effect w (submit_as env request key robot_type w)
  unfolding submit_as
  submit_as-Effect robot_type w clean =
      let payload = build_submit_payload request robot_type.rcs_task_type in
      let get = λ (k : String). Redis.get w.now k w.redis in
      let one = submit_task_sends env payload get w.sent in
      call_rule (Effect w) (submit_task env payload) (store_reply env request key) w
        (λ rcs_response sent e.
          store_reply-Effect rcs_response w sent clean (ap (λ r. length r.1) (sym e) ∙ one))
        (λ x sent e.
          let one' : length sent ≡ length w.sent + 1 = ap (λ r. length r.1) (sym e) ∙ one in
          inl (refl, clean, refl, refl, omega (arith, one')))

  -- Steps 2 to 6 in a session with nothing pending. They return only with the row committed and the
  -- answer cached, after one request. They raise with the row committed, after one request, if Redis
  -- refuses the cache entry; if they raise otherwise, the database, the session, the cache and the
  -- queue are as before, and at most one request has been sent.
  pub submit_and_store-Effect :
      (w : World) → w.tx ≡ w.db → Effect w (submit_and_store env request key w)
  unfolding submit_and_store
  submit_and_store-Effect w clean =
      lift_rule (Effect w) (robot_type_of env request w) (submit_as env request key) w
        (λ robot_type _. submit_as-Effect robot_type w clean)
        (λ x _. inl (refl, clean, refl, refl, omega arith))
