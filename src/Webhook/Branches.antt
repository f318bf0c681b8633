-- ===== src/Webhook/Branches.antt =====
-- The handler on every branch.
use mathlib.Core.Path.{subst}
use robo_control.Prelude.{
  suc, ◌≡◌, inl, inr, refl, sym, ap, ◌∙◌, String, Bool, true, false, Option, none, some, ◌∷◌,
  Option-cases, if-cases,
}
use robo_control.Errors.{Exn, builtin, broker_error, Result, ok, raise}
use robo_control.Redis
use robo_control.Redis.Keys.{webhook_dedupe_ttl_seconds}
use robo_control.Redis.Laws.{set_nx-fresh, set_nx-taken}
use robo_control.Json.{obj, Fields}
use robo_control.World.{Env, World, pure, ◌>>◌, throw}
use robo_control.World.Rules.{bind-ok, bind-raise}
use robo_control.Security.{verify_webhook_signature}
use robo_control.Webhook.{
  TaskFeedbackPayload, WebhookAck, model_dump, dedupe_key, enqueue, set_first, log_event,
  take_or_skip, handle_verified, is_signature_error, handle_rejected, handle_refusal,
  handle_task_feedback,
}
use robo_control.Webhook.Log.{Logs, log_event-Logs, log_event-returns}

abbrev pub queued_ack : WebhookAck
queued_ack = record { acknowledged = true; duplicate = false }

abbrev pub duplicate_ack : WebhookAck
duplicate_ack = record { acknowledged = true; duplicate = true }

module _ (env : Env) (payload : Fields) (w : World) where
  enqueue-fine :
      env.broker_error w.deliveries ≡ none
      → enqueue env payload w
        ≡ (ok tt, record w { deliveries = suc w.deliveries; queue = obj payload ∷ w.queue })
  unfolding enqueue
  enqueue-fine fine = rw (enqueue, fine) refl

  enqueue-refused :
      (reason : String)
      → env.broker_error w.deliveries ≡ some reason
      → enqueue env payload w
        ≡ (raise (builtin broker_error reason), record w { deliveries = suc w.deliveries })
  unfolding enqueue
  enqueue-refused reason down = rw (enqueue, down) refl

-- The world in which the dedupe key is set.
abbrev pub with_key : TaskFeedbackPayload → World → World
with_key payload w = record w {
  redis = Redis.setex w.now (dedupe_key payload) webhook_dedupe_ttl_seconds "1" w.redis;
}

module _ (env : Env) (has_session : Bool) (raw_body : String) (payload : TaskFeedbackPayload) where
  -- How a feedback was handled. Redis, the queue and the tables but the log are as before, but for
  -- what a constructor says.
  pub data Handled (signature : Option String) (w : World) (r : Result WebhookAck) (w' : World)
      : Type 0 where
    rejected :
        (e : Exn)
        → verify_webhook_signature env raw_body signature ≡ raise e
        → is_signature_error e ≡ true
        → r ≡ raise e
        → Logs env has_session raw_body payload false false w w'
        → Handled signature w r w'
    crashed :
        (e : Exn)
        → verify_webhook_signature env raw_body signature ≡ raise e
        → is_signature_error e ≡ false
        → r ≡ raise e
        → w' ≡ w
        → Handled signature w r w'
    repeated :
        (v : String)
        → verify_webhook_signature env raw_body signature ≡ ok tt
        → Redis.get w.now (dedupe_key payload) w.redis ≡ some v
        → r ≡ ok duplicate_ack
        → Logs env has_session raw_body payload true true w w'
        → Handled signature w r w'
    queued :
        (logged : World)
        → verify_webhook_signature env raw_body signature ≡ ok tt
        → Redis.get w.now (dedupe_key payload) w.redis ≡ none
        → env.broker_error w.deliveries ≡ none
        → r ≡ ok queued_ack
        → Logs env has_session raw_body payload true false (with_key payload w) logged
        → w' ≡ record logged {
          deliveries = suc logged.deliveries;
          queue = obj (model_dump payload) ∷ logged.queue;
        }
        → Handled signature w r w'
    refused :
        (logged : World) (reason : String)
        → verify_webhook_signature env raw_body signature ≡ ok tt
        → Redis.get w.now (dedupe_key payload) w.redis ≡ none
        → env.broker_error w.deliveries ≡ some reason
        → r ≡ raise (builtin broker_error reason)
        → Logs env has_session raw_body payload true false (with_key payload w) logged
        → w' ≡ record logged { deliveries = suc logged.deliveries }
        → Handled signature w r w'

  module _ (signature : Option String) (w : World) (clean : w.tx ≡ w.db) where
    abbrev Goal : Result WebhookAck × World → Type 0
    Goal out = Handled signature w out.0 out.1

    repeat-Handled :
        (v : String)
        → verify_webhook_signature env raw_body signature ≡ ok tt
        → Redis.get w.now (dedupe_key payload) w.redis ≡ some v
        → Goal (take_or_skip env has_session raw_body payload false w)
    repeat-Handled v valid found =
        let logged = (log_event env has_session raw_body payload true true w).1 in
        let returns =
          bind-ok (log_event env has_session raw_body payload true true) (λ _. pure duplicate_ack) w
            logged tt (log_event-returns env has_session raw_body payload true true w) in
        subst Goal (sym returns) (
          repeated v valid found refl
            (log_event-Logs env has_session raw_body payload true true w clean))

    enqueued-Handled :
        (logged : World)
        → verify_webhook_signature env raw_body signature ≡ ok tt
        → Redis.get w.now (dedupe_key payload) w.redis ≡ none
        → Logs env has_session raw_body payload true false (with_key payload w) logged
        → Goal ((enqueue env (model_dump payload) >> pure queued_ack) logged)
    enqueued-Handled logged valid fresh logs =
        let same : logged.deliveries ≡ w.deliveries =
          ap (λ (v : World). v.deliveries) logs.same_else in
        elim (Option-cases (env.broker_error w.deliveries)) [
          | inl fine ↦
              subst Goal
                (sym (
                  bind-ok (enqueue env (model_dump payload)) (λ _. pure queued_ack) logged _ tt
                    (enqueue-fine env (model_dump payload) logged
                      (ap env.broker_error same ∙ fine))))
                (queued logged valid fresh fine refl logs refl)
          | inr (reason, down) ↦
              subst Goal
                (sym (
                  bind-raise (enqueue env (model_dump payload)) (λ _. pure queued_ack) logged _ _
                    (enqueue-refused env (model_dump payload) logged reason
                      (ap env.broker_error same ∙ down))))
                (refused logged reason valid fresh down refl logs refl)
        ]

    first-Handled :
        verify_webhook_signature env raw_body signature ≡ ok tt
        → Redis.get w.now (dedupe_key payload) w.redis ≡ none
        → Goal (take_or_skip env has_session raw_body payload true (with_key payload w))
    first-Handled valid fresh =
        let before = with_key payload w in
        let logged = (log_event env has_session raw_body payload true false before).1 in
        let returns =
          bind-ok (log_event env has_session raw_body payload true false)
            (λ _. enqueue env (model_dump payload) >> pure queued_ack) before logged tt
            (log_event-returns env has_session raw_body payload true false before) in
        let logs = log_event-Logs env has_session raw_body payload true false before clean in
        subst Goal (sym returns) (enqueued-Handled logged valid fresh logs)

    verified-Handled :
        verify_webhook_signature env raw_body signature ≡ ok tt
        → Goal (handle_verified env has_session raw_body payload w)
    unfolding handle_verified set_first
    verified-Handled valid = elim (Option-cases (Redis.get w.now (dedupe_key payload) w.redis)) [
      | inl fresh ↦
          rw (set_nx-fresh w.now (dedupe_key payload) webhook_dedupe_ttl_seconds "1" w.redis fresh)
            (first-Handled valid fresh)
      | inr (v, found) ↦
          rw
            (set_nx-taken w.now (dedupe_key payload) webhook_dedupe_ttl_seconds "1" v w.redis found)
            (repeat-Handled v valid found)
    ]

    rejected-Handled :
        (e : Exn)
        → verify_webhook_signature env raw_body signature ≡ raise e
        → is_signature_error e ≡ true
        → Goal (handle_rejected env has_session raw_body payload e w)
    unfolding handle_rejected
    rejected-Handled e invalid bad =
        let logged = (log_event env has_session raw_body payload false false w).1 in
        let raises =
          bind-ok (log_event env has_session raw_body payload false false)
            (λ _. throw {A = WebhookAck} e) w logged tt
            (log_event-returns env has_session raw_body payload false false w) in
        subst Goal (sym raises) (
          rejected e invalid bad refl
            (log_event-Logs env has_session raw_body payload false false w clean))

    refusal-Handled :
        (e : Exn)
        → verify_webhook_signature env raw_body signature ≡ raise e
        → Goal (handle_refusal env has_session raw_body payload e w)
    refusal-Handled e invalid =
        if-cases (λ (m : World → Result WebhookAck × World). Goal (m w)) (is_signature_error e)
          (handle_rejected env has_session raw_body payload e) (throw e)
          (λ bad. rejected-Handled e invalid bad) (λ other. crashed e invalid other refl refl)

    -- In a session with nothing pending, a feedback is handled in one of these ways: a bad signature is
    -- logged and raised; another exception of the verification is raised, and nothing changes; a
    -- feedback whose dedupe key is held is logged and acknowledged as a
    -- duplicate; else the key is set, the feedback is logged, and it is queued and acknowledged, or,
    -- if the broker refuses it, raised. If there is a session, the log row is there unless the
    -- database refuses its commit; if there is none, there is no row; and nothing else changes.
    pub handle_task_feedback-Handled :
        Goal (handle_task_feedback env has_session raw_body payload signature w)
    unfolding handle_task_feedback
    handle_task_feedback-Handled = go (verify_webhook_signature env raw_body signature) refl
      where
        go :
            (r : Result (Unit {0}))
            → verify_webhook_signature env raw_body signature ≡ r
            → Goal (elim r [
              | ok _ ↦ handle_verified env has_session raw_body payload w
              | raise e ↦ handle_refusal env has_session raw_body payload e w
            ])
        go (ok tt) e = verified-Handled e
        go (raise x) e = refusal-Handled x e
