-- ===== src/Webhook/Once.antt =====
-- Within the hour of its dedupe key, a feedback is queued at most once, whatever comes in between.
use robo_control.Prelude.{
  ℕ, ◌+◌, ◌<◌, ◌≡◌, ◌⊎◌, inl, inr, refl, ap, ◌∙◌, String, true, Option, none, some, List, [], ◌∷◌,
  All,
}
use robo_control.Errors.{builtin, broker_error, Result, ok, raise}
use robo_control.Redis
use robo_control.Redis.Keys.{webhook_dedupe_ttl_seconds}
use robo_control.Redis.Laws.{setex_other, setex_self}
use robo_control.World.{Env, World}
use robo_control.Security.{verify_webhook_signature}
use robo_control.Webhook.{TaskFeedbackPayload, WebhookAck, dedupe_key, handle_task_feedback}
use robo_control.Webhook.Branches.{
  Handled, rejected, crashed, repeated, queued, refused, duplicate_ack, with_key,
  handle_task_feedback-Handled,
}

-- A request to the webhook.
pub record Call : Type 0 where
  pub time : ℕ
  pub raw_body : String
  pub signature : Option String
  pub payload : TaskFeedbackPayload

module _ (env : Env) where
  -- The world that a call finds: its time, and a session of its own.
  abbrev pub at : Call → World → World
  at c w = record w { now = c.time; tx = w.db }

  unfoldable pub receive : Call → World → Result WebhookAck × World
  receive c w = handle_task_feedback env true c.raw_body c.payload c.signature (at c w)

  unfoldable pub receive_all : List Call → World → World
  receive_all [] w = w
  receive_all (c ∷ cs) w = receive_all cs (receive c w).1

  abbrev IsValid : Call → Type 0
  IsValid c = verify_webhook_signature env c.raw_body c.signature ≡ ok tt

  -- The key is held until the deadline.
  abbrev Held : String → ℕ → World → Type 0
  Held key deadline w = (later : ℕ) → later < deadline → Redis.get later key w.redis ≡ some "1"

  -- What a call does to Redis.
  abbrev Writes : Call → World → World → Type 0
  Writes c w v =
      (v.redis ≡ w.redis)
      ⊎ ((Redis.get c.time (dedupe_key c.payload) w.redis ≡ none)
          × (v.redis ≡ (with_key c.payload (at c w)).redis))

  Handled-Writes :
      (c : Call) (w : World) (r : Result WebhookAck) (v : World)
      → Handled env true c.raw_body c.payload c.signature (at c w) r v
      → Writes c w v
  Handled-Writes c w r v (rejected e _ _ _ logs) = inl (ap (λ (x : World). x.redis) logs.same_else)
  Handled-Writes c w r v (crashed e _ _ _ same) = inl (ap (λ (x : World). x.redis) same)
  Handled-Writes c w r v (repeated _ _ _ _ logs) = inl (ap (λ (x : World). x.redis) logs.same_else)
  Handled-Writes c w r v (queued l _ fresh _ _ logs same) =
      inr (fresh, ap (λ (x : World). x.redis) same ∙ ap (λ (x : World). x.redis) logs.same_else)
  Handled-Writes c w r v (refused l _ _ fresh _ _ logs same) =
      inr (fresh, ap (λ (x : World). x.redis) same ∙ ap (λ (x : World). x.redis) logs.same_else)

  receive-Handled :
      (c : Call) (w : World)
      → Handled env true c.raw_body c.payload c.signature (at c w) (receive c w).0 (receive c w).1
  unfolding receive
  receive-Handled c w =
      handle_task_feedback-Handled env true c.raw_body c.payload c.signature (at c w) refl

  receive-Held :
      (key : String) (deadline : ℕ) (c : Call) (w : World)
      → c.time < deadline
      → Held key deadline w
      → Held key deadline (receive c w).1
  receive-Held key deadline c w early held later before =
      elim (Handled-Writes c w _ _ (receive-Handled c w)) [
        | inl same ↦ rw same (held later before)
        | inr (fresh, written) ↦ rw written (
            setex_other c.time later (dedupe_key c.payload) key webhook_dedupe_ttl_seconds "1" "1"
              w.redis fresh (held c.time early) (held later before))
      ]

  receive_all-Held :
      (key : String) (deadline : ℕ) (cs : List Call) (w : World)
      → All (λ c. c.time < deadline) cs
      → Held key deadline w
      → Held key deadline (receive_all cs w)
  unfolding receive_all
  receive_all-Held key deadline [] w early held = held
  receive_all-Held key deadline (c ∷ cs) w (early, rest) held =
      receive_all-Held key deadline cs (receive c w).1 rest
        (receive-Held key deadline c w early held)

  -- A valid call whose key was free holds it for an hour, whether or not the broker took the message.
  first-Held :
      (first : Call) (w : World)
      → IsValid first
      → Redis.get first.time (dedupe_key first.payload) w.redis ≡ none
      → Held
          (dedupe_key first.payload)
          (first.time + webhook_dedupe_ttl_seconds)
          (receive first w).1
  first-Held first w valid free later early = go (receive-Handled first w)
    where
      key : String
      key = dedupe_key first.payload

      own : Redis.get later key (with_key first.payload (at first w)).redis ≡ some "1"
      own = setex_self first.time later key webhook_dedupe_ttl_seconds "1" w.redis early

      go :
          {r : Result WebhookAck} {v : World}
          → Handled env true first.raw_body first.payload first.signature (at first w) r v
          → Redis.get later key v.redis ≡ some "1"
      go (rejected e invalid _ _ _) = absurd cc
      go (crashed e invalid _ _ _) = absurd cc
      go (repeated u _ found _ _) = absurd cc
      go (queued l _ _ _ _ logs same) = rw (same, logs.same_else) own
      go (refused l _ _ _ _ _ logs same) = rw (same, logs.same_else) own

  -- A call that finds its key held is acknowledged as a duplicate and queues nothing.
  repeat-duplicate :
      (again : Call) (w : World)
      → IsValid again
      → Redis.get again.time (dedupe_key again.payload) w.redis ≡ some "1"
      → ((receive again w).0 ≡ ok duplicate_ack) × ((receive again w).1.queue ≡ w.queue)
  repeat-duplicate again w valid found = go (receive-Handled again w)
    where
      go :
          {r : Result WebhookAck} {v : World}
          → Handled env true again.raw_body again.payload again.signature (at again w) r v
          → (r ≡ ok duplicate_ack) × (v.queue ≡ w.queue)
      go (rejected e invalid _ _ _) = absurd cc
      go (crashed e invalid _ _ _) = absurd cc
      go (repeated u _ _ acked logs) = (acked, ap (λ (x : World). x.queue) logs.same_else)
      go (queued l _ free _ _ logs same) = absurd cc
      go (refused l _ _ free _ _ logs same) = absurd cc

  first-refused :
      (first : Call) (w : World) (reason : String)
      → IsValid first
      → Redis.get first.time (dedupe_key first.payload) w.redis ≡ none
      → env.broker_error w.deliveries ≡ some reason
      → ((receive first w).0 ≡ raise (builtin broker_error reason))
        × ((receive first w).1.queue ≡ w.queue)
  first-refused first w reason valid free down = go (receive-Handled first w)
    where
      go :
          {r : Result WebhookAck} {v : World}
          → Handled env true first.raw_body first.payload first.signature (at first w) r v
          → (r ≡ raise (builtin broker_error reason)) × (v.queue ≡ w.queue)
      go (rejected e invalid _ _ _) = absurd cc
      go (crashed e invalid _ _ _) = absurd cc
      go (repeated u _ found _ _) = absurd cc
      go (queued l _ _ told _ logs same) = absurd cc
      go (refused l why _ _ told raised logs same) =
          (cc, ap (λ (x : World). x.queue) same ∙ ap (λ (x : World). x.queue) logs.same_else)

  -- After a call with a valid signature that found its dedupe key free, whatever calls come within
  -- the hour, a further valid call within that hour with the same task and method is acknowledged as
  -- a duplicate and puts nothing on the queue.
  pub feedback_once :
      (first again : Call) (between : List Call) (w : World)
      → verify_webhook_signature env first.raw_body first.signature ≡ ok tt
      → Redis.get first.time (dedupe_key first.payload) w.redis ≡ none
      → All (λ c. c.time < first.time + webhook_dedupe_ttl_seconds) between
      → again.time < first.time + webhook_dedupe_ttl_seconds
      → again.payload.robot_task_code ≡ first.payload.robot_task_code
      → again.payload.method ≡ first.payload.method
      → verify_webhook_signature env again.raw_body again.signature ≡ ok tt
      → ((receive again (receive_all between (receive first w).1)).0 ≡ ok duplicate_ack)
        × ((receive again (receive_all between (receive first w).1)).1.queue
            ≡ (receive_all between (receive first w).1).queue)
  feedback_once first again between w valid free early soon same_code same_method valid_again =
      let deadline = first.time + webhook_dedupe_ttl_seconds in
      let same_key : dedupe_key again.payload ≡ dedupe_key first.payload = cc in
      let held =
        receive_all-Held (dedupe_key first.payload) deadline between (receive first w).1 early
          (first-Held first w valid free) in
      repeat-duplicate again (receive_all between (receive first w).1) valid_again
        (rw same_key (held again.time soon))

  -- A valid feedback that the broker refuses raises, and nothing is queued; sent again within the
  -- hour, it is acknowledged as a duplicate, and still nothing is queued.
  pub feedback_lost :
      (first again : Call) (w : World) (reason : String)
      → verify_webhook_signature env first.raw_body first.signature ≡ ok tt
      → Redis.get first.time (dedupe_key first.payload) w.redis ≡ none
      → env.broker_error w.deliveries ≡ some reason
      → again.time < first.time + webhook_dedupe_ttl_seconds
      → again.payload.robot_task_code ≡ first.payload.robot_task_code
      → again.payload.method ≡ first.payload.method
      → verify_webhook_signature env again.raw_body again.signature ≡ ok tt
      → ((receive first w).0 ≡ raise (builtin broker_error reason))
        × ((receive first w).1.queue ≡ w.queue)
        × ((receive again (receive first w).1).0 ≡ ok duplicate_ack)
        × ((receive again (receive first w).1).1.queue ≡ w.queue)
  unfolding receive_all
  feedback_lost first again w reason valid free down soon same_code same_method valid_again =
      let (raised, unqueued) = first-refused first w reason valid free down in
      let (acked, same) =
        feedback_once first again [] w valid free tt soon same_code same_method valid_again in
      (raised, unqueued, acked, same ∙ unqueued)
