-- ===== src/Worker/Retries.antt =====
-- The retry policy of `process_task_feedback` in app/workers/tasks.py: `autoretry_for=(Exception,)`,
-- `max_retries=5`. Celery runs a message that raised again, after a wait; in the meantime it may
-- process other messages. How long the waits are is left open: the backoff only says when the next
-- execution may start at the earliest.
pub mod Outage
pub mod Ending
use robo_control.Prelude.{ℕ, zero, suc, ◌+◌, List, [], ◌∷◌, Bool, true, false}
use robo_control.Json.{Fields}
use robo_control.Errors.{Result, ok, raise}
use robo_control.World.{Env, World}
use robo_control.Worker.{Report, process_task_feedback}
use robo_control.Worker.Progress.{deliver_all}

abbrev pub max_retries : ℕ
max_retries = 5

pub record Execution : Type 0 where
  pub started : ℕ
  pub result : Result Report

abbrev pub is_returned : Result Report → Bool
is_returned (ok _) = true
is_returned (raise _) = false

-- The executions of a message from one that has run: it is done, or goes on as `again` says.
abbrev pub go_on :
    ℕ → Result Report × World → (World → List Execution × World) → List Execution × World
go_on t (ok a, v) again = (record { started = t; result = ok a } ∷ [], v)
go_on t (raise e, v) again =
    let rest = again v in (record { started = t; result = raise e } ∷ rest.0, rest.1)

module _ (env : Env) (wait : ℕ → ℕ) (meanwhile : ℕ → List (ℕ × Fields)) where
  abbrev pub execute : ℕ → Fields → World → Result Report × World
  execute t fs w = process_task_feedback env fs (record w { now = t })

  -- The executions of a message with so many retries left and made, and what they leave.
  unfoldable pub executions : ℕ → ℕ → ℕ → Fields → World → List Execution × World
  executions zero made t fs w = go_on t (execute t fs w) (λ v. ([], v))
  executions (suc left) made t fs w =
      go_on t (execute t fs w)
        (λ v. executions left (suc made) (t + wait made) fs (deliver_all env (meanwhile made) v))

  unfoldable pub run_message : Fields → World → List Execution × World
  run_message fs w = executions max_retries 0 w.now fs w
