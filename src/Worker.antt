-- ===== src/Worker.antt =====
-- app/workers/tasks.py: the Celery task that applies a feedback to the task row and to the cached
-- robot state. The queue delivers at least once, so a feedback may be processed again.
pub mod Rows
pub mod Progress
pub mod History
pub mod Repeat
pub mod Automaton
pub mod Machine
pub mod Retries
use mathlib.Core.List
use robo_control.Prelude.{
  ℕ, zero, suc, ◌<◌, String, Bool, true, false, ◌&&◌, ◌||◌, not, Option, none, some, List, [], ◌∷◌,
  str_eq, ltb, is_none, if◌then◌else◌,
}
use robo_control.Text.{is_empty, strip}
use robo_control.Json.{Json, str, obj, Fields, object, get_or_null, opt_str}
use robo_control.Errors.{Exn, Result, ok, raise}
use robo_control.Redis
use robo_control.Redis.Keys.{robot_state_key, robot_state_ttl_seconds}
use robo_control.Database.Tasks.{
  TaskStatus, pending, running, completed, failed, cancelled, status_value, TaskHistory, Update,
  get_by_robot_task_code, update_status, matched_rows,
}
use robo_control.World.{Env, World, App, pure, gets, modify, write_unless, ◌>>=◌, ◌>>◌}
use robo_control.World.Session.{statement, commit, rollback, or_rollback}
use robo_control.Client.Response.{text_at}

-- `TASK_METHOD_TO_STATUS.get(method)`, and failed for a method that is not there
unfoldable pub target_status : String → TaskStatus
target_status method =
    if str_eq method "start" || str_eq method "outbin"
    then running
    else if str_eq method "end"
    then completed
    else failed

-- `status in (TaskStatus.completed, TaskStatus.cancelled, TaskStatus.failed)`
abbrev pub is_terminal : TaskStatus → Bool
is_terminal completed = true
is_terminal cancelled = true
is_terminal failed = true
is_terminal pending = false
is_terminal running = false

-- A feedback once it is read: its texts are stripped, and the two optional ones are as given.
pub record Feedback : Type 0 where
  pub robot_task_code : String
  pub method : String
  pub amr_code : Option String
  pub error_msg : Option String

-- The `kwargs` for the row that was found.
unfoldable pub update_for : ℕ → Feedback → TaskHistory → Update
update_for now f existing = record {
  status = target_status f.method;
  start_time = if str_eq f.method "start" && is_none existing.start_time then some now else none;
  end_time = if is_terminal (target_status f.method) then some now else none;
  error_msg = f.error_msg;
  robot_code = f.amr_code;
}

-- The update that a feedback makes to the table: none for an unknown or a terminal task.
unfoldable pub feedback_update : ℕ → Feedback → List TaskHistory → Option Update
feedback_update now f ts = elim (get_by_robot_task_code f.robot_task_code ts) [
  | none ↦ none
  | some existing ↦ if is_terminal existing.status then none else some (update_for now f existing)
]

-- What the task reports: that fields are missing, or whether the row and the cache were updated.
pub data Report : Type 0 where
  missing_fields : Report
  processed : Bool → Bool → Report

module _ (env : Env) where
  abbrev pub with_update : Feedback → Update → World → World
  with_update f u w = record w {
    tx = record w.tx { tasks = update_status w.now f.robot_task_code u w.tx.tasks };
  }

  -- The UPDATE and the commit.
  unfoldable pub write_update : Feedback → Update → App Bool
  write_update f u = do
    rowcount ← gets (λ w. matched_rows f.robot_task_code w.tx.tasks)
    modify (with_update f u)
    statement env
    commit env
    pure (ltb 0 rowcount)

  -- Leaving the `async with` block rolls back what is not committed.
  unfoldable pub apply_update : Feedback → Update → App Bool
  apply_update f u = or_rollback (write_update f u)

  abbrev pub apply_or_skip : Feedback → Option Update → App Bool
  apply_or_skip f none = pure false
  apply_or_skip f (some u) = apply_update f u

  -- `_update_task_history`, in a session of its own: the SELECT, and what follows it
  unfoldable pub update_task_history : Feedback → App Bool
  update_task_history f = do
    rollback
    statement env
    u ← gets (λ w. feedback_update w.now f w.tx.tasks)
    apply_or_skip f u

  -- The state that is cached for a robot.
  unfoldable pub state_payload : World → TaskStatus → String → Fields → Json
  state_payload w status amr_code fs = obj (
      object (
        ("amrCode", str amr_code)
        ∷ ("x", get_or_null "x" fs)
        ∷ ("y", get_or_null "y" fs)
        ∷ ("state", str (status_value status))
        ∷ ("lastTaskCode", get_or_null "robotTaskCode" fs)
        ∷ ("updatedAt", str (env.isoformat w.now))
        ∷ []))

  abbrev pub cache_state : String → Fields → TaskStatus → World → World
  cache_state amr_code fs status w = record w {
    redis =
        Redis.setex w.now (robot_state_key amr_code) robot_state_ttl_seconds
          (env.dumps_default (state_payload w status amr_code fs)) w.redis;
  }

  -- `_update_robot_state`
  unfoldable pub update_robot_state : Option String → Fields → TaskStatus → App Bool
  update_robot_state none fs status w = (ok false, w)
  update_robot_state (some amr_code) fs status w =
      if is_empty amr_code
      then (ok false, w)
      else (write_unless (env.redis_error w.now (robot_state_key amr_code))
              (cache_state amr_code fs status)
            >> pure true)
          w

  -- A text of the payload; the webhook puts a text or None there.
  abbrev pub text_or_none : Json → Option String
  text_or_none (str s) = some s
  text_or_none _ = none

  unfoldable pub read_feedback : Fields → Feedback
  read_feedback fs = record {
    robot_task_code = strip (text_at env "robotTaskCode" "" fs);
    method = strip (text_at env "method" "" fs);
    amr_code = text_or_none (get_or_null "amrCode" fs);
    error_msg = text_or_none (get_or_null "errorMsg" fs);
  }

  abbrev pub cache_and_report : Feedback → Fields → Bool → App Report
  cache_and_report f fs db_updated = do
    cache_updated ← update_robot_state f.amr_code fs (target_status f.method)
    pure (processed db_updated cache_updated)

  unfoldable pub process_feedback : Feedback → Fields → App Report
  process_feedback f fs = do db_updated ← update_task_history f; cache_and_report f fs db_updated

  -- `_process_task_feedback_async`
  unfoldable pub process_task_feedback : Fields → App Report
  process_task_feedback fs =
      let f = read_feedback fs in
      if is_empty f.robot_task_code || is_empty f.method
      then pure missing_fields
      else process_feedback f fs
