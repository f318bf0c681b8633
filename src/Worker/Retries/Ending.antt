-- ===== src/Worker/Retries/Ending.antt =====
-- The end of a task reaches its row in spite of an outage of the database.
use robo_control.Prelude.{
  inl, inr, ◌∙◌, ℕ, zero, suc, ◌+◌, ◌≤◌, ◌≡◌, refl, ap, String, true, false, ◌||◌, none, some, List,
  [], ◌∷◌, ◌++◌, arith, eq_refl,
}
use robo_control.Text.{is_empty}
use robo_control.Json.{Fields}
use robo_control.Errors.{Exn, Result, ok, raise}
use robo_control.Database.{Db}
use robo_control.Database.Tasks.{TaskStatus, TaskHistory, get_by_robot_task_code}
use robo_control.World.{Env, World}
use robo_control.Worker.{Feedback, Report, is_terminal, read_feedback, process_task_feedback}
use robo_control.Worker.Rows.{row_after, get-rows_after}
use robo_control.Worker.Progress.{Applied, Applied-row, process_feedback-Applied, deliver_all}
use robo_control.Worker.History.{deliver_all-Evolves}
use robo_control.Worker.Automaton.{outcome, step, row_after-step}
use robo_control.Worker.Retries.{
  max_retries, is_returned, Execution, go_on, execute, executions, run_message,
}
use robo_control.Worker.Retries.Outage.{Advances, process_feedback-Advances, deliver_all-le}

step-terminal :
    (s : TaskStatus) (method : String)
    → is_terminal (outcome method) ≡ true
    → is_terminal (step s method) ≡ true
unfolding step
step-terminal s method h = ground arith

-- The last execution returned, and the row of the task has ended.
abbrev pub HasEnded : String → List Execution × World → Type 0
HasEnded code (log, v) =
    (earlier : List Execution) × (last : Execution) × (log ≡ earlier ++ (last ∷ []))
    × (is_returned last.result ≡ true)
    × ((u : TaskHistory) × (get_by_robot_task_code code v.db.tasks ≡ some u)
        × (is_terminal u.status ≡ true))

module _ (env : Env) (wait : ℕ → ℕ) (meanwhile : ℕ → List (ℕ × Fields)) (back : ℕ)
    (up : (n : ℕ) (d : Db)
      → back ≤ n
      → (env.commit_error n d ≡ none) × (env.statement_error n d ≡ none))
    (takes : (now : ℕ) (key : String) → env.redis_error now key ≡ none) (fs : Fields)
    (complete : is_empty (read_feedback env fs).robot_task_code
        || is_empty (read_feedback env fs).method
      ≡ false)
    (ends : is_terminal (outcome (read_feedback env fs).method) ≡ true) where
  abbrev f : Feedback
  f = read_feedback env fs

  abbrev code : String
  code = f.robot_task_code

  abbrev HasRow : World → Type 0
  HasRow w = (t : TaskHistory) × (get_by_robot_task_code code w.db.tasks ≡ some t)

  -- What one execution at `t` from `w` gives.
  abbrev One : ℕ → World → Result Report × World → Type 0
  One t w out = Applied env f (record w { now = t }) out × Advances env back up takes w out

  execute-One : (t : ℕ) (w : World) → One t w (execute env wait meanwhile t fs w)
  unfolding process_task_feedback
  execute-One t w = rw complete (
    process_feedback-Applied env f fs (record w { now = t }),
    process_feedback-Advances env back up takes f fs (record w { now = t }),
  )

  ended-row :
      (t : ℕ) (w v : World) (report : Report)
      → HasRow w
      → Applied env f (record w { now = t }) (ok report, v)
      → (u : TaskHistory) × (get_by_robot_task_code code v.db.tasks ≡ some u)
        × (is_terminal u.status ≡ true)
  ended-row t w v report (r, found) applied = (
    row_after t f r,
    rw (applied, get-rows_after t f code w.db.tasks, found, eq_refl code) refl,
    rw (row_after-step t f r) (step-terminal r.status f.method ends),
  )

  -- A row is still there after an execution that raised.
  kept-row :
      (t : ℕ) (w v : World) (x : Exn) (r : TaskHistory)
      → get_by_robot_task_code code w.db.tasks ≡ some r
      → Applied env {A = Report} f (record w { now = t }) (raise x, v)
      → HasRow v
  kept-row t w v x r found applied =
      elim (Applied-row env {A = Report} f (record w { now = t }) (raise x, v) code applied) [
        | inl same ↦ (r, same ∙ found)
        | inr (s, before, after) ↦ (row_after t f s, after)
      ]

  last-HasEnded :
      (t : ℕ) (w : World) (out : Result Report × World)
      → HasRow w
      → One t w out
      → back ≤ w.commits
      → HasEnded code (go_on t out (λ v. ([], v)))
  last-HasEnded t w (ok report, v) row one h =
      ([], record { started = t; result = ok report }, refl, refl, ended-row t w v report row one.0)
  last-HasEnded t w (raise x, v) row one h = let down = one.1.1 in absurd (omega arith)

  next-HasEnded :
      (t left : ℕ) (w : World) (again : World → List Execution × World)
      (out : Result Report × World)
      → HasRow w
      → One t w out
      → back ≤ w.commits + suc left
      → ((v : World) → HasRow v → back ≤ v.commits + left → HasEnded code (again v))
      → HasEnded code (go_on t out again)
  next-HasEnded t left w again (ok report, v) row one h rest =
      ([], record { started = t; result = ok report }, refl, refl, ended-row t w v report row one.0)
  next-HasEnded t left w again (raise x, v) (r, found) one h rest =
      let first : Execution = record { started = t; result = raise x } in
      let kept = kept-row t w v x r found one.0 in
      let advanced = one.1.0 in
      let (earlier, last, whole, returned, row) = rest v kept (omega arith) in
      (first ∷ earlier, last, ap (λ (xs : List Execution). first ∷ xs) whole, returned, row)

  executions-HasEnded :
      (left made t : ℕ) (w : World)
      → HasRow w
      → back ≤ w.commits + left
      → HasEnded code (executions env wait meanwhile left made t fs w)
  unfolding executions
  executions-HasEnded zero made t w row h =
      last-HasEnded t w (execute env wait meanwhile t fs w) row (execute-One t w) (omega arith)
  executions-HasEnded (suc left) made t w row h =
      next-HasEnded t left w
        (λ v.
          executions env wait meanwhile left (suc made) (t + wait made) fs
            (deliver_all env (meanwhile made) v))
        (execute env wait meanwhile t fs w) row (execute-One t w) h
        (λ v kept few.
          let others = deliver_all env (meanwhile made) v in
          let on = deliver_all-le env back up takes (meanwhile made) v in
          let (u, found, e) = deliver_all-Evolves env (meanwhile made) v code kept.0 kept.1 in
          executions-HasEnded left (suc made) (t + wait made) others (u, found) (omega arith))

  -- When the database refuses statements and commits of the worker for no longer than five refusals and commits from now on, and Redis takes the robot states, a complete feedback that ends a task whose row is there is not lost: its last execution returns, and then the row has ended, whatever the waits and whatever other messages are processed in between.
  pub run_message-ends :
      (w : World) (t : TaskHistory)
      → get_by_robot_task_code (read_feedback env fs).robot_task_code w.db.tasks ≡ some t
      → back ≤ w.commits + max_retries
      → HasEnded (read_feedback env fs).robot_task_code (run_message env wait meanwhile fs w)
  unfolding run_message
  run_message-ends w t found h = executions-HasEnded max_retries 0 w.now w (t, found) h
