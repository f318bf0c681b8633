-- ===== src/Worker/Repeat.antt =====
-- At-least-once delivery: a feedback that is processed again changes nothing but `updated_at`.
use mathlib.Core.Path.{subst}
use robo_control.Prelude.{
  ℕ, String, ◌≡◌, inl, inr, refl, ap, ◌||◌, some, arith, str_eq, if◌then◌else◌, Bool-cases,
}
use robo_control.Text.{is_empty}
use robo_control.Json.{Fields}
use robo_control.Errors.{Result, ok, raise}
use robo_control.Database.Tasks.{TaskHistory, get_by_robot_task_code}
use robo_control.World.{Env, World}
use robo_control.Worker.{
  Feedback, Report, missing_fields, update_for, read_feedback, process_feedback,
  process_task_feedback,
}
use robo_control.Worker.Rows.{row_after, rows_after, get-rows_after}
use robo_control.Worker.Progress.{Applied, process_feedback-Applied, deliver}

-- A row without its time of last update.
abbrev pub sans_update_time : TaskHistory → TaskHistory
sans_update_time t = record t { updated_at = 0 }

-- A second application at any time gives the same row.
row_after-row_after :
    (now later : ℕ) (f : Feedback) (t : TaskHistory)
    → sans_update_time (row_after later f (row_after now f t))
      ≡ sans_update_time (row_after now f t)
unfolding update_for
row_after-row_after now later f t = ground arith

module _ (env : Env) (code : String) where
  abbrev Row : World → TaskHistory → Type 0
  Row w t = get_by_robot_task_code code w.db.tasks ≡ some t

  -- The row under the code when the feedback has been applied.
  abbrev applied_to : ℕ → Feedback → TaskHistory → TaskHistory
  applied_to now f t = if str_eq f.robot_task_code code then row_after now f t else t

  Row-of_ok :
      (f : Feedback) (w v : World) (t : TaskHistory)
      → Row w t
      → v.db ≡ record w.db { tasks = rows_after w.now f w.db.tasks }
      → Row v (applied_to w.now f t)
  Row-of_ok f w v t found h = rw (h, get-rows_after w.now f code w.db.tasks, found)

  -- The second application, where it is committed.
  Row-committed :
      (now : ℕ) (f : Feedback) (w v : World) (t : TaskHistory)
      → Row w (applied_to now f t)
      → v.db ≡ record w.db { tasks = rows_after w.now f w.db.tasks }
      → (u : TaskHistory) × Row v u × (sans_update_time u ≡ sans_update_time (applied_to now f t))
  Row-committed now f w v t found h =
      (applied_to w.now f (applied_to now f t), Row-of_ok f w v _ found h, same)
    where
      same :
          sans_update_time (applied_to w.now f (applied_to now f t))
          ≡ sans_update_time (applied_to now f t)
      same = elim (Bool-cases (str_eq f.robot_task_code code)) [
        | inl mine ↦ rw mine (row_after-row_after now w.now f t)
        | inr other ↦ rw other refl
      ]

  -- The second application, whether it returns or raises.
  Row-again :
      {A : Type 0} (now : ℕ) (f : Feedback) (w : World) (out : Result A × World) (t : TaskHistory)
      → Row w (applied_to now f t)
      → Applied env f w out
      → (v : TaskHistory) × Row out.1 v
        × (sans_update_time v ≡ sans_update_time (applied_to now f t))
  Row-again now f w (ok a, v) t found h = Row-committed now f w v t found h
  Row-again now f w (raise x, v) t found (inl h) = (applied_to now f t, rw h found, refl)
  Row-again now f w (raise x, v) t found (inr h) = Row-committed now f w v t found h

  process_feedback_again :
      (f : Feedback) (fs : Fields) (w w' : World) (later : ℕ) (r : Report) (t : TaskHistory)
      → Row w t
      → process_feedback env f fs w ≡ (ok r, w')
      → (u v : TaskHistory) × Row w' u
        × Row (process_feedback env f fs (record w' { now = later })).1 v
        × (sans_update_time v ≡ sans_update_time u)
  process_feedback_again f fs w w' later r t found done =
      let first = subst (Applied env f w) done (process_feedback-Applied env f fs w) in
      let row = Row-of_ok f w w' t found first in
      let (v, found_v, same) =
        Row-again w.now f (record w' { now = later })
          (process_feedback env f fs (record w' { now = later })) t row
          (process_feedback-Applied env f fs (record w' { now = later })) in
      (applied_to w.now f t, v, row, found_v, same)

  -- A feedback that was processed and is delivered again, at any later time: each task's row is as
  -- after the first time but for `updated_at`, whether the second processing returns or raises.
  pub process_task_feedback_again :
      (fs : Fields) (w w' : World) (later : ℕ) (r : Report) (t : TaskHistory)
      → Row w t
      → process_task_feedback env fs w ≡ (ok r, w')
      → (u v : TaskHistory) × Row w' u
        × Row (deliver env (later, fs) w') v
        × (sans_update_time v ≡ sans_update_time u)
  unfolding process_task_feedback
  process_task_feedback_again fs w w' later r t found done =
      let f = read_feedback env fs in
      elim (Bool-cases (is_empty f.robot_task_code || is_empty f.method)) [
        | inl missing ↦
            let same : (ok missing_fields, w) ≡ (ok r, w') = rw missing at done in
            let same_world : w ≡ w' = ap (λ (x : Result Report × World). x.1) same in
            (t, t, rw (← same_world) found, rw (missing, deliver) (rw (← same_world) found), refl)
        | inr complete ↦
            rw (complete, deliver)
              (process_feedback_again f fs w w' later r t found (rw complete at done))
      ]
