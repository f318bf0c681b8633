-- ===== src/Worker/Rows.antt =====
-- What one feedback does to a row.
use robo_control.Prelude.{
  ℕ, ◌≤◌, String, ◌≡◌, ◌⊎◌, inl, inr, Bool, true, false, not, Option, none, some, List, arith,
  Option-cases, str_eq, eq_iff, is_none, if◌then◌else◌,
}
use robo_control.Database.Tasks.{
  TaskStatus, pending, running, completed, failed, cancelled, TaskHistory, Update, updated,
  get_by_robot_task_code, update_status,
}
use robo_control.Database.Tasks.Rows.{get-update_status}
use robo_control.Worker.{target_status, is_terminal, Feedback, update_for, feedback_update}

-- How far a task has come.
abbrev pub rank : TaskStatus → ℕ
rank pending = 0
rank running = 1
rank completed = 2
rank failed = 2
rank cancelled = 2

-- The row's end time is there exactly if the task has ended.
abbrev pub is_consistent : TaskHistory → Bool
is_consistent t = if is_terminal t.status then not (is_none t.end_time) else is_none t.end_time

target_status-rank : (method : String) → 1 ≤ rank (target_status method)
unfolding target_status
target_status-rank method = ground arith

-- The table after an update, if there is one.
abbrev pub rows_with : ℕ → Feedback → Option Update → List TaskHistory → List TaskHistory
rows_with now f none ts = ts
rows_with now f (some u) ts = update_status now f.robot_task_code u ts

-- The table after a feedback.
abbrev pub rows_after : ℕ → Feedback → List TaskHistory → List TaskHistory
rows_after now f ts = rows_with now f (feedback_update now f ts) ts

-- The row after a feedback: a terminal row, and any row of another task, is as before.
abbrev pub row_after : ℕ → Feedback → TaskHistory → TaskHistory
row_after now f t = if is_terminal t.status then t else updated now (update_for now f t) t

-- What is found under a code after a feedback.
pub get-rows_after :
    (now : ℕ) (f : Feedback) (j : String) (ts : List TaskHistory)
    → get_by_robot_task_code j (rows_after now f ts) ≡ elim (get_by_robot_task_code j ts) [
      | none ↦ none
      | some t ↦ some (if str_eq f.robot_task_code j then row_after now f t else t)
    ]
unfolding feedback_update
get-rows_after now f j ts =
    let code = f.robot_task_code in
    elim (Option-cases (get_by_robot_task_code code ts)) [
      | inl missing ↦ ground (arith, eq_iff code j)
      | inr (t, found) ↦
          ground (arith, eq_iff code j, get-update_status now code j (update_for now f t) ts)
    ]

pub row_after-rank :
    (now : ℕ) (f : Feedback) (t : TaskHistory) → rank t.status ≤ rank (row_after now f t).status
unfolding update_for
row_after-rank now f t = ground (arith, target_status-rank f.method)

pub row_after-is_consistent :
    (now : ℕ) (f : Feedback) (t : TaskHistory)
    → (is_consistent t ≡ false) ⊎ (is_consistent (row_after now f t) ≡ true)
unfolding update_for
row_after-is_consistent now f t = ground arith
