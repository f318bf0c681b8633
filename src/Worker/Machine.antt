-- ===== src/Worker/Machine.antt =====
-- The worker on its table refines the automaton of a task, as long as the database commits.
use mathlib.Core.Path.{subst}
use robo_control.Prelude.{
  ℕ, String, ◌≡◌, inl, inr, refl, sym, ap, ◌∙◌, Bool, false, ◌||◌, ◌&&◌, not, Option, none, some,
  List, [], ◌∷◌, str_eq, ltb, if◌then◌else◌, Bool-cases,
}
use robo_control.Text.{is_empty}
use robo_control.Json.{Fields}
use robo_control.Errors.{Exn, Result, ok, raise}
use robo_control.Database.{Db}
use robo_control.Database.Tasks.{
  TaskStatus, TaskHistory, Update, get_by_robot_task_code, matched_rows,
}
use robo_control.World.{Env, World, pure, ◌>>◌}
use robo_control.World.Rules.{bind_rule, or_rollback_rule}
use robo_control.World.Session.{statement, commit}
use robo_control.World.Session.Laws.{commit-fine, statement-fine}
use robo_control.Worker.{
  Feedback, is_terminal, target_status, feedback_update, with_update, write_update, apply_update,
  apply_or_skip, update_task_history, update_robot_state, cache_and_report, read_feedback,
  process_feedback, process_task_feedback, processed,
}
use robo_control.Worker.Rows.{row_after, rows_after, get-rows_after}
use robo_control.Worker.Progress.{
  Applied, update_task_history-Applied, deliver, deliver_all, update_robot_state-db,
}
use robo_control.Worker.Automaton.{
  outcome, step, run, first_ending, row_after-step, run_if, run-first_ending,
}

module _ (env : Env) where
  -- The feedback is complete, and it is for this task.
  abbrev pub is_for : String → Feedback → Bool
  is_for code f =
      not (is_empty f.robot_task_code || is_empty f.method) && str_eq f.robot_task_code code

  -- The events of a task among the deliveries.
  unfoldable pub events : String → List (ℕ × Fields) → List String
  events code [] = []
  events code ((now, fs) ∷ ds) =
      let f = read_feedback env fs in
      if is_for code f then f.method ∷ events code ds else events code ds

  module _
      (commits : (n : ℕ) (d : Db)
        → (env.commit_error n d ≡ none) × (env.statement_error n d ≡ none)) where
    abbrev Returns : {A : Type 0} → Result A × World → Type 0
    Returns (ok _, _) = Unit
    Returns (raise _, _) = ⊥

    commit-Returns : (w : World) (x : Exn) (v : World) → commit env w ≡ (raise x, v) → ⊥
    commit-Returns w x v h =
        let returns = commit-fine env w (commits w.commits w.tx).0 in
        subst Returns (sym returns ∙ h) tt

    statement-Returns : (w : World) (x : Exn) (v : World) → statement env w ≡ (raise x, v) → ⊥
    statement-Returns w x v h =
        let returns = statement-fine env w (commits w.commits w.tx).1 in
        subst Returns (sym returns ∙ h) tt

    write_update-Returns :
        (f : Feedback) (u : Update) (w : World) → Returns (write_update env f u w)
    unfolding write_update
    write_update-Returns f u w =
        let rowcount = matched_rows f.robot_task_code w.tx.tasks in
        bind_rule Returns (statement env) (λ _. commit env >> pure (ltb 0 rowcount))
          (with_update env f u w)
          (λ _ v taken.
            bind_rule Returns (commit env) (λ _. pure (ltb 0 rowcount)) v (λ _ v' e. tt)
              (λ x v' e. commit-Returns v x v' e))
          (λ x v e. statement-Returns (with_update env f u w) x v e)

    apply_or_skip-Returns :
        (f : Feedback) (o : Option Update) (w : World) → Returns (apply_or_skip env f o w)
    unfolding apply_update
    apply_or_skip-Returns f none w = tt
    apply_or_skip-Returns f (some u) w =
        or_rollback_rule Returns (write_update env f u) w (λ _ v e. tt)
          (λ x v e. subst Returns e (write_update-Returns f u w))

    update_task_history-Returns : (f : Feedback) (w : World) → Returns (update_task_history env f w)
    unfolding update_task_history
    update_task_history-Returns f w =
        bind_rule Returns (statement env)
          (λ _ v. apply_or_skip env f (feedback_update v.now f v.tx.tasks) v)
          (record w { tx = w.db })
          (λ _ v taken. apply_or_skip-Returns f (feedback_update v.now f v.tx.tasks) v)
          (λ x v e. statement-Returns (record w { tx = w.db }) x v e)

    -- The tables that are committed are changed as the feedback says, also if Redis refuses the state.
    abbrev Committed : {A : Type 0} → Feedback → World → Result A × World → Type 0
    Committed f w out = out.1.db ≡ record w.db { tasks = rows_after w.now f w.db.tasks }

    process_feedback-Committed :
        (f : Feedback) (fs : Fields) (w : World) → Committed f w (process_feedback env f fs w)
    unfolding process_feedback
    process_feedback-Committed f fs w =
        bind_rule (Committed f w) (update_task_history env f) (cache_and_report env f fs) w
          (λ b v e.
            let written : v.db ≡ record w.db { tasks = rows_after w.now f w.db.tasks } =
              subst (Applied env f w) e (update_task_history-Applied env f w) in
            bind_rule (Committed f w)
              (update_robot_state env f.amr_code fs (target_status f.method))
              (λ c. pure (processed b c)) v
              (λ c v' e'. update_robot_state-db env f.amr_code f fs v _ e' ∙ written)
              (λ x v' e'. update_robot_state-db env f.amr_code f fs v _ e' ∙ written))
          (λ x v e. absurd (subst Returns e (update_task_history-Returns f w)))

    abbrev pub HasStatus : String → World → TaskStatus → Type 0
    HasStatus code w s =
        (t : TaskHistory) × (get_by_robot_task_code code w.db.tasks ≡ some t) × (t.status ≡ s)

    get-Committed :
        {A : Type 0} (code : String) (f : Feedback) (w : World) (out : Result A × World)
        (t : TaskHistory)
        → get_by_robot_task_code code w.db.tasks ≡ some t
        → Committed f w out
        → get_by_robot_task_code code out.1.db.tasks
          ≡ some (if str_eq f.robot_task_code code then row_after w.now f t else t)
    get-Committed code f w out t found h =
        rw (h, get-rows_after w.now f code w.db.tasks, found) refl

    -- One delivery is one event of the task, or none.
    abbrev status_after : String → Fields → TaskStatus → TaskStatus
    status_after code fs s =
        let f = read_feedback env fs in if is_for code f then step s f.method else s

    process_feedback-row :
        (code : String) (f : Feedback) (fs : Fields) (w : World) (t : TaskHistory)
        → get_by_robot_task_code code w.db.tasks ≡ some t
        → HasStatus code
            (process_feedback env f fs w).1
            (if str_eq f.robot_task_code code then step t.status f.method else t.status)
    process_feedback-row code f fs w t found =
        let row =
          get-Committed code f w (process_feedback env f fs w) t found
            (process_feedback-Committed f fs w) in
        elim (Bool-cases (str_eq f.robot_task_code code)) [
          | inl e ↦ (row_after w.now f t, rw (row, e) refl, rw (e, row_after-step w.now f t) refl)
          | inr e ↦ (t, rw (row, e) refl, rw e refl)
        ]

    deliver-HasStatus :
        (code : String) (now : ℕ) (fs : Fields) (w : World) (t : TaskHistory)
        → get_by_robot_task_code code w.db.tasks ≡ some t
        → HasStatus code (deliver env (now, fs) w) (status_after code fs t.status)
    unfolding process_task_feedback
    deliver-HasStatus code now fs w t found =
        let f = read_feedback env fs in
        elim (Bool-cases (is_empty f.robot_task_code || is_empty f.method)) [
          | inl e ↦ (t, rw (deliver, process_task_feedback, e) found, rw e refl)
          | inr e ↦
              rw (deliver, process_task_feedback, e)
                (process_feedback-row code f fs (record w { now = now }) t found)
        ]

    -- When the database takes every statement of the worker and every commit, the row of a task that is there stays there through any deliveries, and its status is the one the automaton reaches from the old status on the methods of the feedbacks that are complete and name the task, in their order.
    pub deliver_all-run :
        (ds : List (ℕ × Fields)) (code : String) (w : World) (t : TaskHistory)
        → get_by_robot_task_code code w.db.tasks ≡ some t
        → HasStatus code (deliver_all env ds w) (run t.status (events code ds))
    unfolding deliver_all run events
    deliver_all-run [] code w t found = (t, found, refl)
    deliver_all-run ((now, fs) ∷ ds) code w t found =
        let f = read_feedback env fs in
        let (u, found', status) = deliver-HasStatus code now fs w t found in
        let (v, found'', reached) = deliver_all-run ds code (deliver env (now, fs) w) u found' in
        let s = ap (λ s. run s (events code ds)) status in
        (v, found'', reached ∙ s ∙ run_if (is_for code f) t.status f.method (events code ds))

    -- When the database takes every statement of the worker and every commit, a pending or running task reaches the status of the first of its complete feedbacks whose method is neither start nor outbin, and keeps it, whatever else is delivered before or after.
    pub deliver_all-ends :
        (ds : List (ℕ × Fields)) (code method : String) (w : World) (t : TaskHistory)
        → get_by_robot_task_code code w.db.tasks ≡ some t
        → is_terminal t.status ≡ false
        → first_ending (events code ds) ≡ some method
        → HasStatus code (deliver_all env ds w) (outcome method)
    deliver_all-ends ds code method w t found live ending =
        let (u, found', reached) = deliver_all-run ds code w t found in
        (u, found', reached ∙ run-first_ending t.status (events code ds) method live ending)
