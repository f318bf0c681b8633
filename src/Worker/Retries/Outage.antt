-- ===== src/Worker/Retries/Outage.antt =====
-- A database that fails for a while: no feedback is lost as long as it is back before the retries
-- are used up.
use mathlib.Core.Path.{subst}
use robo_control.Prelude.{
  ℕ, ◌≤◌, ◌<◌, ◌≡◌, inl, inr, sym, ap, ◌∙◌, String, Bool, ◌||◌, Option, none, some, List, [], ◌∷◌,
  arith, ltb, leb, leb→le, Bool-cases, if-cases,
}
use robo_control.Text.{is_empty}
use robo_control.Json.{Fields}
use robo_control.Errors.{Exn, Result, ok, raise}
use robo_control.Database.{Db}
use robo_control.Database.Tasks.{Update, matched_rows}
use robo_control.World.{Env, World, pure, ◌>>◌}
use robo_control.World.Rules.{bind_rule, or_rollback_rule}
use robo_control.World.Session.{statement, commit}
use robo_control.World.Session.Laws.{
  commit-ok, commit-raise, commit-fine, statement-ok, statement-raise, statement-fine,
}
use robo_control.Worker.{
  Feedback, Report, target_status, feedback_update, with_update, write_update, apply_update,
  apply_or_skip, update_task_history, update_robot_state, cache_and_report, read_feedback,
  process_feedback, process_task_feedback, processed, missing_fields,
}
use robo_control.Worker.Progress.{
  deliver, deliver_all, update_robot_state-same, update_robot_state-returns,
}

module _ (env : Env) (back : ℕ)
    (up : (n : ℕ) (d : Db)
      → back ≤ n
      → (env.commit_error n d ≡ none) × (env.statement_error n d ≡ none))
    (takes : (now : ℕ) (key : String) → env.redis_error now key ≡ none) where
  -- No commit is undone, and what raises has met a refusal while the database was down.
  abbrev pub Advances : {A : Type 0} → World → Result A × World → Type 0
  Advances w (ok _, v) = w.commits ≤ v.commits
  Advances w (raise _, v) = (w.commits < v.commits) × (w.commits < back)

  abbrev Returns : {A : Type 0} → Result A × World → Type 0
  Returns (ok _, _) = Unit
  Returns (raise _, _) = ⊥

  commit-down : (w v : World) (x : Exn) → commit env w ≡ (raise x, v) → w.commits < back
  commit-down w v x h = elim (Bool-cases (leb back w.commits)) [
    | inl e ↦
        let returns = commit-fine env w (up w.commits w.tx (leb→le back w.commits e)).0 in
        absurd (subst Returns (sym returns ∙ h) tt)
    | inr e ↦ ground arith
  ]

  commit-Advances :
      (w v : World) (x : Exn) → commit env w ≡ (raise x, v) → Advances {A = Unit {0}} w (raise x, v)
  commit-Advances w v x h =
      let counted = ap (λ (u : World). u.commits) (commit-raise env w v x h) in
      (omega arith, commit-down w v x h)

  statement-down : (w v : World) (x : Exn) → statement env w ≡ (raise x, v) → w.commits < back
  statement-down w v x h = elim (Bool-cases (leb back w.commits)) [
    | inl e ↦
        let returns = statement-fine env w (up w.commits w.tx (leb→le back w.commits e)).1 in
        absurd (subst Returns (sym returns ∙ h) tt)
    | inr e ↦ ground arith
  ]

  statement-Advances :
      (w v : World) (x : Exn)
      → statement env w ≡ (raise x, v)
      → Advances {A = Unit {0}} w (raise x, v)
  statement-Advances w v x h =
      let counted = ap (λ (u : World). u.commits) (statement-raise env w v x h) in
      (omega arith, statement-down w v x h)

  write_update-Advances :
      (f : Feedback) (u : Update) (w : World) → Advances w (write_update env f u w)
  unfolding write_update
  write_update-Advances f u w =
      let rowcount = matched_rows f.robot_task_code w.tx.tasks in
      let w₁ = with_update env f u w in
      bind_rule (Advances w) (statement env) (λ _. commit env >> pure (ltb 0 rowcount)) w₁
        (λ _ w₂ taken.
          let same = ap (λ (x : World). x.commits) (statement-ok env w₁ w₂ taken) in
          bind_rule (Advances w) (commit env) (λ _. pure (ltb 0 rowcount)) w₂
            (λ _ v e.
              let counted = ap (λ (x : World). x.commits) (commit-ok env w₂ v e) in omega arith)
            (λ x v e. let (more, down) = commit-Advances w₂ v x e in (omega arith, omega arith)))
        (λ x v e. statement-Advances w₁ v x e)

  apply_or_skip-Advances :
      (f : Feedback) (o : Option Update) (w : World) → Advances w (apply_or_skip env f o w)
  unfolding apply_update
  apply_or_skip-Advances f none w = omega arith
  apply_or_skip-Advances f (some u) w =
      or_rollback_rule (Advances w) (write_update env f u) w
        (λ a v e. subst (Advances w) e (write_update-Advances f u w))
        (λ x v e. subst (Advances w) e (write_update-Advances f u w))

  update_task_history-Advances :
      (f : Feedback) (w : World) → Advances w (update_task_history env f w)
  unfolding update_task_history
  update_task_history-Advances f w =
      let clean = record w { tx = w.db } in
      bind_rule (Advances w) (statement env)
        (λ _ v. apply_or_skip env f (feedback_update v.now f v.tx.tasks) v) clean
        (λ _ v taken.
          rw (statement-ok env clean v taken)
            (apply_or_skip-Advances f (feedback_update w.now f w.db.tasks) clean))
        (λ x v e. statement-Advances clean v x e)

  pub process_feedback-Advances :
      (f : Feedback) (fs : Fields) (w : World) → Advances w (process_feedback env f fs w)
  unfolding process_feedback
  process_feedback-Advances f fs w =
      let history = update_task_history-Advances f w in
      bind_rule (Advances w) (update_task_history env f) (cache_and_report env f fs) w
        (λ b v e.
          let written : w.commits ≤ v.commits = subst (Advances w) e history in
          bind_rule (Advances w) (update_robot_state env f.amr_code fs (target_status f.method))
            (λ c. pure (processed b c)) v
            (λ c v' e'.
              let same = ap (λ (r : Result Bool × World). r.1.commits) e' in
              let kept = (update_robot_state-same env f.amr_code f fs v).1 in omega arith)
            (λ x v' e'. absurd (update_robot_state-returns env takes f.amr_code f fs v v' x e')))
        (λ x v e. subst (Advances w) e history)

  pub process-Advances : (fs : Fields) (w : World) → Advances w (process_task_feedback env fs w)
  unfolding process_task_feedback
  process-Advances fs w =
      let f = read_feedback env fs in
      if-cases (λ (m : World → Result Report × World). Advances w (m w))
        (is_empty f.robot_task_code || is_empty f.method) (pure missing_fields)
        (process_feedback env f fs) (λ _. omega arith) (λ _. process_feedback-Advances f fs w)

  Advances→le :
      {A : Type 0} (w : World) (out : Result A × World) → Advances w out → w.commits ≤ out.1.commits
  Advances→le w (ok a, v) h = h
  Advances→le w (raise x, v) h = omega (arith, h.0)

  pub deliver_all-le :
      (ds : List (ℕ × Fields)) (w : World) → w.commits ≤ (deliver_all env ds w).commits
  unfolding deliver_all
  deliver_all-le [] w = omega arith
  deliver_all-le ((now, fs) ∷ ds) w =
      let one =
        Advances→le (record w { now = now }) (process_task_feedback env fs (record w { now = now }))
          (process-Advances fs (record w { now = now })) in
      let rest = deliver_all-le ds (deliver env (now, fs) w) in omega arith
