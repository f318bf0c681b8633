-- ===== src/Worker/Progress.antt =====
-- Deliveries from the queue, in any order and any number: how the rows evolve.
use mathlib.Core.Path.{subst}
use robo_control.Prelude.{
  ℕ, String, ◌≡◌, ◌⊎◌, inl, inr, refl, sym, ap, ◌∙◌, Bool, Option, none, some, List, [], ◌∷◌, arith,
  ltb, str_eq, Bool-cases, if◌then◌else◌,
}
use robo_control.Json.{Fields}
use robo_control.Errors.{Exn, Result, ok, raise}
use robo_control.Database.Tasks.{
  TaskHistory, Update, get_by_robot_task_code, update_status, matched_rows,
}
use robo_control.Prelude.{true, false, if-cases}
use robo_control.World.{Env, World, pure, write_unless, ◌>>◌}
use robo_control.World.Rules.{bind_rule, or_rollback_rule}
use robo_control.World.Session.{statement, commit}
use robo_control.World.Session.Laws.{commit-ok, commit-raise, statement-ok, statement-raise}
use robo_control.Worker.{
  Feedback, processed, target_status, feedback_update, with_update, write_update, apply_update,
  apply_or_skip, update_task_history, update_robot_state, cache_and_report, process_feedback,
  process_task_feedback,
}
use robo_control.Worker.{cache_state}
use robo_control.Redis.Keys.{robot_state_key}
use robo_control.Text.{is_empty}
use robo_control.Worker.Rows.{rows_with, rows_after, row_after, get-rows_after}

module _ (env : Env) where
  -- The committed tables after a call: changed as the feedback says, or, if it raises, perhaps as
  -- before.
  abbrev pub Applied : {A : Type 0} → Feedback → World → Result A × World → Type 0
  Applied f w (ok _, v) = v.db ≡ record w.db { tasks = rows_after w.now f w.db.tasks }
  Applied f w (raise _, v) =
      (v.db ≡ w.db) ⊎ (v.db ≡ record w.db { tasks = rows_after w.now f w.db.tasks })

  module _ (f : Feedback) (w : World) where
    abbrev Written : {A : Type 0} → Update → Result A × World → Type 0
    Written u (ok _, v) =
        v.db ≡ record w.db { tasks = update_status w.now f.robot_task_code u w.db.tasks }
    Written u (raise _, v) = v.db ≡ w.db

    write_update-Written : (u : Update) → Written u (write_update env f u (record w { tx = w.db }))
    unfolding write_update
    write_update-Written u =
        let rowcount = matched_rows f.robot_task_code w.db.tasks in
        let w₁ = with_update env f u (record w { tx = w.db }) in
        bind_rule (Written u) (statement env) (λ _. commit env >> pure (ltb 0 rowcount)) w₁
          (λ _ w₂ taken.
            let same = statement-ok env w₁ w₂ taken in
            bind_rule (Written u) (commit env) (λ _. pure (ltb 0 rowcount)) w₂
              (λ _ v done. rw (commit-ok env w₂ v done) (ap (λ (x : World). x.tx) same))
              (λ x v failed. rw (commit-raise env w₂ v x failed) (ap (λ (x : World). x.db) same)))
          (λ x v refused. ap (λ (x : World). x.db) (statement-raise env w₁ v x refused))

    apply_update-Written : (u : Update) → Written u (apply_update env f u (record w { tx = w.db }))
    unfolding apply_update
    apply_update-Written u =
        let written = write_update-Written u in
        or_rollback_rule (Written u) (write_update env f u) (record w { tx = w.db })
          (λ _ v e. subst (Written u) e written) (λ _ v e. subst (Written u) e written)

    Written→Applied :
        {A : Type 0} (u : Update) (out : Result A × World)
        → feedback_update w.now f w.db.tasks ≡ some u
        → Written u out
        → Applied f w out
    Written→Applied u (ok a, v) e h =
        h ∙ ap (λ o. record w.db { tasks = rows_with w.now f o w.db.tasks }) (sym e)
    Written→Applied u (raise x, v) e h = inl h

    apply_or_skip-Applied :
        (o : Option Update)
        → feedback_update w.now f w.db.tasks ≡ o
        → Applied f w (apply_or_skip env f o (record w { tx = w.db }))
    apply_or_skip-Applied none e =
        ap (λ o. record w.db { tasks = rows_with w.now f o w.db.tasks }) (sym e)
    apply_or_skip-Applied (some u) e = Written→Applied u _ e (apply_update-Written u)

    pub update_task_history-Applied : Applied f w (update_task_history env f w)
    unfolding update_task_history
    update_task_history-Applied =
        let clean = record w { tx = w.db } in
        bind_rule (Applied f w) (statement env)
          (λ _ v. apply_or_skip env f (feedback_update v.now f v.tx.tasks) v) clean
          (λ _ v taken.
            rw (statement-ok env clean v taken)
              (apply_or_skip-Applied (feedback_update w.now f w.db.tasks) refl))
          (λ x v refused. inl (ap (λ (x : World). x.db) (statement-raise env clean v x refused)))

  -- The cache write leaves the database alone, whether Redis takes it or not.
  pub update_robot_state-same :
      (o : Option String) (f : Feedback) (fs : Fields) (v : World)
      → let after = (update_robot_state env o fs (target_status f.method) v).1 in
        (after.db ≡ v.db) × (after.commits ≡ v.commits)
  unfolding update_robot_state
  update_robot_state-same none f fs v = (refl, refl)
  update_robot_state-same (some a) f fs v =
      if-cases (λ (out : Result Bool × World). (out.1.db ≡ v.db) × (out.1.commits ≡ v.commits))
        (is_empty a) (ok false, v)
        ((write_unless (env.redis_error v.now (robot_state_key a))
              (cache_state env a fs (target_status f.method))
            >> pure true)
          v)
        (λ _. (refl, refl)) (λ _. go (env.redis_error v.now (robot_state_key a)))
    where
      go :
          (refusal : Option String)
          → let after =
              ((write_unless refusal (cache_state env a fs (target_status f.method)) >> pure true)
                v).1 in
            (after.db ≡ v.db) × (after.commits ≡ v.commits)
      go none = (refl, refl)
      go (some reason) = (refl, refl)

  pub update_robot_state-db :
      (o : Option String) (f : Feedback) (fs : Fields) (v : World) (out : Result Bool × World)
      → update_robot_state env o fs (target_status f.method) v ≡ out
      → out.1.db ≡ v.db
  update_robot_state-db o f fs v out e =
      ap (λ (r : Result Bool × World). r.1.db) (sym e) ∙ (update_robot_state-same o f fs v).0

  -- It returns if Redis takes it.
  pub update_robot_state-returns :
      ((now : ℕ) (key : String) → env.redis_error now key ≡ none)
      → (o : Option String) (f : Feedback) (fs : Fields) (v v' : World) (x : Exn)
      → update_robot_state env o fs (target_status f.method) v ≡ (raise x, v')
      → ⊥
  unfolding update_robot_state
  update_robot_state-returns takes none f fs v v' x h = ground arith
  update_robot_state-returns takes (some a) f fs v v' x h =
      let taken = takes v.now (robot_state_key a) in ground arith

  pub process_feedback-Applied :
      (f : Feedback) (fs : Fields) (w : World) → Applied f w (process_feedback env f fs w)
  unfolding process_feedback
  process_feedback-Applied f fs w =
      let history = update_task_history-Applied f w in
      bind_rule (Applied f w) (update_task_history env f) (cache_and_report env f fs) w
        (λ b v e.
          let written : v.db ≡ record w.db { tasks = rows_after w.now f w.db.tasks } =
            subst (Applied f w) e history in
          bind_rule (Applied f w) (update_robot_state env f.amr_code fs (target_status f.method))
            (λ c. pure (processed b c)) v
            (λ c v' e'. update_robot_state-db f.amr_code f fs v _ e' ∙ written)
            (λ x v' e'. inr (update_robot_state-db f.amr_code f fs v _ e' ∙ written)))
        (λ x v e. subst (Applied f w) e history)

  -- One delivery at a time: what the worker leaves behind, whether it returns or raises.
  abbrev pub deliver : ℕ × Fields → World → World
  deliver (now, fs) w = (process_task_feedback env fs (record w { now = now })).1

  -- Any deliveries, one after another: repeated, late, or out of order.
  unfoldable pub deliver_all : List (ℕ × Fields) → World → World
  deliver_all [] w = w
  deliver_all (d ∷ ds) w = deliver_all ds (deliver d w)

  -- The row after a delivery is the row before it, or what the feedback makes of it.
  abbrev pub RowOutcome : ℕ → Feedback → Option TaskHistory → Option TaskHistory → Type 0
  RowOutcome now f before after =
      (after ≡ before)
      ⊎ ((t : TaskHistory) × (before ≡ some t) × (after ≡ some (row_after now f t)))

  committed-row :
      (f : Feedback) (w v : World) (code : String)
      → v.db ≡ record w.db { tasks = rows_after w.now f w.db.tasks }
      → RowOutcome w.now f
          (get_by_robot_task_code code w.db.tasks)
          (get_by_robot_task_code code v.db.tasks)
  committed-row f w v code h =
      rw (h, get-rows_after w.now f code w.db.tasks)
        (split (get_by_robot_task_code code w.db.tasks))
    where
      split :
          (o : Option TaskHistory)
          → RowOutcome w.now f o (elim o [
            | none ↦ none
            | some t ↦ some (if str_eq f.robot_task_code code then row_after w.now f t else t)
          ])
      split none = inl refl
      split (some t) = elim (Bool-cases (str_eq f.robot_task_code code)) [
        | inl same ↦ inr (t, refl, rw same)
        | inr other ↦ inl (rw other)
      ]

  pub Applied-row :
      {A : Type 0} (f : Feedback) (w : World) (out : Result A × World) (code : String)
      → Applied f w out
      → RowOutcome w.now f
          (get_by_robot_task_code code w.db.tasks)
          (get_by_robot_task_code code out.1.db.tasks)
  Applied-row f w (ok a, v) code h = committed-row f w v code h
  Applied-row f w (raise x, v) code (inl h) = inl (rw h)
  Applied-row f w (raise x, v) code (inr h) = committed-row f w v code h
