-- ===== src/Worker/History.antt =====
-- The life of a task row under any deliveries.
use mathlib.Core.Path.{subst}
use robo_control.Prelude.{
  ℕ, ◌≤◌, String, ◌≡◌, ◌⊎◌, inl, inr, refl, sym, ◌∙◌, true, false, ◌||◌, none, some, List, [], ◌∷◌,
  arith, if-cases, Bool-cases,
}
use robo_control.Text.{is_empty}
use robo_control.Json.{Fields}
use robo_control.Errors.{Result}
use robo_control.Database.Tasks.{TaskHistory, get_by_robot_task_code}
use robo_control.World.{Env, World, pure}
use robo_control.Worker.{
  Feedback, Report, missing_fields, is_terminal, update_for, read_feedback, process_feedback,
  process_task_feedback,
}
use robo_control.Worker.Rows.{
  rank, is_consistent, row_after, row_after-rank, row_after-is_consistent,
}
use robo_control.Worker.Progress.{
  Applied, Applied-row, process_feedback-Applied, deliver, deliver_all,
}

-- What never changes about a row, and the ways in which the rest may change.
pub record Evolves (t u : TaskHistory) : Type 0 where
  -- the status does not go back: pending, running, ended
  pub ranked : rank t.status ≤ rank u.status
  -- an ended task keeps its whole row
  pub final : (is_terminal t.status ≡ false) ⊎ (u ≡ t)
  -- a start time is set once
  pub started : (t.start_time ≡ none) ⊎ (u.start_time ≡ t.start_time)
  -- the end time is there exactly for an ended task, if it was so before
  pub consistent : (is_consistent t ≡ false) ⊎ (is_consistent u ≡ true)
  -- the identity and the route of the task
  pub same_code : u.robot_task_code ≡ t.robot_task_code
  pub same_source : u.source_code ≡ t.source_code
  pub same_target : u.target_code ≡ t.target_code
  pub same_key : u.idempotency_key ≡ t.idempotency_key

Evolves-refl : (t : TaskHistory) → Evolves t t
Evolves-refl t = record {
  ranked = omega arith;
  final = inr refl;
  started = inr refl;
  consistent = elim (Bool-cases (is_consistent t)) [ inl h ↦ inr h | inr h ↦ inl h ];
  same_code = refl;
  same_source = refl;
  same_target = refl;
  same_key = refl;
}

Evolves-trans : (t u v : TaskHistory) → Evolves t u → Evolves u v → Evolves t v
Evolves-trans t u v e f = record {
  ranked = omega (arith, e.ranked, f.ranked);
  final = elim e.final [
    | inl live ↦ inl live
    | inr same ↦ elim f.final [
      | inl live ↦ inl (subst (λ x. is_terminal x.status ≡ false) same live)
      | inr same' ↦ inr (same' ∙ same)
    ]
  ];
  started = ground (arith, e.started, f.started);
  consistent = ground (arith, e.consistent, f.consistent);
  same_code = f.same_code ∙ e.same_code;
  same_source = f.same_source ∙ e.same_source;
  same_target = f.same_target ∙ e.same_target;
  same_key = f.same_key ∙ e.same_key;
}

row_after-Evolves : (now : ℕ) (f : Feedback) (t : TaskHistory) → Evolves t (row_after now f t)
unfolding update_for
row_after-Evolves now f t = record {
  ranked = row_after-rank now f t;
  final = ground arith;
  started = ground arith;
  consistent = row_after-is_consistent now f t;
  same_code = ground arith;
  same_source = ground arith;
  same_target = ground arith;
  same_key = ground arith;
}

module _ (env : Env) where
  -- The row of a code evolved.
  abbrev Kept : String → TaskHistory → World → Type 0
  Kept code t v =
      (u : TaskHistory) × (get_by_robot_task_code code v.db.tasks ≡ some u) × Evolves t u

  Kept-of_outcome :
      {A : Type 0} (code : String) (f : Feedback) (w : World) (out : Result A × World)
      (t : TaskHistory)
      → get_by_robot_task_code code w.db.tasks ≡ some t
      → Applied env f w out
      → Kept code t out.1
  Kept-of_outcome code f w out t found h = elim (Applied-row env f w out code h) [
    | inl same ↦ (t, same ∙ found, Evolves-refl t)
    | inr (s, before, after) ↦
        let is_t : s ≡ t = cc (sym before ∙ found) in
        (row_after w.now f t, rw (← is_t) after, row_after-Evolves w.now f t)
  ]

  process-Kept :
      (code : String) (fs : Fields) (w : World) (t : TaskHistory)
      → get_by_robot_task_code code w.db.tasks ≡ some t
      → Kept code t (process_task_feedback env fs w).1
  unfolding process_task_feedback
  process-Kept code fs w t found =
      let f = read_feedback env fs in
      if-cases (λ (m : World → Result Report × World). Kept code t (m w).1)
        (is_empty f.robot_task_code || is_empty f.method) (pure missing_fields)
        (process_feedback env f fs) (λ _. (t, found, Evolves-refl t))
        (λ _. Kept-of_outcome code f w _ t found (process_feedback-Applied env f fs w))

  -- Whatever feedbacks the queue delivers, in any order, at any times and any number of times, and
  -- whether their processing returns or raises, a task's row is still there and has evolved: its
  -- status has not gone back, an ended task's row is as it was, a start time has been kept, and an
  -- end time is there exactly if the task has ended, if that held before.
  pub deliver_all-Evolves :
      (ds : List (ℕ × Fields)) (w : World) (code : String) (t : TaskHistory)
      → get_by_robot_task_code code w.db.tasks ≡ some t
      → (u : TaskHistory) × (get_by_robot_task_code code (deliver_all env ds w).db.tasks ≡ some u)
        × Evolves t u
  unfolding deliver_all
  deliver_all-Evolves [] w code t found = (t, found, Evolves-refl t)
  deliver_all-Evolves ((now, fs) ∷ ds) w code t found =
      let (u, found_u, e) = process-Kept code fs (record w { now = now }) t found in
      let (v, found_v, e') = deliver_all-Evolves ds (deliver env (now, fs) w) code u found_u in
      (v, found_v, Evolves-trans t u v e e')
