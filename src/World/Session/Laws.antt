-- ===== src/World/Session/Laws.antt =====
-- What the session's calls have done when they return and when they raise.
use robo_control.Prelude.{
  none, some, inl, inr, String, Option-cases, suc, ◌≡◌, refl, true, false, [], ◌∷◌, ◌++◌, arith,
}
use robo_control.Errors.{Exn, ok, raise, builtin, integrity_error}
use robo_control.World.{Env, World}
use robo_control.Database.Tasks.{TaskHistory, violates_unique}
use robo_control.World.Session.{flush_task, statement, commit}

module _ (env : Env) where
  pub flush_task-ok :
      (t : TaskHistory) (w w' : World)
      → flush_task env t w ≡ (ok tt, w')
      → (violates_unique t w.tx.tasks ≡ false)
        × (w' ≡ record w { tx = record w.tx { tasks = w.tx.tasks ++ t ∷ [] } })
  unfolding flush_task
  flush_task-ok t w w' h = ground arith

  pub flush_task-raise :
      (t : TaskHistory) (w w' : World) (e : Exn) → flush_task env t w ≡ (raise e, w') → w' ≡ w
  unfolding flush_task
  flush_task-raise t w w' e h = ground arith

  pub flush_task-duplicate :
      (t : TaskHistory) (w : World)
      → violates_unique t w.tx.tasks ≡ true
      → flush_task env t w ≡ (raise (builtin integrity_error "Duplicate entry"), w)
  unfolding flush_task
  flush_task-duplicate t w h = rw h refl

  pub commit-ok :
      (w w' : World)
      → commit env w ≡ (ok tt, w')
      → w' ≡ record w { commits = suc w.commits; db = w.tx }
  unfolding commit
  commit-ok w w' h = ground arith

  pub commit-raise :
      (w w' : World) (e : Exn)
      → commit env w ≡ (raise e, w')
      → w' ≡ record w { commits = suc w.commits }
  unfolding commit
  commit-raise w w' e h = ground arith

  pub commit-fine :
      (w : World)
      → env.commit_error w.commits w.tx ≡ none
      → commit env w ≡ (ok tt, record w { commits = suc w.commits; db = w.tx })
  unfolding commit
  commit-fine w h = rw (commit, h) refl

  -- A commit raises only if the database refuses it.
  pub commit-refused :
      (w w' : World) (e : Exn)
      → commit env w ≡ (raise e, w')
      → (reason : String) × (env.commit_error w.commits w.tx ≡ some reason)
  commit-refused w w' e h = elim (Option-cases (env.commit_error w.commits w.tx)) [
    | inl fine ↦ let returns = commit-fine w fine in absurd cc
    | inr refused ↦ refused
  ]

  pub statement-ok : (w w' : World) → statement env w ≡ (ok tt, w') → w' ≡ w
  unfolding statement
  statement-ok w w' h = ground arith

  pub statement-raise :
      (w w' : World) (e : Exn)
      → statement env w ≡ (raise e, w')
      → w' ≡ record w { commits = suc w.commits }
  unfolding statement
  statement-raise w w' e h = ground arith

  pub statement-fine :
      (w : World) → env.statement_error w.commits w.tx ≡ none → statement env w ≡ (ok tt, w)
  unfolding statement
  statement-fine w h = rw (statement, h) refl
