-- ===== src/World/Session.antt =====
-- The session's calls: flush of a new row, commit, rollback.
pub mod Laws
use robo_control.Prelude.{
  ℕ, suc, ◌+◌, String, Bool, true, false, Option, none, some, List, [], ◌∷◌, ◌++◌, if◌then◌else◌,
}
use robo_control.Errors.{
  Exn, builtin, integrity_error, commit_error, database_error, Result, ok, raise,
}
use robo_control.World.{Env, World, App}
use robo_control.Database.Tasks.{TaskHistory, violates_unique}

-- `session.add(item)` and `session.flush()` of a task row.
unfoldable pub flush_task : Env → TaskHistory → App (Unit {0})
unfolding violates_unique
flush_task env t w =
    if violates_unique t w.tx.tasks
    then (raise (builtin integrity_error "Duplicate entry"), w)
    else elim (env.flush_error t) [
      | some reason ↦ (raise (builtin integrity_error reason), w)
      | none ↦ (ok tt, record w { tx = record w.tx { tasks = w.tx.tasks ++ t ∷ [] } })
    ]

-- A statement of the worker, in its session.
unfoldable pub statement : Env → App (Unit {0})
statement env w = elim (env.statement_error w.commits w.tx) [
  | some reason ↦ (raise (builtin database_error reason), record w { commits = suc w.commits })
  | none ↦ (ok tt, w)
]

-- `session.commit()`
unfoldable pub commit : Env → App (Unit {0})
commit env w = elim (env.commit_error w.commits w.tx) [
  | some reason ↦ (raise (builtin commit_error reason), record w { commits = suc w.commits })
  | none ↦ (ok tt, record w { commits = suc w.commits; db = w.tx })
]

-- `session.rollback()`; a new session starts here too.
abbrev pub rollback : App (Unit {0})
rollback w = (ok tt, record w { tx = w.db })

-- `try: m except Exception: rollback; raise`
abbrev pub or_rollback : {A : Type 0} → App A → App A
or_rollback m w =
    let (r, w') = m w in
    elim r [ ok a ↦ (ok a, w') | raise e ↦ (raise e, record w' { tx = w'.db }) ]
