-- ===== src/Seed/Startup.antt =====
-- What a start of the application leaves in robot_types, whether its commit goes through or not.
use mathlib.Core.Path.{subst}
use robo_control.Prelude.{
  String, ◌≡◌, ◌≢◌, refl, sym, ap, true, none, some, List, [], ◌∷◌, ◌++◌, is_in,
}
use robo_control.Errors.{Result, ok, raise}
use robo_control.Database.{RobotType}
use robo_control.World.{Env, World, pure, ◌>>=◌}
use robo_control.World.Rules.{bind_rule}
use robo_control.World.Session.Laws.{commit-ok, commit-raise}
use robo_control.TaskService.{get_by_name}
use robo_control.Seed.{
  default_robot_types, names, missing, with_types, commit_if, seed_missing, seed_robot_types,
}
use robo_control.Seed.Laws.{
  names-append, is_in-append, missing-cover, missing-none, Distinct, missing-Distinct,
  missing-fresh, append-Distinct, get_by_name_found, get_by_name-append,
}

module _ (ts : List RobotType) where
  abbrev after : List RobotType
  after = ts ++ missing (names ts) default_robot_types

  after-Distinct : Distinct (names ts) → Distinct (names after)
  after-Distinct d = rw (names-append ts (missing (names ts) default_robot_types)) (
      append-Distinct (names ts) (names (missing (names ts) default_robot_types)) d
        (missing-Distinct (names ts) default_robot_types (refl, (refl, (refl, tt))))
        (λ n there. missing-fresh n (names ts) default_robot_types there))

  after_complete :
      (n : String) → is_in n (names default_robot_types) ≡ true → is_in n (names after) ≡ true
  after_complete n known =
      rw
        (
          names-append ts (missing (names ts) default_robot_types),
          is_in-append n (names ts) (names (missing (names ts) default_robot_types)),
        )
        (missing-cover n (names ts) default_robot_types known)

module _ (env : Env) where
  abbrev Committed : World → Result (List RobotType) × World → Type 0
  Committed w (ok added, v) =
      (added ≡ missing (names w.db.robot_types) default_robot_types)
      × (v.db ≡ record w.db { robot_types = w.db.robot_types ++ added })
  Committed w (raise x, v) = v.db ≡ w.db

  append_nil : (ts : List RobotType) → ts ++ [] ≡ ts
  append_nil [] = refl
  append_nil (t ∷ ts) = ap (λ (us : List RobotType). t ∷ us) (append_nil ts)

  commit_if-Committed :
      (w : World) (added : List RobotType)
      → added ≡ missing (names w.db.robot_types) default_robot_types
      → Committed w
          ((commit_if env added >>= λ _. pure added) (with_types added (record w { tx = w.db })))
  commit_if-Committed w [] e =
      (e, ap (λ ts. record w.db { robot_types = ts }) (sym (append_nil w.db.robot_types)))
  commit_if-Committed w (t ∷ ts) e =
      let w₁ = with_types (t ∷ ts) (record w { tx = w.db }) in
      bind_rule (Committed w) (commit_if env (t ∷ ts)) (λ _. pure (t ∷ ts)) w₁
        (λ _ v done. (e, ap (λ (x : World). x.db) (commit-ok env w₁ v done)))
        (λ x v failed. ap (λ (x : World). x.db) (commit-raise env w₁ v x failed))

  closing-Committed :
      (w : World) (r : Result (List RobotType)) (v : World)
      → Committed w (r, v)
      → Committed w (r, record v { tx = v.db })
  closing-Committed w (ok added) v h = h
  closing-Committed w (raise x) v h = h

  seed_robot_types-Committed : (w : World) → Committed w (seed_robot_types env w)
  unfolding seed_robot_types seed_missing
  seed_robot_types-Committed w =
      let added = missing (names w.db.robot_types) default_robot_types in
      let out =
        (commit_if env added >>= λ _. pure added) (with_types added (record w { tx = w.db })) in
      closing-Committed w out.0 out.1 (commit_if-Committed w added refl)

  -- A world that seeding left, by its outcome.
  module _ (w : World) (distinct : Distinct (names w.db.robot_types)) (n : String) (t : RobotType)
      (found : get_by_name n w.db.robot_types ≡ some t) where
    abbrev pub Kept : World → Type 0
    Kept v = Distinct (names v.db.robot_types) × (get_by_name n v.db.robot_types ≡ some t)

    Committed-Kept : (out : Result (List RobotType) × World) → Committed w out → Kept out.1
    Committed-Kept (ok added, v) (e, h) =
        rw (h, e)
          (
            after-Distinct w.db.robot_types distinct,
            get_by_name-append n w.db.robot_types
                (missing (names w.db.robot_types) default_robot_types) t found,
          )
    Committed-Kept (raise x, v) h = rw h (distinct, found)

    -- Whether seeding returns or raises, robot type names that are distinct before it are distinct after it, and a row that the lookup by its name finds before is found, unchanged, after.
    pub seed_robot_types_keeps :
        Distinct (names (seed_robot_types env w).1.db.robot_types)
        × (get_by_name n (seed_robot_types env w).1.db.robot_types ≡ some t)
    seed_robot_types_keeps = Committed-Kept (seed_robot_types env w) (seed_robot_types-Committed w)

  module _ (w v : World) (added : List RobotType)
      (done : seed_robot_types env w ≡ (ok added, v)) where
    -- The lookup by the name of a default type finds a row.
    seed_robot_types-get_by_name :
        (n : String)
        → is_in n (names default_robot_types) ≡ true
        → get_by_name n v.db.robot_types ≢ none
    seed_robot_types-get_by_name n known =
        let (e, h) = subst (Committed w) done (seed_robot_types-Committed w) in
        rw (h, e)
          (get_by_name_found n (after w.db.robot_types) (after_complete w.db.robot_types n known))

    -- After seeding has returned, the lookup by the name of a default type, which creating a task needs, finds a row, and seeding again adds nothing, returns, and changes only the session, which is new.
    pub seed_robot_types_again :
        (n : String)
        → is_in n (names default_robot_types) ≡ true
        → (get_by_name n v.db.robot_types ≢ none)
          × (seed_robot_types env v ≡ (ok [], record v { tx = v.db }))
    unfolding seed_robot_types seed_missing
    seed_robot_types_again n known =
        let (e, h) = subst (Committed w) done (seed_robot_types-Committed w) in
        let nothing : missing (names v.db.robot_types) default_robot_types ≡ [] =
          rw (h, e)
            (missing-none (names (after w.db.robot_types)) default_robot_types
              (after_complete w.db.robot_types)) in
        (seed_robot_types-get_by_name n known, rw nothing refl)
