-- ===== src/Seed.antt =====
-- app/db/init_seed.py: the rows of robot_types that the application writes when it starts.
pub mod Laws
pub mod Startup
use robo_control.Prelude.{
  String, Bool, Option, none, some, List, [], ◌∷◌, ◌++◌, is_in, if◌then◌else◌,
}
use robo_control.Errors.{Result, ok, raise}
use robo_control.Database.{RobotType}
use robo_control.World.{Env, World, App, pure, gets, modify, ◌>>=◌, ◌>>◌}
use robo_control.World.Session.{commit, rollback}

-- `DEFAULT_ROBOT_TYPES`
abbrev pub default_robot_types : List RobotType
default_robot_types =
    record {
      name = "LMR";
      description = some "Light Mobile Robot";
      rcs_task_type = "PF-LMR-COMMON";
    }
    ∷ record {
      name = "FMR";
      description = some "Forklift Mobile Robot";
      rcs_task_type = "PF-FMR-COMMON";
    }
    ∷ record {
      name = "CT7";
      description = some "Container 7-tier";
      rcs_task_type = "PF-CTU-COMMON";
    }
    ∷ []

-- `select(RobotType.name)`
abbrev pub names : List RobotType → List String
names [] = []
names (t ∷ ts) = t.name ∷ names ts

-- The rows that the loop adds.
unfoldable pub missing : List String → List RobotType → List RobotType
missing existing_names [] = []
missing existing_names (spec ∷ specs) =
    let rest = missing existing_names specs in
    if is_in spec.name existing_names then rest else spec ∷ rest

abbrev pub with_types : List RobotType → World → World
with_types added w = record w { tx = record w.tx { robot_types = w.tx.robot_types ++ added } }

-- `if added: await session.commit()`
abbrev pub commit_if : Env → List RobotType → App (Unit {0})
commit_if env [] = pure tt
commit_if env (_ ∷ _) = commit env

-- `finally: await session.close()`, which drops what is not committed.
abbrev pub closing : {A : Type 0} → App A → App A
closing m w = let (r, v) = m w in (r, record v { tx = v.db })

-- The body of the `try`; the answer is the rows added, whose number is logged.
unfoldable pub seed_missing : Env → App (List RobotType)
seed_missing env = do
  added ← gets (λ w. missing (names w.tx.robot_types) default_robot_types)
  modify (with_types added)
  commit_if env added
  pure added

-- `seed_robot_types` in a session of its own
unfoldable pub seed_robot_types : Env → App (List RobotType)
seed_robot_types env = closing (do rollback; seed_missing env)
