-- ===== src/Tests/Startup.antt =====
-- Starting the application on a database that has one robot type.
use robo_control.Prelude.{some, ◌≡◌, ◌≢◌, refl, none, []}
use robo_control.Errors.{ok}
use robo_control.World.{World}
use robo_control.TaskService.{get_by_name}
use robo_control.Seed.{names, default_robot_types, seed_robot_types}
use robo_control.Database.{RobotType}
use robo_control.Seed.Laws.{Distinct}
use robo_control.Seed.Startup.{seed_robot_types_keeps, seed_robot_types_again}
use robo_control.Tests

abbrev seeded : World
seeded = (seed_robot_types Tests.env Tests.start).1

seeds : seed_robot_types Tests.env Tests.start ≡ (ok default_robot_types, seeded)
unfolding seed_robot_types robo_control.Seed.seed_missing robo_control.Seed.missing
    robo_control.World.Session.commit
seeds = λ i. (reports i, seeded)
  where
    reports : (seed_robot_types Tests.env Tests.start).0 ≡ ok default_robot_types
    reports = refl

abbrev lift_type : RobotType
lift_type = record { name = "lift"; description = none; rcs_task_type = "F01" }

seed_robot_types_keeps_example :
    Distinct (names seeded.db.robot_types)
    × (get_by_name "lift" seeded.db.robot_types ≡ some lift_type)
unfolding get_by_name
seed_robot_types_keeps_example =
    seed_robot_types_keeps Tests.env Tests.start (refl, tt) "lift" lift_type refl

seed_robot_types_again_example :
    (get_by_name "FMR" seeded.db.robot_types ≢ none)
    × (seed_robot_types Tests.env seeded ≡ (ok [], record seeded { tx = seeded.db }))
seed_robot_types_again_example =
    seed_robot_types_again Tests.env Tests.start seeded default_robot_types seeds "FMR" refl
