-- ===== src/Migrations/InitialSchema.antt =====
-- alembic/versions/0001_initial_schema.py: the tables of robot types and of tasks.
use robo_control.Prelude.{String, true, false, none, List, [], ◌∷◌}
use robo_control.Migrations.Schema.{
  text, date_time, string, enum, Revision, Op, create_table, drop_table, alter, create_index,
  drop_index, column, serial_key, stamp,
}

abbrev pub task_statuses : List String
task_statuses = "pending" ∷ "running" ∷ "completed" ∷ "failed" ∷ "cancelled" ∷ []

abbrev pub upgrade : List Op
upgrade =
    create_table "robot_types"
      (serial_key "id"
        ∷ column "name" (string 50) false
        ∷ column "description" (string 200) true
        ∷ column "rcs_task_type" (string 100) false
        ∷ stamp "created_at" "CURRENT_TIMESTAMP"
        ∷ stamp "updated_at" "CURRENT_TIMESTAMP"
        ∷ [])
      [] (record { name = "uq_robot_types_name"; columns = ("name" ∷ []); unique = true } ∷ [])
    ∷ alter "robot_types" (create_index "ix_robot_types_name" ("name" ∷ []) false)
    ∷ alter "robot_types" (create_index "ix_robot_types_rcs_task_type" ("rcs_task_type" ∷ []) false)
    ∷ alter "robot_types"
        (create_index "ix_robot_types_name_rcs" ("name" ∷ "rcs_task_type" ∷ []) false)
    ∷ create_table "task_history"
        (serial_key "id"
          ∷ column "robot_task_code" (string 100) false
          ∷ column "status" (enum task_statuses) false
          ∷ column "robot_code" (string 50) true
          ∷ column "source_code" (string 100) true
          ∷ column "target_code" (string 100) true
          ∷ column "idempotency_key" (string 255) true
          ∷ column "start_time" date_time true
          ∷ column "end_time" date_time true
          ∷ column "error_msg" text true
          ∷ stamp "created_at" "CURRENT_TIMESTAMP"
          ∷ stamp "updated_at" "CURRENT_TIMESTAMP"
          ∷ [])
        []
        (record {
          name = "uq_task_history_robot_task_code";
          columns = ("robot_task_code" ∷ []);
          unique = true;
        }
          ∷ record {
            name = "uq_task_history_idempotency_key";
            columns = ("idempotency_key" ∷ []);
            unique = true;
          }
          ∷ [])
    ∷ alter "task_history"
        (create_index "ix_task_history_robot_task_code" ("robot_task_code" ∷ []) false)
    ∷ alter "task_history" (create_index "ix_task_history_status" ("status" ∷ []) false)
    ∷ alter "task_history" (create_index "ix_task_history_robot_code" ("robot_code" ∷ []) false)
    ∷ alter "task_history"
        (create_index "ix_task_history_idempotency_key" ("idempotency_key" ∷ []) false)
    ∷ []

abbrev pub downgrade : List Op
downgrade =
    alter "task_history" (drop_index "ix_task_history_idempotency_key")
    ∷ alter "task_history" (drop_index "ix_task_history_robot_code")
    ∷ alter "task_history" (drop_index "ix_task_history_status")
    ∷ alter "task_history" (drop_index "ix_task_history_robot_task_code")
    ∷ drop_table "task_history"
    ∷ alter "robot_types" (drop_index "ix_robot_types_name_rcs")
    ∷ alter "robot_types" (drop_index "ix_robot_types_rcs_task_type")
    ∷ alter "robot_types" (drop_index "ix_robot_types_name")
    ∷ drop_table "robot_types"
    ∷ []

abbrev pub initial_schema : Revision
initial_schema = record {
  revision = "0001_initial_schema";
  down_revision = none;
  upgrade = upgrade;
  downgrade = downgrade;
}
