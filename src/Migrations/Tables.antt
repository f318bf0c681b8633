-- ===== src/Migrations/Tables.antt =====
-- The tables that the revisions of alembic/versions leave, written out.
use robo_control.Prelude.{◌≡◌, String, true, false, none, List, [], ◌∷◌}
use robo_control.Migrations.Schema.{
  text, float, boolean, string, enum, date_time, Column, Index, Table, Tables, column, serial_key,
  stamp, put,
}

abbrev pub index : String → List String → Index
index n columns = record { name = n; columns = columns; unique = false }

abbrev pub unique_index : String → List String → Index
unique_index n columns = record { name = n; columns = columns; unique = true }

abbrev pub robot_columns : String → List Column
robot_columns now =
    serial_key "id"
    ∷ column "name" (string 50) false
    ∷ column "description" (string 200) true
    ∷ column "rcs_task_type" (string 100) false
    ∷ stamp "created_at" now
    ∷ stamp "updated_at" now
    ∷ []

abbrev pub robot_indexes : List Index
robot_indexes =
    index "ix_robot_types_rcs_task_type" ("rcs_task_type" ∷ [])
    ∷ index "ix_robot_types_name_rcs" ("name" ∷ "rcs_task_type" ∷ [])
    ∷ []

abbrev pub robot_types_1 : Table
robot_types_1 = record {
  columns = robot_columns "CURRENT_TIMESTAMP";
  indexes =
      unique_index "uq_robot_types_name" ("name" ∷ [])
      ∷ index "ix_robot_types_name" ("name" ∷ [])
      ∷ robot_indexes;
}

abbrev pub task_columns : String → List Column
task_columns now =
    serial_key "id"
    ∷ column "robot_task_code" (string 100) false
    ∷ column "status" (enum ("pending" ∷ "running" ∷ "completed" ∷ "failed" ∷ "cancelled" ∷ []))
        false
    ∷ column "robot_code" (string 50) true
    ∷ column "source_code" (string 100) true
    ∷ column "target_code" (string 100) true
    ∷ column "idempotency_key" (string 255) true
    ∷ column "start_time" date_time true
    ∷ column "end_time" date_time true
    ∷ column "error_msg" text true
    ∷ stamp "created_at" now
    ∷ stamp "updated_at" now
    ∷ []

abbrev pub task_history_1 : Table
task_history_1 = record {
  columns = task_columns "CURRENT_TIMESTAMP";
  indexes =
      unique_index "uq_task_history_robot_task_code" ("robot_task_code" ∷ [])
      ∷ unique_index "uq_task_history_idempotency_key" ("idempotency_key" ∷ [])
      ∷ index "ix_task_history_robot_task_code" ("robot_task_code" ∷ [])
      ∷ index "ix_task_history_status" ("status" ∷ [])
      ∷ index "ix_task_history_robot_code" ("robot_code" ∷ [])
      ∷ index "ix_task_history_idempotency_key" ("idempotency_key" ∷ [])
      ∷ [];
}

abbrev pub robot_types_2 : Table
robot_types_2 = record {
  columns = robot_columns "now()";
  indexes =
      index "ix_robot_types_rcs_task_type" ("rcs_task_type" ∷ [])
      ∷ index "ix_robot_types_name_rcs" ("name" ∷ "rcs_task_type" ∷ [])
      ∷ unique_index "ix_robot_types_name" ("name" ∷ [])
      ∷ [];
}

abbrev pub task_history_2 : Table
task_history_2 = record {
  columns = task_columns "now()";
  indexes =
      index "ix_task_history_status" ("status" ∷ [])
      ∷ index "ix_task_history_robot_code" ("robot_code" ∷ [])
      ∷ unique_index "ix_task_history_idempotency_key" ("idempotency_key" ∷ [])
      ∷ unique_index "ix_task_history_robot_task_code" ("robot_task_code" ∷ [])
      ∷ [];
}

abbrev pub webhook_logs_2 : String → Table
webhook_logs_2 now = record {
  columns =
      serial_key "id"
      ∷ column "robot_task_code" (string 100) false
      ∷ column "method" (string 50) false
      ∷ column "amr_code" (string 50) true
      ∷ column "x" float true
      ∷ column "y" float true
      ∷ column "raw_payload" text true
      ∷ column "signature_valid" boolean false
      ∷ column "duplicate" boolean false
      ∷ stamp "created_at" now
      ∷ [];
  indexes =
      index "ix_webhook_logs_amr_code" ("amr_code" ∷ [])
      ∷ index "ix_webhook_logs_method" ("method" ∷ [])
      ∷ index "ix_webhook_logs_robot_task_code" ("robot_task_code" ∷ [])
      ∷ [];
}

abbrev pub system_config_3 : Table
system_config_3 = record {
  columns =
      record (column "key" (string 100) false) { primary_key = true }
      ∷ column "value" text true
      ∷ [];
  indexes = [];
}

-- The tables after the first revision, the first two, and all three.
abbrev pub at_1 : Tables → Tables
at_1 v = put "task_history" task_history_1 (put "robot_types" robot_types_1 v)

abbrev pub at_2 : Tables → Tables
at_2 v =
    put "webhook_logs" (webhook_logs_2 "now()")
      (put "task_history" task_history_2 (put "robot_types" robot_types_2 v))

abbrev pub at_3 : Tables → Tables
at_3 v = put "system_config" system_config_3 (at_2 v)

-- The tables after a downgrade to the second revision and to the first.
abbrev pub back_2 : Tables → Tables
back_2 v = put "webhook_logs" (webhook_logs_2 "(now())") (
    put "task_history" (record task_history_2 { columns = task_columns "CURRENT_TIMESTAMP" })
      (put "robot_types" (record robot_types_2 { columns = robot_columns "CURRENT_TIMESTAMP" }) v))

abbrev pub back_1 : Tables → Tables
back_1 v =
    put "task_history"
      (record task_history_1 {
        indexes =
            index "ix_task_history_status" ("status" ∷ [])
            ∷ index "ix_task_history_robot_code" ("robot_code" ∷ [])
            ∷ index "ix_task_history_robot_task_code" ("robot_task_code" ∷ [])
            ∷ index "ix_task_history_idempotency_key" ("idempotency_key" ∷ [])
            ∷ unique_index "uq_task_history_robot_task_code" ("robot_task_code" ∷ [])
            ∷ unique_index "uq_task_history_idempotency_key" ("idempotency_key" ∷ [])
            ∷ [];
      })
      (put "robot_types"
        (record robot_types_1 {
          indexes =
              index "ix_robot_types_rcs_task_type" ("rcs_task_type" ∷ [])
              ∷ index "ix_robot_types_name_rcs" ("name" ∷ "rcs_task_type" ∷ [])
              ∷ index "ix_robot_types_name" ("name" ∷ [])
              ∷ unique_index "uq_robot_types_name" ("name" ∷ [])
              ∷ [];
        })
        v)

-- A database in which none of the tables is there yet.
abbrev pub IsFresh : Tables → Type 0
IsFresh v =
    (v "robot_types" ≡ none)
    × (v "task_history" ≡ none)
    × (v "webhook_logs" ≡ none)
    × (v "system_config" ≡ none)
