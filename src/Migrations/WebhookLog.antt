-- ===== src/Migrations/WebhookLog.antt =====
-- alembic/versions/1d4229d9e9d6_webhook_log.py: the table of webhook logs, and unique indexes in place of constraints.
use robo_control.Prelude.{true, false, some, List, [], ◌∷◌}
use robo_control.Migrations.Schema.{
  text, float, boolean, string, Revision, Op, create_table, drop_table, alter, create_index,
  drop_index, alter_column, column, serial, stamp,
}

abbrev pub upgrade : List Op
upgrade =
    create_table "webhook_logs"
      (serial "id"
        ∷ column "robot_task_code" (string 100) false
        ∷ column "method" (string 50) false
        ∷ column "amr_code" (string 50) true
        ∷ column "x" float true
        ∷ column "y" float true
        ∷ column "raw_payload" text true
        ∷ column "signature_valid" boolean false
        ∷ column "duplicate" boolean false
        ∷ stamp "created_at" "now()"
        ∷ [])
      ("id" ∷ []) []
    ∷ alter "webhook_logs" (create_index "ix_webhook_logs_amr_code" ("amr_code" ∷ []) false)
    ∷ alter "webhook_logs" (create_index "ix_webhook_logs_method" ("method" ∷ []) false)
    ∷ alter "webhook_logs"
        (create_index "ix_webhook_logs_robot_task_code" ("robot_task_code" ∷ []) false)
    ∷ alter "robot_types" (alter_column "created_at" "now()")
    ∷ alter "robot_types" (alter_column "updated_at" "now()")
    ∷ alter "robot_types" (drop_index "uq_robot_types_name")
    ∷ alter "robot_types" (drop_index "ix_robot_types_name")
    ∷ alter "robot_types" (create_index "ix_robot_types_name" ("name" ∷ []) true)
    ∷ alter "task_history" (alter_column "created_at" "now()")
    ∷ alter "task_history" (alter_column "updated_at" "now()")
    ∷ alter "task_history" (drop_index "uq_task_history_idempotency_key")
    ∷ alter "task_history" (drop_index "uq_task_history_robot_task_code")
    ∷ alter "task_history" (drop_index "ix_task_history_idempotency_key")
    ∷ alter "task_history"
        (create_index "ix_task_history_idempotency_key" ("idempotency_key" ∷ []) true)
    ∷ alter "task_history" (drop_index "ix_task_history_robot_task_code")
    ∷ alter "task_history"
        (create_index "ix_task_history_robot_task_code" ("robot_task_code" ∷ []) true)
    ∷ []

abbrev pub downgrade : List Op
downgrade =
    alter "task_history" (drop_index "ix_task_history_robot_task_code")
    ∷ alter "task_history"
        (create_index "ix_task_history_robot_task_code" ("robot_task_code" ∷ []) false)
    ∷ alter "task_history" (drop_index "ix_task_history_idempotency_key")
    ∷ alter "task_history"
        (create_index "ix_task_history_idempotency_key" ("idempotency_key" ∷ []) false)
    ∷ alter "task_history"
        (create_index "uq_task_history_robot_task_code" ("robot_task_code" ∷ []) true)
    ∷ alter "task_history"
        (create_index "uq_task_history_idempotency_key" ("idempotency_key" ∷ []) true)
    ∷ alter "task_history" (alter_column "updated_at" "CURRENT_TIMESTAMP")
    ∷ alter "task_history" (alter_column "created_at" "CURRENT_TIMESTAMP")
    ∷ alter "robot_types" (drop_index "ix_robot_types_name")
    ∷ alter "robot_types" (create_index "ix_robot_types_name" ("name" ∷ []) false)
    ∷ alter "robot_types" (create_index "uq_robot_types_name" ("name" ∷ []) true)
    ∷ alter "robot_types" (alter_column "updated_at" "CURRENT_TIMESTAMP")
    ∷ alter "robot_types" (alter_column "created_at" "CURRENT_TIMESTAMP")
    ∷ alter "webhook_logs" (drop_index "ix_webhook_logs_robot_task_code")
    ∷ alter "webhook_logs" (drop_index "ix_webhook_logs_method")
    ∷ alter "webhook_logs" (drop_index "ix_webhook_logs_amr_code")
    ∷ drop_table "webhook_logs"
    ∷ []

abbrev pub webhook_log : Revision
webhook_log = record {
  revision = "1d4229d9e9d6";
  down_revision = some "0001_initial_schema";
  upgrade = upgrade;
  downgrade = downgrade;
}
