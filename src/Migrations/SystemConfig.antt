-- ===== src/Migrations/SystemConfig.antt =====
-- alembic/versions/f6725d55e5f3_add_system_config_table.py: the table of the settings.
use robo_control.Prelude.{true, false, some, List, [], ◌∷◌}
use robo_control.Migrations.Schema.{
  text, string, Revision, Op, create_table, drop_table, alter, alter_column, column,
}

abbrev pub upgrade : List Op
upgrade =
    create_table "system_config" (column "key" (string 100) false ∷ column "value" text true ∷ [])
      ("key" ∷ []) []
    ∷ alter "robot_types" (alter_column "created_at" "now()")
    ∷ alter "robot_types" (alter_column "updated_at" "now()")
    ∷ alter "task_history" (alter_column "created_at" "now()")
    ∷ alter "task_history" (alter_column "updated_at" "now()")
    ∷ alter "webhook_logs" (alter_column "created_at" "now()")
    ∷ []

abbrev pub downgrade : List Op
downgrade =
    alter "webhook_logs" (alter_column "created_at" "(now())")
    ∷ alter "task_history" (alter_column "updated_at" "CURRENT_TIMESTAMP")
    ∷ alter "task_history" (alter_column "created_at" "CURRENT_TIMESTAMP")
    ∷ alter "robot_types" (alter_column "updated_at" "CURRENT_TIMESTAMP")
    ∷ alter "robot_types" (alter_column "created_at" "CURRENT_TIMESTAMP")
    ∷ drop_table "system_config"
    ∷ []

abbrev pub system_config : Revision
system_config = record {
  revision = "f6725d55e5f3";
  down_revision = some "1d4229d9e9d6";
  upgrade = upgrade;
  downgrade = downgrade;
}
