-- ===== src/Migrations/Models.antt =====
-- The tables that the models of app/models declare, with the mixin of app/db/base.py.
use robo_control.Prelude.{String, Bool, true, false, List, [], ◌∷◌, ◌++◌, map, if◌then◌else◌}
use robo_control.Text.{concat}
use robo_control.Migrations.Schema.{
  integer, text, float, boolean, string, enum, date_time, ColumnType, Column, Index, Table, column,
  stamp,
}

-- `mapped_column(...)`: a column, and what it asks to have indexed.
pub record MappedColumn : Type 0 where
  pub declared : Column
  pub unique : Bool
  pub index : Bool

abbrev plain : String → ColumnType → Bool → MappedColumn
plain n type nullable = record { declared = column n type nullable; unique = false; index = false }

abbrev indexed : String → ColumnType → Bool → MappedColumn
indexed n type nullable = record (plain n type nullable) { index = true }

abbrev unique_indexed : String → ColumnType → Bool → MappedColumn
unique_indexed n type nullable = record (indexed n type nullable) { unique = true }

abbrev primary : String → ColumnType → Bool → MappedColumn
primary n type autoincrement = record {
  declared = record (column n type false) { primary_key = true; autoincrement = autoincrement };
  unique = false;
  index = false;
}

abbrev server_time : String → MappedColumn
server_time n = record { declared = stamp n "now()"; unique = false; index = false }

-- `TimestampMixin`
abbrev timestamps : List MappedColumn
timestamps = server_time "created_at" ∷ server_time "updated_at" ∷ []

-- A class of app/models: `__tablename__`, its columns, and the indexes of `__table_args__`.
pub record Model : Type 0 where
  pub table_name : String
  pub mapped : List MappedColumn
  pub table_args : List Index

-- `index=True` asks for an index of the column's own, unique with `unique=True`. No column here is
-- unique without an index.
abbrev column_indexes : String → List MappedColumn → List Index
column_indexes table [] = []
column_indexes table (m ∷ ms) =
    let rest = column_indexes table ms in
    if m.index
    then record {
      name = concat ("ix_" ∷ table ∷ "_" ∷ m.declared.name ∷ []);
      columns = m.declared.name ∷ [];
      unique = m.unique;
    }
      ∷ rest
    else rest

abbrev pub metadata : Model → Table
metadata m = record {
  columns = map (λ c. c.declared) m.mapped;
  indexes = column_indexes m.table_name m.mapped ++ m.table_args;
}

abbrev pub robot_type_model : Model
robot_type_model = record {
  table_name = "robot_types";
  mapped =
      primary "id" integer true
      ∷ unique_indexed "name" (string 50) false
      ∷ plain "description" (string 200) true
      ∷ indexed "rcs_task_type" (string 100) false
      ∷ timestamps;
  table_args =
      record {
        name = "ix_robot_types_name_rcs";
        columns = "name" ∷ "rcs_task_type" ∷ [];
        unique = false;
      }
      ∷ [];
}

abbrev pub task_history_model : Model
task_history_model = record {
  table_name = "task_history";
  mapped =
      primary "id" integer true
      ∷ unique_indexed "robot_task_code" (string 100) false
      ∷ indexed "status" (enum ("pending" ∷ "running" ∷ "completed" ∷ "failed" ∷ "cancelled" ∷ []))
          false
      ∷ indexed "robot_code" (string 50) true
      ∷ plain "source_code" (string 100) true
      ∷ plain "target_code" (string 100) true
      ∷ unique_indexed "idempotency_key" (string 255) true
      ∷ plain "start_time" date_time true
      ∷ plain "end_time" date_time true
      ∷ plain "error_msg" text true
      ∷ timestamps;
  table_args = [];
}

abbrev pub webhook_log_model : Model
webhook_log_model = record {
  table_name = "webhook_logs";
  mapped =
      primary "id" integer true
      ∷ indexed "robot_task_code" (string 100) false
      ∷ indexed "method" (string 50) false
      ∷ indexed "amr_code" (string 50) true
      ∷ plain "x" float true
      ∷ plain "y" float true
      ∷ plain "raw_payload" text true
      ∷ plain "signature_valid" boolean false
      ∷ plain "duplicate" boolean false
      ∷ server_time "created_at"
      ∷ [];
  table_args = [];
}

abbrev pub system_config_model : Model
system_config_model = record {
  table_name = "system_config";
  mapped = primary "key" (string 100) false ∷ plain "value" text true ∷ [];
  table_args = [];
}

-- `Base.metadata`, which alembic/env.py compares databases with
abbrev pub models : List Model
models = robot_type_model ∷ task_history_model ∷ webhook_log_model ∷ system_config_model ∷ []
