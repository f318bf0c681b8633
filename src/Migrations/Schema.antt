-- ===== src/Migrations/Schema.antt =====
-- What a migration sees of a database: its tables with their columns and indexes. The operations of
-- Alembic are data; what performs them on a database is a library, given by `Alembic`.
use robo_control.Prelude.{
  ℕ, ◌≡◌, String, str_eq, Bool, true, false, ◌||◌, Option, none, some, List, [], ◌∷◌, ◌++◌, map,
  if◌then◌else◌, is_in,
}

-- `sa.Integer()`, `sa.String(length=...)`, and so on
pub data ColumnType : Type 0 where
  integer text date_time float boolean : ColumnType
  string : ℕ → ColumnType
  enum : List String → ColumnType

pub record Column : Type 0 where
  pub name : String
  pub column_type : ColumnType
  pub nullable : Bool
  pub primary_key : Bool
  pub autoincrement : Bool
  pub server_default : Option String

-- `sa.Column(name, type, nullable=...)`
abbrev pub column : String → ColumnType → Bool → Column
column n type nullable = record {
  name = n;
  column_type = type;
  nullable = nullable;
  primary_key = false;
  autoincrement = false;
  server_default = none;
}

-- An integer column that counts; and one that is the primary key.
abbrev pub serial : String → Column
serial n = record (column n integer false) { autoincrement = true }

abbrev pub serial_key : String → Column
serial_key n = record (serial n) { primary_key = true }

-- A time that the server fills in.
abbrev pub stamp : String → String → Column
stamp n d = record (column n date_time false) { server_default = some d }

-- An index, or a unique constraint: MySQL keeps one as a unique index of its name.
pub record Index : Type 0 where
  pub name : String
  pub columns : List String
  pub unique : Bool

pub record Table : Type 0 where
  pub columns : List Column
  pub indexes : List Index

abbrev pub Tables : Type 0
Tables = String → Option Table

-- The operations on one table: `create_index`, `drop_index`, `alter_column` with a `server_default`.
pub data Change : Type 0 where
  create_index : String → List String → Bool → Change
  drop_index : String → Change
  alter_column : String → String → Change

-- `op.create_table` with its columns, the columns of a `PrimaryKeyConstraint`, and its unique
-- constraints; `op.drop_table`; and a change of a table.
pub data Op : Type 0 where
  create_table : String → List Column → List String → List Index → Op
  drop_table : String → Op
  alter : String → Change → Op

-- One file of alembic/versions.
pub record Revision : Type 0 where
  pub revision : String
  pub down_revision : Option String
  pub upgrade : List Op
  pub downgrade : List Op

abbrev pub has_index : String → List Index → Bool
has_index n [] = false
has_index n (ix ∷ ixs) = str_eq ix.name n || has_index n ixs

abbrev pub without_index : String → List Index → List Index
without_index n [] = []
without_index n (ix ∷ ixs) =
    let rest = without_index n ixs in if str_eq ix.name n then rest else ix ∷ rest

abbrev pub with_default : String → String → List Column → List Column
with_default n d [] = []
with_default n d (c ∷ cs) =
    let rest = with_default n d cs in
    if str_eq c.name n then record c { server_default = some d } ∷ rest else c ∷ rest

abbrev pub has_column : String → List Column → Bool
has_column n [] = false
has_column n (c ∷ cs) = str_eq c.name n || has_column n cs

-- An index of a name that is taken, and an index to drop or a column to alter that is not there, is
-- refused.
abbrev pub change : Change → Table → Option Table
change (create_index n columns unique) t =
    if has_index n t.indexes
    then none
    else some (record t {
      indexes = t.indexes ++ (record { name = n; columns = columns; unique = unique } ∷ []);
    })
change (drop_index n) t =
    if has_index n t.indexes then some (record t { indexes = without_index n t.indexes }) else none
change (alter_column n d) t =
    if has_column n t.columns
    then some (record t { columns = with_default n d t.columns })
    else none

abbrev pub put : String → Table → Tables → Tables
put n t v m = if str_eq n m then some t else v m

abbrev pub remove : String → Tables → Tables
remove n v m = if str_eq n m then none else v m

abbrev pub key_column : List String → Column → Column
key_column key c = record c { primary_key = c.primary_key || is_in c.name key }

abbrev pub table_of : List Column → List String → List Index → Table
table_of columns key constraints = record {
  columns = map (key_column key) columns;
  indexes = constraints;
}

abbrev pub create_if_none : Option Table → String → Table → Tables → Option Tables
create_if_none none n t v = some (put n t v)
create_if_none (some _) n t v = none

abbrev pub drop_if_some : Option Table → String → Tables → Option Tables
drop_if_some none n v = none
drop_if_some (some _) n v = some (remove n v)

abbrev pub put_if_some : Option Table → String → Tables → Option Tables
put_if_some none n v = none
put_if_some (some t) n v = some (put n t v)

abbrev pub change_if_some : Option Table → Change → Option Table
change_if_some none c = none
change_if_some (some t) c = change c t

-- What an operation does to the tables, as documented.
abbrev pub effect : Op → Tables → Option Tables
effect (create_table n columns key constraints) v =
    create_if_none (v n) n (table_of columns key constraints) v
effect (drop_table n) v = drop_if_some (v n) n v
effect (alter n c) v = put_if_some (change_if_some (v n) c) n v

abbrev pub bind {ℓ} : {A B : Type ℓ} → Option A → (A → Option B) → Option B
bind none f = none
bind (some a) f = f a

abbrev pub effects : List Op → Tables → Option Tables
effects [] v = some v
effects (o ∷ os) v = bind (effect o v) (effects os)

-- A database, what its tables are, and what performs an operation on it. Alembic is taken to do
-- what is documented: an operation that can be done is done, and has its effect on the tables.
pub record Alembic : Type 1 where
  pub Database : Type 0
  pub tables : Database → Tables
  pub perform : Op → Database → Option Database
  pub documented :
      (o : Op) (d : Database) (v : Tables)
      → effect o (tables d) ≡ some v
      → (e : Database) × (perform o d ≡ some e) × (tables e ≡ v)

module _ (alembic : Alembic) where
  open alembic use {Database, tables, perform, documented}

  -- A script is run from its first operation to its last, and stops at one that is refused.
  unfoldable pub run : List Op → Database → Option Database
  run [] d = some d
  run (o ∷ os) d = bind (perform o d) (run os)
