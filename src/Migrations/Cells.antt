-- ===== src/Migrations/Cells.antt =====
-- Rows as cells of the columns that app/models declare: what a table takes, and whether the rows
-- that the program writes are such. The lengths that requests may have are those of `Field(...)` in
-- app/schemas/task.py.
use robo_control.Prelude.{
  ℕ, ◌≤◌, ◌<◌, ◌≡◌, refl, ◌∙◌, String, Bool, true, false, ◌&&◌, Option, none, some, List, [], ◌∷◌,
  arith, leb, is_in, str_eq, if◌then◌else◌,
}
use robo_control.Text.{text_length, byte_length}
use robo_control.Database.Tasks.{
  TaskStatus, TaskHistory, status_value, pending, running, completed, failed, cancelled,
}
use robo_control.World.{Env, World}
use robo_control.TaskService.Schemas.{TaskCreateRequest}
use robo_control.TaskService.{new_task}
use robo_control.Migrations.Schema.{ColumnType, text, date_time, string, enum, Column, column}
use robo_control.Migrations.InitialSchema.{task_statuses}
use robo_control.Migrations.Models.{metadata, task_history_model}

-- The value of a column in a row.
pub data Cell : Type 0 where
  missing : Cell
  text_cell : String → Cell
  time_cell : ℕ → Cell

abbrev pub optional_text : Option String → Cell
optional_text none = missing
optional_text (some s) = text_cell s

abbrev pub optional_time : Option ℕ → Cell
optional_time none = missing
optional_time (some t) = time_cell t

-- A text of a `String(n)` has at most n characters, one of a TEXT at most 65535 bytes.
abbrev pub fits_type : ColumnType → Cell → Bool
fits_type (string n) (text_cell s) = leb (text_length s) n
fits_type text (text_cell s) = leb (byte_length s) 65535
fits_type (enum values) (text_cell s) = is_in s values
fits_type date_time (time_cell t) = true
fits_type _ _ = false

abbrev pub fits_column : Column → Cell → Bool
fits_column c missing = c.nullable
fits_column c v = fits_type c.column_type v

abbrev cell_of : String → List (String × Cell) → Cell
cell_of n [] = missing
cell_of n ((m, v) ∷ rest) = if str_eq m n then v else cell_of n rest

-- Each column takes its cell; a column that counts is given its value by the server.
abbrev pub fits : List Column → List (String × Cell) → Bool
fits [] row = true
fits (c ∷ cs) row =
    let rest = fits cs row in
    if c.autoincrement then rest else fits_column c (cell_of c.name row) && rest

abbrev pub cells : TaskHistory → List (String × Cell)
cells t =
    ("robot_task_code", text_cell t.robot_task_code)
    ∷ ("status", text_cell (status_value t.status))
    ∷ ("robot_code", optional_text t.robot_code)
    ∷ ("source_code", optional_text t.source_code)
    ∷ ("target_code", optional_text t.target_code)
    ∷ ("idempotency_key", optional_text t.idempotency_key)
    ∷ ("start_time", optional_time t.start_time)
    ∷ ("end_time", optional_time t.end_time)
    ∷ ("error_msg", optional_text t.error_msg)
    ∷ ("created_at", time_cell t.created_at)
    ∷ ("updated_at", time_cell t.updated_at)
    ∷ []

unfoldable pub task_fits : TaskHistory → Bool
task_fits t = fits (metadata task_history_model).columns (cells t)

abbrev pub is_between : ℕ → ℕ → ℕ → Bool
is_between low high n = leb low n && leb n high

-- The `Field(...)` bounds of `TaskCreateRequest`
unfoldable pub is_valid_request : TaskCreateRequest → Bool
is_valid_request r =
    is_between 1 50 (text_length r.robot_type)
    && is_between 1 100 (text_length r.source_code)
    && is_between 1 100 (text_length r.target_code)
    && is_between 1 100 r.priority

abbrev pub short : ℕ → Option String → Bool
short n none = true
short n (some s) = leb (text_length s) n

is_status : (s : TaskStatus) → is_in (status_value s) task_statuses ≡ true
unfolding status_value
is_status pending = refl
is_status running = refl
is_status completed = refl
is_status failed = refl
is_status cancelled = refl

text_fits :
    (name : String) (n : ℕ) (o : Option String)
    → fits_column (column name (string n) true) (optional_text o) ≡ short n o
text_fits name n none = refl
text_fits name n (some s) = refl

time_fits :
    (name : String) (o : Option ℕ)
    → fits_column (column name date_time true) (optional_time o) ≡ true
time_fits name none = refl
time_fits name (some t) = refl

abbrev note_short : Option String → Bool
note_short none = true
note_short (some s) = leb (byte_length s) 65535

note_fits :
    (name : String) (o : Option String)
    → fits_column (column name text true) (optional_text o) ≡ note_short o
note_fits name none = refl
note_fits name (some s) = refl

-- The conditions on the texts of a row, one by one.
abbrev texts_fit : TaskHistory → Bool
texts_fit t =
    leb (text_length t.robot_task_code) 100
    && (short 50 t.robot_code
        && (short 100 t.source_code
            && (short 100 t.target_code
                && (short 255 t.idempotency_key && note_short t.error_msg))))

and-true : (b : Bool) → b && true ≡ b
and-true true = refl
and-true false = refl

task_fits_lem : (t : TaskHistory) → task_fits t ≡ texts_fit t
unfolding task_fits
task_fits_lem t =
    rw
      (
        is_status t.status,
        text_fits "robot_code" 50 t.robot_code,
        text_fits "source_code" 100 t.source_code,
        text_fits "target_code" 100 t.target_code,
        text_fits "idempotency_key" 255 t.idempotency_key,
        time_fits "start_time" t.start_time,
        time_fits "end_time" t.end_time,
        note_fits "error_msg" t.error_msg,
        and-true (note_short t.error_msg),
      )
      refl

-- The row that a valid request makes, under a code of at most 100 characters and a key of at most 255, is one that the table of the model takes, status and times included.
pub new_task-fits :
    (env : Env) (code : String) (request : TaskCreateRequest) (key : Option String) (w : World)
    → is_valid_request request ≡ true
    → text_length code ≤ 100
    → short 255 key ≡ true
    → task_fits (new_task env code request key w) ≡ true
unfolding is_valid_request
new_task-fits env code request key w valid few short_key =
    task_fits_lem (new_task env code request key w) ∙ ground (arith, short_key)

-- A key of more than 255 characters makes a row that the table does not take.
pub long_key-fits :
    (env : Env) (code : String) (request : TaskCreateRequest) (k : String) (w : World)
    → 255 < text_length k
    → task_fits (new_task env code request (some k) w) ≡ false
long_key-fits env code request k w long =
    task_fits_lem (new_task env code request (some k) w) ∙ ground arith
