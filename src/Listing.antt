-- ===== src/Listing.antt =====
-- The listings of app/api/v1/routers/tasks.py (`list_task_history`) and
-- app/api/v1/routers/webhook_logs.py (`list_webhook_logs`), with `list_recent` of
-- app/repositories/webhook_log_repository.py. The order in which the database gives the rows that
-- ORDER BY leaves open, and its LIKE, are arguments.
pub mod Order
pub mod Pages
pub mod Routes
use mathlib.Core.List
use robo_control.Prelude.{
  ℕ, zero, suc, ◌+◌, ◌-◌, ◌*◌, ◌/◌, String, Bool, true, false, ◌&&◌, Option, none, some, List, [],
  ◌∷◌, map, length, ltb, if◌then◌else◌, str_eq,
}
use robo_control.Text.{concat, is_empty}
use robo_control.Json.{Json, Decimal, str, int, pos, boolean, obj, object, opt_str, opt_float}
use robo_control.Database.Tasks.{
  TaskStatus, pending, running, completed, failed, cancelled, status_value, TaskHistory,
}
use robo_control.Database.Logs.{WebhookLog}
use robo_control.World.{Env, World, App, gets}

module _ {A : Type 0} where
  abbrev pub take : ℕ → List A → List A
  take zero xs = []
  take (suc n) [] = []
  take (suc n) (x ∷ xs) = x ∷ take n xs

  abbrev pub drop : ℕ → List A → List A
  drop zero xs = xs
  drop (suc n) [] = []
  drop (suc n) (x ∷ xs) = drop n xs

  -- `query.where(...)`
  abbrev pub filter : (A → Bool) → List A → List A
  filter keep [] = []
  filter keep (x ∷ xs) = let rest = filter keep xs in if keep x then x ∷ rest else rest

  -- `query.offset((page - 1) * page_size).limit(page_size)`
  unfoldable pub paginate : ℕ → ℕ → List A → List A
  paginate page page_size rows = take page_size (drop ((page - 1) * page_size) rows)

-- `(total + page_size - 1) // page_size if total > 0 else 0`
unfoldable pub total_pages : ℕ → ℕ → ℕ
total_pages total page_size = if ltb 0 total then (total + page_size - 1) / page_size else 0

-- The `data` of a listing.
pub record Listing : Type 0 where
  pub items : List Json
  pub total : ℕ
  pub page : ℕ
  pub page_size : ℕ
  pub total_pages : ℕ

-- The count, the page of the ordered rows, and the answer.
unfoldable pub list_rows :
    {A : Type 0} → (List A → List A) → (A → Bool) → (A → Json) → ℕ → ℕ → List A → Listing
list_rows ordered keep item page page_size rows =
    let total = length (filter keep rows) in
    record {
      items = map item (paginate page page_size (ordered (filter keep rows)));
      total = total;
      page = page;
      page_size = page_size;
      total_pages = total_pages total page_size;
    }

pub record TaskHistoryItem : Type 0 where
  pub robot_task_code : String
  pub status : String
  pub robot_code : Option String
  pub source_code : Option String
  pub target_code : Option String
  pub error_msg : Option String

-- `model_dump(by_alias=True)`
abbrev pub dump_history_item : TaskHistoryItem → Json
dump_history_item item = obj (
    object (
      ("robotTaskCode", str item.robot_task_code)
      ∷ ("status", str item.status)
      ∷ ("robotCode", opt_str item.robot_code)
      ∷ ("sourceCode", opt_str item.source_code)
      ∷ ("targetCode", opt_str item.target_code)
      ∷ ("errorMsg", opt_str item.error_msg)
      ∷ []))

-- `TaskHistoryItem(...).model_dump(by_alias=True)` of a row
unfoldable pub task_item : TaskHistory → Json
task_item r = dump_history_item (record {
  robot_task_code = r.robot_task_code;
  status = status_value r.status;
  robot_code = r.robot_code;
  source_code = r.source_code;
  target_code = r.target_code;
  error_msg = r.error_msg;
})

-- `TaskStatus(text)`, where none is a ValueError.
unfoldable pub parse_status : String → Option TaskStatus
parse_status text =
    if str_eq text "pending"
    then some pending
    else if str_eq text "running"
    then some running
    else if str_eq text "completed"
    then some completed
    else if str_eq text "failed"
    then some failed
    else if str_eq text "cancelled"
    then some cancelled
    else none

-- An invalid filter is ignored.
abbrev pub has_status : Option TaskStatus → TaskHistory → Bool
has_status none r = true
has_status (some ts) r = str_eq (status_value r.status) (status_value ts)

unfoldable pub status_filter_of : Option String → Option TaskStatus
status_filter_of none = none
status_filter_of (some text) = if is_empty text then none else parse_status text

-- `list_task_history`
unfoldable pub list_task_history :
    (List TaskHistory → List TaskHistory) → Option String → ℕ → ℕ → App Listing
list_task_history ordered status_filter page page_size = gets (λ w.
    list_rows ordered (has_status (status_filter_of status_filter)) task_item page page_size
      w.tx.tasks)

-- `WebhookLogItem`
pub record WebhookLogItem : Type 0 where
  pub id : ℕ
  pub robot_task_code : String
  pub method : String
  pub amr_code : Option String
  pub x : Option Decimal
  pub y : Option Decimal
  pub signature_valid : Bool
  pub duplicate : Bool
  pub created_at : ℕ

-- `model_dump(by_alias=True)`
abbrev pub dump_log_item : Env → WebhookLogItem → Json
dump_log_item env item = obj (
    object (
      ("id", int (pos item.id))
      ∷ ("robotTaskCode", str item.robot_task_code)
      ∷ ("method", str item.method)
      ∷ ("amrCode", opt_str item.amr_code)
      ∷ ("x", opt_float item.x)
      ∷ ("y", opt_float item.y)
      ∷ ("signatureValid", boolean item.signature_valid)
      ∷ ("duplicate", boolean item.duplicate)
      ∷ ("createdAt", str (env.isoformat item.created_at))
      ∷ []))

-- `WebhookLogItem(...).model_dump(by_alias=True)` of a row
unfoldable pub log_item : Env → WebhookLog → Json
log_item env r = dump_log_item env (record {
  id = r.id;
  robot_task_code = r.robot_task_code;
  method = r.method;
  amr_code = r.amr_code;
  x = r.x;
  y = r.y;
  signature_valid = r.signature_valid;
  duplicate = r.duplicate;
  created_at = r.created_at;
})

-- `WebhookLog.robot_task_code.contains(task_code)`: a LIKE whose pattern is the text between two
-- `%`, the wildcards in the text left as they are.
unfoldable pub has_task_code : (String → String → Bool) → Option String → WebhookLog → Bool
has_task_code like none r = true
has_task_code like (some task_code) r =
    if is_empty task_code
    then true
    else like (concat ("%" ∷ task_code ∷ "%" ∷ [])) r.robot_task_code

-- `list_webhook_logs`
unfoldable pub list_webhook_logs :
    Env
    → (String → String → Bool)
    → (List WebhookLog → List WebhookLog)
    → Option String
    → ℕ
    → ℕ
    → App Listing
list_webhook_logs env like ordered task_code page page_size =
    gets (λ w.
      list_rows ordered (has_task_code like task_code) (log_item env) page page_size w.tx.logs)
