-- ===== src/Database/Tasks.antt =====
-- app/models/task_history.py and app/repositories/task_history_repository.py.
pub mod Rows
use robo_control.Prelude.{
  ℕ, zero, suc, ◌+◌, String, Bool, true, false, ◌||◌, Option, none, some, List, [], ◌∷◌, ◌++◌,
  str_eq, if◌then◌else◌,
}

pub data TaskStatus : Type 0 where
  pending running completed failed cancelled : TaskStatus

-- `TaskStatus.value`
unfoldable pub status_value : TaskStatus → String
status_value pending = "pending"
status_value running = "running"
status_value completed = "completed"
status_value failed = "failed"
status_value cancelled = "cancelled"

pub record TaskHistory : Type 0 where
  pub robot_task_code : String
  pub status : TaskStatus
  pub robot_code : Option String
  pub source_code : Option String
  pub target_code : Option String
  pub idempotency_key : Option String
  pub start_time : Option ℕ
  pub end_time : Option ℕ
  pub error_msg : Option String
  pub created_at : ℕ
  pub updated_at : ℕ

-- `TaskHistoryRepository.get_by_robot_task_code`
unfoldable pub get_by_robot_task_code : String → List TaskHistory → Option TaskHistory
get_by_robot_task_code code [] = none
get_by_robot_task_code code (t ∷ ts) =
    if str_eq t.robot_task_code code then some t else get_by_robot_task_code code ts

abbrev pub same_text : Option String → String → Bool
same_text none s = false
same_text (some t) s = str_eq t s

-- `TaskHistoryRepository.get_by_idempotency_key`
unfoldable pub get_by_idempotency_key : String → List TaskHistory → Option TaskHistory
get_by_idempotency_key key [] = none
get_by_idempotency_key key (t ∷ ts) =
    if same_text t.idempotency_key key then some t else get_by_idempotency_key key ts

-- `some t` is written over the old column value, and none leaves it.
abbrev pub or_old {ℓ} : {A : Type ℓ} → Option A → Option A → Option A
or_old none old = old
or_old (some a) old = some a

-- The values that `TaskHistoryRepository.update_status` is given.
pub record Update : Type 0 where
  pub status : TaskStatus
  pub start_time : Option ℕ
  pub end_time : Option ℕ
  pub error_msg : Option String
  pub robot_code : Option String

-- One row under the UPDATE statement; `updated_at` has `onupdate=func.now()`.
abbrev pub updated : ℕ → Update → TaskHistory → TaskHistory
updated now u t = record t {
  status = u.status;
  start_time = or_old u.start_time t.start_time;
  end_time = or_old u.end_time t.end_time;
  error_msg = or_old u.error_msg t.error_msg;
  robot_code = or_old u.robot_code t.robot_code;
  updated_at = now;
}

-- The rows after the UPDATE of `TaskHistoryRepository.update_status`.
unfoldable pub update_status : ℕ → String → Update → List TaskHistory → List TaskHistory
update_status now code u [] = []
update_status now code u (t ∷ ts) =
    (if str_eq t.robot_task_code code then updated now u t else t) ∷ update_status now code u ts

-- Its row count: the rows that the WHERE clause matches.
unfoldable pub matched_rows : String → List TaskHistory → ℕ
matched_rows code [] = 0
matched_rows code (t ∷ ts) =
    if str_eq t.robot_task_code code then suc (matched_rows code ts) else matched_rows code ts

-- The unique columns: a row with this code or this key is there already.
abbrev pub key_taken : Option String → List TaskHistory → Bool
key_taken none ts = false
key_taken (some key) ts = elim (get_by_idempotency_key key ts) [ none ↦ false | some _ ↦ true ]

abbrev pub code_taken : String → List TaskHistory → Bool
code_taken code ts = elim (get_by_robot_task_code code ts) [ none ↦ false | some _ ↦ true ]

unfoldable pub violates_unique : TaskHistory → List TaskHistory → Bool
violates_unique t ts = code_taken t.robot_task_code ts || key_taken t.idempotency_key ts
