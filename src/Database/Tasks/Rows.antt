-- ===== src/Database/Tasks/Rows.antt =====
-- Laws of the task rows.
use robo_control.Prelude.{
  ℕ, String, ◌≡◌, refl, Bool, true, false, ◌||◌, none, some, List, [], ◌∷◌, arith, str_eq, eq_iff,
  if◌then◌else◌,
}
use robo_control.Database.Tasks.{
  TaskHistory, Update, get_by_robot_task_code, update_status, updated, get_by_idempotency_key,
  violates_unique,
}

or_true : (b : Bool) → (b || true) ≡ true
or_true true = refl
or_true false = refl

-- What is found under a code after an UPDATE of the rows of one code.
pub get-update_status :
    (now : ℕ) (code j : String) (u : Update) (ts : List TaskHistory)
    → get_by_robot_task_code j (update_status now code u ts) ≡ elim (get_by_robot_task_code j ts) [
      | none ↦ none
      | some t ↦ some (if str_eq code j then updated now u t else t)
    ]
unfolding get_by_robot_task_code update_status
get-update_status now code j u [] = refl
get-update_status now code j u (t ∷ ts) = ground (
  arith,
  eq_iff t.robot_task_code code,
  eq_iff t.robot_task_code j,
  eq_iff code j,
  get-update_status now code j u ts,
)

pub violates_unique_of_key :
    (t u : TaskHistory) (k : String) (ts : List TaskHistory)
    → t.idempotency_key ≡ some k
    → get_by_idempotency_key k ts ≡ some u
    → violates_unique t ts ≡ true
unfolding violates_unique
violates_unique_of_key t u k ts e h = ground arith
