-- ===== src/Dashboard/Stats.antt =====
-- app/services/stats_service.py. What the database and Redis answer to a probe, and the keys that
-- SCAN gives, are arguments.
use robo_control.Prelude.{
  ℕ, suc, String, Bool, true, false, ◌&&◌, List, length, str_eq, leb, if◌then◌else◌, ◌≡◌, ◌≤◌, ◌+◌,
  refl, [], ◌∷◌, arith,
}
use robo_control.Database.Tasks.{
  TaskStatus, pending, running, completed, failed, cancelled, status_value, TaskHistory,
}
use robo_control.Errors.{Result, ok}
use robo_control.World.{World, App, gets}
use robo_control.Listing.{filter}
use robo_control.Dashboard.Health.{check_database, check_redis, ok_or_error}

-- `SystemStats`
pub record SystemStats : Type 0 where
  pub active_robots : ℕ
  pub pending_tasks : ℕ
  pub running_tasks : ℕ
  pub completed_tasks_today : ℕ
  pub failed_tasks_today : ℕ
  pub total_tasks : ℕ
  pub db_status : String
  pub redis_status : String

abbrev pub is_status : TaskStatus → TaskHistory → Bool
is_status s t = str_eq (status_value t.status) (status_value s)

-- `_count_by_status`
unfoldable pub count_by_status : TaskStatus → List TaskHistory → ℕ
count_by_status s ts = length (filter (is_status s) ts)

-- `_count_today`, where the day began at `today_start`
unfoldable pub count_today : ℕ → TaskStatus → List TaskHistory → ℕ
count_today today_start s ts =
    length (filter (λ t. is_status s t && leb today_start t.updated_at) ts)

-- `get_stats`; `start_of_day` is the midnight before a time, `scanned` the robot state keys.
unfoldable pub get_stats : (ℕ → ℕ) → List String → Result (Unit {0}) → Result Bool → App SystemStats
get_stats start_of_day scanned select_1 ping = gets (λ w. record {
  active_robots = length scanned;
  pending_tasks = count_by_status pending w.tx.tasks;
  running_tasks = count_by_status running w.tx.tasks;
  completed_tasks_today = count_today (start_of_day w.now) completed w.tx.tasks;
  failed_tasks_today = count_today (start_of_day w.now) failed w.tx.tasks;
  total_tasks = length w.tx.tasks;
  db_status = ok_or_error (check_database select_1);
  redis_status = ok_or_error (check_redis ping);
})

abbrev if_one : Bool → ℕ → ℕ
if_one b n = if b then suc n else n

length-if :
    (b : Bool) (t : TaskHistory) (ts : List TaskHistory)
    → length (if b then t ∷ ts else ts) ≡ if_one b (length ts)
length-if true t ts = refl
length-if false t ts = refl

-- A row has one status, so it is in at most one of the counts.
one_status :
    (s : TaskStatus) (today : Bool) (p r c f n : ℕ)
    → p + r + c + f ≤ n
    → if_one (str_eq (status_value s) (status_value pending)) p
        + if_one (str_eq (status_value s) (status_value running)) r
        + if_one (str_eq (status_value s) (status_value completed) && today) c
        + if_one (str_eq (status_value s) (status_value failed) && today) f
      ≤ suc n
unfolding status_value
one_status pending today p r c f n h = omega arith
one_status running today p r c f n h = omega arith
one_status completed true p r c f n h = omega arith
one_status completed false p r c f n h = omega arith
one_status failed true p r c f n h = omega arith
one_status failed false p r c f n h = omega arith
one_status cancelled today p r c f n h = omega arith

counts_disjoint :
    (day : ℕ) (ts : List TaskHistory)
    → count_by_status pending ts
        + count_by_status running ts
        + count_today day completed ts
        + count_today day failed ts
      ≤ length ts
unfolding count_by_status count_today
counts_disjoint day [] = omega arith
counts_disjoint day (t ∷ ts) =
    let today = leb day t.updated_at in
    let rest = counts_disjoint day ts in
    rw
      (
        length-if (is_status pending t) t (filter (is_status pending) ts),
        length-if (is_status running t) t (filter (is_status running) ts),
        length-if (is_status completed t && today) t
            (filter (λ t. is_status completed t && leb day t.updated_at) ts),
        length-if (is_status failed t && today) t
            (filter (λ t. is_status failed t && leb day t.updated_at) ts),
      )
      (one_status t.status today _ _ _ _ (length ts) rest)

-- The pending tasks, the running tasks, and those completed and failed today are together no more than all tasks; the answer changes nothing.
pub get_stats-le :
    (start_of_day : ℕ → ℕ) (scanned : List String) (select_1 : Result (Unit {0}))
    (ping : Result Bool) (w : World)
    → (stats : SystemStats) × (get_stats start_of_day scanned select_1 ping w ≡ (ok stats, w))
      × (stats.pending_tasks + stats.running_tasks + stats.completed_tasks_today
            + stats.failed_tasks_today
          ≤ stats.total_tasks)
unfolding get_stats
get_stats-le start_of_day scanned select_1 ping w = (_, refl, counts_disjoint _ w.tx.tasks)
