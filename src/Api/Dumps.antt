-- ===== src/Api/Dumps.antt =====
-- The `data` of the answers as JSON: `model_dump(by_alias=True)` of the response schemas in
-- app/schemas.
use robo_control.Prelude.{ℕ, Option, none, some, List, [], ◌∷◌, map}
use robo_control.Json.{
  Json, ℤ, pos, Items, nil, cons, null, int, str, arr, obj, object, opt_str, opt_float,
}
use robo_control.World.{Env}
use robo_control.Config.{ConnectionSettings}
use robo_control.RcsSubmit.Body.{method_text}
use robo_control.RcsSubmit.Preview.{RcsSubmitPreviewData}
use robo_control.Listing.{Listing}
use robo_control.Dashboard.Alerts.{Alert, Alerts}
use robo_control.Dashboard.Stats.{SystemStats}
use robo_control.Dashboard.Robots.{RobotStatusResponse}

abbrev pub items_of : List Json → Items
items_of [] = nil
items_of (v ∷ vs) = cons v (items_of vs)

abbrev pub number : ℕ → Json
number n = int (pos n)

unfoldable pub dump_preview : RcsSubmitPreviewData → Json
dump_preview p = obj (
    object (
      ("resolvedBaseUrl", str p.resolved_base_url)
      ∷ ("method", str (method_text p.method))
      ∷ ("path", str p.path)
      ∷ ("fullUrlWithoutSign", str p.full_url_without_sign)
      ∷ ("exampleBody", obj p.example_body)
      ∷ []))

unfoldable pub dump_listing : Listing → Json
dump_listing l = obj (
    object (
      ("items", arr (items_of l.items))
      ∷ ("total", number l.total)
      ∷ ("page", number l.page)
      ∷ ("pageSize", number l.page_size)
      ∷ ("totalPages", number l.total_pages)
      ∷ []))

unfoldable pub dump_alert : Alert → Json
dump_alert a = obj (
    object (
      ("type", str a.kind)
      ∷ ("severity", str a.severity)
      ∷ ("message", str a.message)
      ∷ ("details", str a.details)
      ∷ ("robotTaskCode", str a.robot_task_code)
      ∷ ("timestamp", str a.timestamp)
      ∷ []))

unfoldable pub dump_alerts : Alerts → Json
dump_alerts a =
    obj
      (object (("items", arr (items_of (map dump_alert a.items))) ∷ ("total", number a.total) ∷ []))

unfoldable pub dump_stats : SystemStats → Json
dump_stats s = obj (
    object (
      ("activeRobots", number s.active_robots)
      ∷ ("pendingTasks", number s.pending_tasks)
      ∷ ("runningTasks", number s.running_tasks)
      ∷ ("completedTasksToday", number s.completed_tasks_today)
      ∷ ("failedTasksToday", number s.failed_tasks_today)
      ∷ ("totalTasks", number s.total_tasks)
      ∷ ("dbStatus", str s.db_status)
      ∷ ("redisStatus", str s.redis_status)
      ∷ []))

abbrev opt_int : Option ℤ → Json
opt_int none = null
opt_int (some n) = int n

unfoldable pub dump_connection : ConnectionSettings → Json
dump_connection c = obj (
    object (
      ("rcs_ip", opt_str c.rcs_ip)
      ∷ ("rcs_port", opt_int c.rcs_port)
      ∷ ("rcs_base_url", str c.rcs_base_url)
      ∷ []))

abbrev opt_time : Env → Option ℕ → Json
opt_time env none = null
opt_time env (some t) = str (env.isoformat t)

unfoldable pub dump_robot : Env → RobotStatusResponse → Json
dump_robot env r = obj (
    object (
      ("amrCode", str r.amr_code)
      ∷ ("x", opt_float r.x)
      ∷ ("y", opt_float r.y)
      ∷ ("state", opt_str r.state)
      ∷ ("updatedAt", opt_time env r.updated_at)
      ∷ []))

unfoldable pub dump_robots : Env → List RobotStatusResponse → Json
dump_robots env rs = arr (items_of (map (dump_robot env) rs))
