-- ===== src/Dashboard.antt =====
-- What the dashboard reads: app/api/v1/routers/alerts.py, app/services/stats_service.py,
-- app/services/robot_service.py and app/observability/health.py. None of it writes.
pub mod Alerts
pub mod Health
pub mod Stats
pub mod Robots
