-- ===== src/Migrations.antt =====
-- The schema migrations of alembic/versions, and the tables of app/models that they are for.
pub mod Schema
pub mod InitialSchema
pub mod WebhookLog
pub mod SystemConfig
pub mod Tables
pub mod Models
pub mod Scripts
pub mod History
pub mod Compared
pub mod Runs
pub mod Cells
pub mod Sizes
