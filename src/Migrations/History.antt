-- ===== src/Migrations/History.antt =====
-- The revisions of alembic/versions in their order, and their scripts one after the other.
use robo_control.Prelude.{◌≡◌, String, Option, some, List, [], ◌∷◌, ◌++◌}
use robo_control.Migrations.Schema.{Op, Revision}
use robo_control.Migrations.InitialSchema.{initial_schema}
use robo_control.Migrations.WebhookLog.{webhook_log}
use robo_control.Migrations.SystemConfig.{system_config}

-- The revisions, each after the one that it names as its `down_revision`.
abbrev pub history : List Revision
history = initial_schema ∷ webhook_log ∷ system_config ∷ []

abbrev pub IsChain : Option String → List Revision → Type 0
IsChain parent [] = Unit
IsChain parent (r ∷ rs) = (r.down_revision ≡ parent) × IsChain (some r.revision) rs

abbrev pub upgrades : List Revision → List Op
upgrades [] = []
upgrades (r ∷ rs) = r.upgrade ++ upgrades rs

abbrev pub downgrades : List Revision → List Op
downgrades [] = []
downgrades (r ∷ rs) = downgrades rs ++ r.downgrade
