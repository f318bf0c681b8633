-- ===== src/Tests/Migrating.antt =====
-- The migrations on a database that is its tables, with one table of another program.
use robo_control.Prelude.{
  ◌≡◌, refl, String, false, none, some, [], ◌∷◌, ◌++◌, All, is_in, if◌then◌else◌,
}
use robo_control.Listing.{take, drop}
use robo_control.Migrations.Schema.{string, Tables, Alembic, column, effect, put, run}
use robo_control.Migrations.Models.{Model, metadata, models}
use robo_control.Migrations.History.{history, IsChain, upgrades, downgrades}
use robo_control.Migrations.Compared.{table_names, IsSame}
use robo_control.Migrations.Runs.{upgrades-models, downgrades-upgrades, downgrade-upgrade}

abbrev in_memory : Alembic
in_memory = record {
  Database = Tables;
  tables = λ v. v;
  perform = effect;
  documented = λ o d v h. (v, h, refl);
}

abbrev others : Tables
others =
    put "alembic_version"
      (record { columns = column "version_num" (string 32) false ∷ []; indexes = [] }) (λ n. none)

upgrades-models_example :
    IsChain none history
    × ((e : Tables) × (run in_memory (upgrades history) others ≡ some e)
        × All (λ (m : Model). IsSame (e m.table_name) (some (metadata m))) models
        × ((n : String) → e n ≡ (if is_in n table_names then e n else others n)))
upgrades-models_example = upgrades-models in_memory others (refl, refl, refl, refl)

downgrades-upgrades_example :
    (e : Tables) × (run in_memory (upgrades history ++ downgrades history) others ≡ some e)
    × (e ≡ others)
downgrades-upgrades_example = downgrades-upgrades in_memory others (refl, refl, refl, refl)

downgrade-upgrade_example :
    (e f : Tables) × (run in_memory (upgrades (take 1 history)) others ≡ some e)
    × (run in_memory (upgrades (take 1 (drop 1 history)) ++ downgrades (take 1 (drop 1 history))) e
        ≡ some f)
    × ((m : String) → IsSame (f m) (e m))
downgrade-upgrade_example = downgrade-upgrade in_memory others (refl, refl, refl, refl) 1
