-- ===== src/Migrations/Tests.antt =====
-- Runs of the migrations, and their theorems at a database of another program.
use dhp.Prelude.{map, get_or, true, false, some, [], ◌∷◌, ◌++◌, ◌≡◌, refl, take, drop}
use dhp.Job.{
  JobStatus, JobType, spark_sql, spark_etl, spark_ml, spark_streaming, pending, queued,
  provisioning, running, success, failed, cancelled, dead, value, type_value,
}
use dhp.Migrations.{primary_key, run, Schema, Table, column, run_all, passes, upgrades, downgrades}
use dhp.Migrations.JobTables.{jobs}
use dhp.Migrations.CatalogTables.{catalog_tables}
use dhp.Migrations.Downgrade.{chain, downgrade_restores}
use dhp.Migrations.Growth.{Grows}
use dhp.Migrations.Repeat.{upgrade_settles}

abbrev users : Table
users = record { name = "users"; columns = column "id" "UUID" [] ∷ []; uniques = [] }

abbrev other : Schema
other = record {
  extensions = "uuid-ossp" ∷ [];
  tables = users ∷ [];
  indexes = [];
  functions = [];
  triggers = [];
}

downgrade_restores_example :
    (x : Schema) × (run_all (upgrades (take 1 chain)) other ≡ some x)
    × (run_all (upgrades (drop 1 chain) ++ downgrades (drop 1 chain)) x ≡ some x)
unfolding upgrades downgrades
downgrade_restores_example = downgrade_restores 1 other refl

-- A table of the name of `lineage_datasets` that was there before, without the UNIQUE constraint that
-- the service relies on.
abbrev loose : Table
loose = record {
  name = "lineage_datasets";
  columns =
      column "dataset_id" "UUID" (primary_key ∷ [])
      ∷ column "namespace" "TEXT" []
      ∷ column "name" "TEXT" []
      ∷ [];
  uniques = [];
}

abbrev before : Schema
before = record other { tables = loose ∷ [] }

abbrev after : Schema
unfolding run run_all upgrades
after = get_or (run_all (upgrades (drop 2 chain)) before) before

upgrade_settles_example :
    Grows before after × (run_all (upgrades (drop 2 chain)) after ≡ some after)
unfolding run run_all upgrades
upgrade_settles_example = upgrade_settles 2 before after refl

after_test : map (λ t. t.uniques) (take 1 after.tables) ≡ [] ∷ []
unfolding after
after_test = refl

status_test : (s : JobStatus) → passes jobs "status" (value s) ≡ true
status_test pending = refl
status_test queued = refl
status_test provisioning = refl
status_test running = refl
status_test success = refl
status_test failed = refl
status_test cancelled = refl
status_test dead = refl

job_type_test : (t : JobType) → passes jobs "job_type" (type_value t) ≡ true
job_type_test spark_sql = refl
job_type_test spark_etl = refl
job_type_test spark_ml = refl
job_type_test spark_streaming = refl

-- The service takes any text for the type of a table, and the database does not.
table_type_test : passes catalog_tables "table_type" "CSV" ≡ false
table_type_test = refl
