-- ===== src/Migrations/ScheduledJobs.antt =====
-- db/migrations/versions/0002_scheduled_jobs.py.
use dhp.Prelude.{false, some, [], ◌∷◌}
use dhp.Migrations.{
  primary_key, not_null, unique, default_to, column, Table, create_table, create_index, drop_table,
  drop_index, Migration,
}

abbrev pub scheduled_jobs : Table
scheduled_jobs = record {
  name = "scheduled_jobs";
  columns =
      column "schedule_id" "UUID" (primary_key ∷ default_to "uuid_generate_v4()" ∷ [])
      ∷ column "name" "VARCHAR(255)" (not_null ∷ unique ∷ [])
      ∷ column "cron_expression" "VARCHAR(255)" (not_null ∷ [])
      ∷ column "timezone" "VARCHAR(64)" (not_null ∷ default_to "'UTC'" ∷ [])
      ∷ column "job_template" "JSONB" (not_null ∷ [])
      ∷ column "enabled" "BOOLEAN" (not_null ∷ default_to "TRUE" ∷ [])
      ∷ column "last_run_at" "TIMESTAMPTZ" []
      ∷ column "last_run_job_id" "UUID" []
      ∷ column "next_run_at" "TIMESTAMPTZ" (not_null ∷ [])
      ∷ column "created_by" "VARCHAR(255)" []
      ∷ column "created_at" "TIMESTAMPTZ" (not_null ∷ default_to "NOW()" ∷ [])
      ∷ column "updated_at" "TIMESTAMPTZ" (not_null ∷ default_to "NOW()" ∷ [])
      ∷ [];
  uniques = [];
}

abbrev pub scheduled : Migration
scheduled = record {
  revision = "0002";
  down_revision = some "0001";
  upgrade =
      create_table scheduled_jobs
      ∷ create_index (record {
        name = "ix_scheduled_jobs_due";
        table = "scheduled_jobs";
        columns = "next_run_at" ∷ [];
        condition = some "enabled = TRUE";
      })
      ∷ [];
  downgrade = drop_index "ix_scheduled_jobs_due" ∷ drop_table "scheduled_jobs" false ∷ [];
}
