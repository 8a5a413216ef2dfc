-- ===== src/Migrations/JobTables.antt =====
-- db/migrations/versions/0001_baseline.py: the tables of the jobs.
use dhp.Prelude.{[], ◌∷◌}
use dhp.Migrations.{primary_key, not_null, default_to, one_of, references, column, Table}

abbrev pub jobs : Table
jobs = record {
  name = "jobs";
  columns =
      column "job_id" "UUID" (primary_key ∷ default_to "uuid_generate_v4()" ∷ [])
      ∷ column "job_name" "VARCHAR(255)" (not_null ∷ [])
      ∷ column "job_type" "VARCHAR(50)"
          (not_null ∷ one_of ("spark_sql" ∷ "spark_etl" ∷ "spark_ml" ∷ "spark_streaming" ∷ []) ∷ [])
      ∷ column "status" "VARCHAR(20)" (
          default_to "'PENDING'"
          ∷ one_of (
              "PENDING" ∷ "QUEUED" ∷ "PROVISIONING" ∷ "RUNNING" ∷ "SUCCESS" ∷ "FAILED" ∷ "CANCELLED"
              ∷ "DEAD" ∷ [])
          ∷ [])
      ∷ column "spark_config" "JSONB" (default_to "'{}'" ∷ [])
      ∷ column "entrypoint" "TEXT" (not_null ∷ [])
      ∷ column "arguments" "JSONB" (default_to "'[]'" ∷ [])
      ∷ column "database_name" "VARCHAR(255)" []
      ∷ column "table_name" "VARCHAR(255)" []
      ∷ column "container_id" "VARCHAR(255)" []
      ∷ column "submitted_by" "VARCHAR(255)" (not_null ∷ [])
      ∷ column "submitted_at" "TIMESTAMP WITH TIME ZONE" (default_to "NOW()" ∷ [])
      ∷ column "started_at" "TIMESTAMP WITH TIME ZONE" []
      ∷ column "completed_at" "TIMESTAMP WITH TIME ZONE" []
      ∷ column "error_message" "TEXT" []
      ∷ column "retry_count" "INT" (default_to "0" ∷ [])
      ∷ column "max_retries" "INT" (default_to "3" ∷ [])
      ∷ column "created_at" "TIMESTAMP WITH TIME ZONE" (default_to "NOW()" ∷ [])
      ∷ column "updated_at" "TIMESTAMP WITH TIME ZONE" (default_to "NOW()" ∷ [])
      ∷ [];
  uniques = [];
}

abbrev pub job_log_refs : Table
job_log_refs = record {
  name = "job_log_refs";
  columns =
      column "id" "UUID" (primary_key ∷ default_to "uuid_generate_v4()" ∷ [])
      ∷ column "job_id" "UUID" (not_null ∷ references "jobs" "job_id" ∷ [])
      ∷ column "log_stream_id" "VARCHAR(255)" []
      ∷ column "log_source" "VARCHAR(50)"
          (not_null ∷ one_of ("stdout" ∷ "stderr" ∷ "driver" ∷ "executor" ∷ []) ∷ [])
      ∷ column "created_at" "TIMESTAMP WITH TIME ZONE" (default_to "NOW()" ∷ [])
      ∷ [];
  uniques = ("job_id" ∷ "log_source" ∷ []) ∷ [];
}
