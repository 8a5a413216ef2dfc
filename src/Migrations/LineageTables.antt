-- ===== src/Migrations/LineageTables.antt =====
-- db/migrations/versions/0003_lineage.py.
use dhp.Prelude.{false, none, some, [], ◌∷◌}
use dhp.Migrations.{
  primary_key, not_null, default_to, references, column, Table, create_table, create_index,
  drop_table, Migration,
}

abbrev pub lineage_runs : Table
lineage_runs = record {
  name = "lineage_runs";
  columns =
      column "run_id" "UUID" (primary_key ∷ [])
      ∷ column "job_namespace" "VARCHAR(255)" (not_null ∷ [])
      ∷ column "job_name" "VARCHAR(255)" (not_null ∷ [])
      ∷ column "dhp_job_id" "VARCHAR(255)" []
      ∷ column "state" "VARCHAR(32)" (not_null ∷ [])
      ∷ column "started_at" "TIMESTAMPTZ" []
      ∷ column "ended_at" "TIMESTAMPTZ" []
      ∷ column "facets" "JSONB" (not_null ∷ default_to "'{}'::jsonb" ∷ [])
      ∷ column "created_at" "TIMESTAMPTZ" (not_null ∷ default_to "NOW()" ∷ [])
      ∷ [];
  uniques = [];
}

abbrev pub lineage_datasets : Table
lineage_datasets = record {
  name = "lineage_datasets";
  columns =
      column "dataset_id" "UUID" (primary_key ∷ default_to "uuid_generate_v4()" ∷ [])
      ∷ column "namespace" "VARCHAR(512)" (not_null ∷ [])
      ∷ column "name" "VARCHAR(1024)" (not_null ∷ [])
      ∷ column "facets" "JSONB" (not_null ∷ default_to "'{}'::jsonb" ∷ [])
      ∷ column "created_at" "TIMESTAMPTZ" (not_null ∷ default_to "NOW()" ∷ [])
      ∷ column "updated_at" "TIMESTAMPTZ" (not_null ∷ default_to "NOW()" ∷ [])
      ∷ [];
  uniques = ("namespace" ∷ "name" ∷ []) ∷ [];
}

abbrev pub lineage_run_inputs : Table
lineage_run_inputs = record {
  name = "lineage_run_inputs";
  columns =
      column "id" "UUID" (primary_key ∷ default_to "uuid_generate_v4()" ∷ [])
      ∷ column "run_id" "UUID" (not_null ∷ references "lineage_runs" "run_id" ∷ [])
      ∷ column "dataset_id" "UUID" (not_null ∷ references "lineage_datasets" "dataset_id" ∷ [])
      ∷ [];
  uniques = ("run_id" ∷ "dataset_id" ∷ []) ∷ [];
}

abbrev pub lineage_run_outputs : Table
lineage_run_outputs = record {
  name = "lineage_run_outputs";
  columns =
      column "id" "UUID" (primary_key ∷ default_to "uuid_generate_v4()" ∷ [])
      ∷ column "run_id" "UUID" (not_null ∷ references "lineage_runs" "run_id" ∷ [])
      ∷ column "dataset_id" "UUID" (not_null ∷ references "lineage_datasets" "dataset_id" ∷ [])
      ∷ [];
  uniques = ("run_id" ∷ "dataset_id" ∷ []) ∷ [];
}

abbrev pub lineage : Migration
lineage = record {
  revision = "0003";
  down_revision = some "0002";
  upgrade =
      create_table lineage_runs
      ∷ create_index (record {
        name = "ix_lineage_runs_dhp_job_id";
        table = "lineage_runs";
        columns = "dhp_job_id" ∷ [];
        condition = none;
      })
      ∷ create_index (record {
        name = "ix_lineage_runs_job_ns_name";
        table = "lineage_runs";
        columns = "job_namespace" ∷ "job_name" ∷ [];
        condition = none;
      })
      ∷ create_table lineage_datasets
      ∷ create_table lineage_run_inputs
      ∷ create_index (record {
        name = "ix_lineage_run_inputs_run";
        table = "lineage_run_inputs";
        columns = "run_id" ∷ [];
        condition = none;
      })
      ∷ create_index (record {
        name = "ix_lineage_run_inputs_dataset";
        table = "lineage_run_inputs";
        columns = "dataset_id" ∷ [];
        condition = none;
      })
      ∷ create_table lineage_run_outputs
      ∷ create_index (record {
        name = "ix_lineage_run_outputs_run";
        table = "lineage_run_outputs";
        columns = "run_id" ∷ [];
        condition = none;
      })
      ∷ create_index (record {
        name = "ix_lineage_run_outputs_dataset";
        table = "lineage_run_outputs";
        columns = "dataset_id" ∷ [];
        condition = none;
      })
      ∷ [];
  downgrade =
      drop_table "lineage_run_outputs" false
      ∷ drop_table "lineage_run_inputs" false
      ∷ drop_table "lineage_datasets" false
      ∷ drop_table "lineage_runs" false
      ∷ [];
}
