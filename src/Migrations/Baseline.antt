-- ===== src/Migrations/Baseline.antt =====
-- db/migrations/versions/0001_baseline.py: its statements.
use dhp.Prelude.{format, true, none, List, [], ◌∷◌, ◌++◌, String}
use dhp.Migrations.{
  Trigger, Function, Statement, create_extension, create_table, create_index, create_function,
  create_trigger, drop_trigger, drop_function, drop_table, Migration,
}
use dhp.Migrations.JobTables.{jobs, job_log_refs}
use dhp.Migrations.CatalogTables.{
  catalog_databases, catalog_tables, table_snapshots, schema_history,
}

-- The statements of the loop over the indexes.
abbrev pub baseline_indexes : List Statement
baseline_indexes =
    create_index (record {
      name = "idx_jobs_status";
      table = "jobs";
      columns = "status" ∷ [];
      condition = none;
    })
    ∷ create_index (record {
      name = "idx_jobs_submitted_by";
      table = "jobs";
      columns = "submitted_by" ∷ [];
      condition = none;
    })
    ∷ create_index (record {
      name = "idx_jobs_submitted_at";
      table = "jobs";
      columns = "submitted_at" ∷ [];
      condition = none;
    })
    ∷ create_index (record {
      name = "idx_jobs_job_type";
      table = "jobs";
      columns = "job_type" ∷ [];
      condition = none;
    })
    ∷ create_index (record {
      name = "idx_job_log_refs_job_id";
      table = "job_log_refs";
      columns = "job_id" ∷ [];
      condition = none;
    })
    ∷ create_index (record {
      name = "idx_catalog_tables_db_id";
      table = "catalog_tables";
      columns = "db_id" ∷ [];
      condition = none;
    })
    ∷ create_index (record {
      name = "idx_table_snapshots_table_id";
      table = "table_snapshots";
      columns = "table_id" ∷ [];
      condition = none;
    })
    ∷ create_index (record {
      name = "idx_schema_history_table_id";
      table = "schema_history";
      columns = "table_id" ∷ [];
      condition = none;
    })
    ∷ []

abbrev pub update_updated_at_column : Function
update_updated_at_column = record {
  name = "update_updated_at_column";
  body = "BEGIN NEW.updated_at = NOW(); RETURN NEW; END;";
}

-- The trigger that the loops name after its table.
abbrev updated_at : String → Trigger
updated_at table = record {
  name = format ("update_" ∷ table ∷ "_updated_at" ∷ []);
  table = table;
  function = update_updated_at_column.name;
}

abbrev drop_updated_at : String → Statement
drop_updated_at table = drop_trigger (updated_at table).name table

abbrev pub baseline : Migration
baseline = record {
  revision = "0001";
  down_revision = none;
  upgrade =
      create_extension "uuid-ossp"
      ∷ create_table jobs
      ∷ create_table job_log_refs
      ∷ create_table catalog_databases
      ∷ create_table catalog_tables
      ∷ create_table table_snapshots
      ∷ create_table schema_history
      ∷ (baseline_indexes
          ++ create_function update_updated_at_column
            ∷ create_trigger (updated_at "jobs")
            ∷ create_trigger (updated_at "catalog_databases")
            ∷ create_trigger (updated_at "catalog_tables")
            ∷ []);
  downgrade =
      drop_updated_at "jobs"
      ∷ drop_updated_at "catalog_databases"
      ∷ drop_updated_at "catalog_tables"
      ∷ drop_function update_updated_at_column.name
      ∷ drop_table "schema_history" true
      ∷ drop_table "table_snapshots" true
      ∷ drop_table "catalog_tables" true
      ∷ drop_table "catalog_databases" true
      ∷ drop_table "job_log_refs" true
      ∷ drop_table "jobs" true
      ∷ [];
}
