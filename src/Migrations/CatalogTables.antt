-- ===== src/Migrations/CatalogTables.antt =====
-- db/migrations/versions/0001_baseline.py: the tables of the catalog.
use dhp.Prelude.{[], ◌∷◌}
use dhp.Migrations.{primary_key, not_null, unique, default_to, one_of, references, column, Table}

abbrev pub catalog_databases : Table
catalog_databases = record {
  name = "catalog_databases";
  columns =
      column "db_id" "UUID" (primary_key ∷ default_to "uuid_generate_v4()" ∷ [])
      ∷ column "db_name" "VARCHAR(255)" (unique ∷ not_null ∷ [])
      ∷ column "location" "TEXT" []
      ∷ column "owner" "VARCHAR(255)" []
      ∷ column "description" "TEXT" []
      ∷ column "properties" "JSONB" (default_to "'{}'" ∷ [])
      ∷ column "created_at" "TIMESTAMP WITH TIME ZONE" (default_to "NOW()" ∷ [])
      ∷ column "updated_at" "TIMESTAMP WITH TIME ZONE" (default_to "NOW()" ∷ [])
      ∷ [];
  uniques = [];
}

abbrev pub catalog_tables : Table
catalog_tables = record {
  name = "catalog_tables";
  columns =
      column "table_id" "UUID" (primary_key ∷ default_to "uuid_generate_v4()" ∷ [])
      ∷ column "db_id" "UUID" (not_null ∷ references "catalog_databases" "db_id" ∷ [])
      ∷ column "table_name" "VARCHAR(255)" (not_null ∷ [])
      ∷ column "table_type" "VARCHAR(50)"
          (default_to "'ICEBERG'" ∷ one_of ("ICEBERG" ∷ "DELTA" ∷ "HIVE" ∷ "PARQUET" ∷ []) ∷ [])
      ∷ column "location" "TEXT" []
      ∷ column "schema_json" "JSONB" (not_null ∷ [])
      ∷ column "partition_spec" "JSONB" (default_to "'[]'" ∷ [])
      ∷ column "sort_order" "JSONB" (default_to "'[]'" ∷ [])
      ∷ column "current_snapshot_id" "BIGINT" []
      ∷ column "properties" "JSONB" (default_to "'{}'" ∷ [])
      ∷ column "description" "TEXT" []
      ∷ column "created_at" "TIMESTAMP WITH TIME ZONE" (default_to "NOW()" ∷ [])
      ∷ column "updated_at" "TIMESTAMP WITH TIME ZONE" (default_to "NOW()" ∷ [])
      ∷ [];
  uniques = ("db_id" ∷ "table_name" ∷ []) ∷ [];
}

abbrev pub table_snapshots : Table
table_snapshots = record {
  name = "table_snapshots";
  columns =
      column "snapshot_id" "BIGINT" (primary_key ∷ [])
      ∷ column "table_id" "UUID" (not_null ∷ references "catalog_tables" "table_id" ∷ [])
      ∷ column "parent_id" "BIGINT" []
      ∷ column "operation" "VARCHAR(50)"
          (one_of ("append" ∷ "overwrite" ∷ "delete" ∷ "replace" ∷ []) ∷ [])
      ∷ column "manifest_list" "TEXT" []
      ∷ column "summary" "JSONB" (default_to "'{}'" ∷ [])
      ∷ column "created_at" "TIMESTAMP WITH TIME ZONE" (default_to "NOW()" ∷ [])
      ∷ [];
  uniques = [];
}

abbrev pub schema_history : Table
schema_history = record {
  name = "schema_history";
  columns =
      column "id" "UUID" (primary_key ∷ default_to "uuid_generate_v4()" ∷ [])
      ∷ column "table_id" "UUID" (not_null ∷ references "catalog_tables" "table_id" ∷ [])
      ∷ column "version" "INT" (not_null ∷ [])
      ∷ column "schema_json" "JSONB" (not_null ∷ [])
      ∷ column "change_summary" "TEXT" []
      ∷ column "changed_by" "VARCHAR(255)" []
      ∷ column "created_at" "TIMESTAMP WITH TIME ZONE" (default_to "NOW()" ∷ [])
      ∷ [];
  uniques = [];
}
