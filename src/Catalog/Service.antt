-- ===== src/Catalog/Service.antt =====
-- services/metadata-service/app/services/metadata_service.py: `MetadataService` over the catalog's four
-- tables, Glue and the metrics. Fresh ids, Glue's answers and the orders of the database are arguments.
use dhp.Prelude.{
  ◌&&◌, ◌||◌, not, String, Bool, true, false, Option, none, some, List, [], ◌∷◌, ◌++◌, map, str_eq,
  if◌then◌else◌, is_some, keep, count, length, format,
}
use dhp.Prelude.Rows.{find, remove}
use dhp.Catalog.{
  DatabaseCreateRequest, TableCreateRequest, CatalogDatabase, CatalogTable, TableSnapshot,
  SchemaHistory, DatabaseResponse, TableResponse, DatabaseListResponse, TableListResponse,
  SnapshotListResponse,
}
use dhp.Catalog.Glue.{GlueAnswer, GlueRequest, Sync, register_table, drop_table as drop_entry}
pub use dhp.Catalog.State.{
  Metric, Catalog, Result, db_id_of, db_name_of, table_id_of, record_metrics, in_database, written,
  databases_inc, databases_dec, tables_inc, tables_dec, glue_sync, returns, absent, raises,
}

abbrev pub database_response : Catalog → CatalogDatabase → DatabaseResponse
database_response c d = record {
  db_id = d.db_id;
  db_name = d.db_name;
  location = d.location;
  owner = d.owner;
  description = d.description;
  properties = d.properties;
  table_count = count (in_database d.db_id) c.tables;
}

-- `create_database`: raises where the name (or the fresh id) is in use. A new database has no tables.
unfoldable pub create_database :
    String → String → DatabaseCreateRequest → Catalog → Result DatabaseResponse × Catalog
create_database bucket db_id q c =
    let d : CatalogDatabase = record {
      db_id = db_id;
      db_name = q.db_name;
      location = format ("s3://" ∷ bucket ∷ "/" ∷ q.db_name ∷ "/" ∷ []);
      owner = q.owner;
      description = q.description;
      properties = q.properties;
    } in
    if is_some (find db_name_of q.db_name c.databases) || is_some (find db_id_of db_id c.databases)
    then (raises, c)
    else (
      returns (record (database_response c d) { table_count = 0 }),
      record_metrics (databases_inc ∷ written "database" "create" ∷ [])
          (record c { databases = c.databases ++ d ∷ [] }),
    )

unfoldable pub get_database : String → Catalog → Option DatabaseResponse
get_database db_name c = elim (find db_name_of db_name c.databases) [
  | none ↦ none
  | some d ↦ some (database_response c d)
]

-- `order` is `ORDER BY db_name`.
unfoldable pub list_databases :
    (List CatalogDatabase → List CatalogDatabase) → Catalog → DatabaseListResponse
list_databases order c =
    let ds = map (database_response c) (order c.databases) in
    record { total = length ds; databases = ds }

-- The rows of a table that is deleted go with it: snapshots by the ORM's cascade, the history by the
-- foreign key's.
abbrev pub is_of : String → SchemaHistory → Bool
is_of i h = str_eq h.table_id i

abbrev pub delete_table : CatalogTable → Catalog → Catalog
delete_table t c = record c {
  tables = remove table_id_of t.table_id c.tables;
  snapshots = keep (λ s. not (str_eq s.table_id t.table_id)) c.snapshots;
  history = keep (λ h. not (is_of t.table_id h)) c.history;
}

abbrev pub delete_tables : List CatalogTable → Catalog → Catalog
delete_tables [] c = c
delete_tables (t ∷ ts) c = delete_tables ts (delete_table t c)

-- `drop_database`: the tables go by the cascade of the relationship.
unfoldable pub drop_database : String → Catalog → Bool × Catalog
drop_database db_name c = elim (find db_name_of db_name c.databases) [
  | none ↦ (false, c)
  | some d ↦
      let c' = delete_tables (keep (in_database d.db_id) c.tables) c in
      (
        true,
        record_metrics (databases_dec ∷ written "database" "drop" ∷ [])
            (record c' { databases = remove db_id_of d.db_id c'.databases }),
      )
]

abbrev pub table_response : String → CatalogTable → TableResponse
table_response db_name t = record {
  table_id = t.table_id;
  db_name = db_name;
  table_name = t.table_name;
  table_type = t.table_type;
  location = t.location;
  fields = t.fields;
  partition_spec = t.partition_spec;
  sort_order = t.sort_order;
  current_snapshot_id = t.current_snapshot_id;
  properties = t.properties;
  description = t.description;
}

-- `where(db_id = i).where(table_name = n)`
abbrev pub table_in : String → String → List CatalogTable → Option CatalogTable
table_in i n [] = none
table_in i n (t ∷ ts) =
    if str_eq t.db_id i && str_eq t.table_name n then some t else table_in i n ts

-- The join of `get_table` and of the methods on one table.
abbrev pub find_table : String → String → Catalog → Option CatalogTable
find_table db_name table_name c = elim (find db_name_of db_name c.databases) [
  | none ↦ none
  | some d ↦ table_in d.db_id table_name c.tables
]

-- The name of a table's entry in Glue.
abbrev pub entry_name : String → String → String
entry_name db_name table_name = format (db_name ∷ "__" ∷ table_name ∷ [])

-- The outcome of a call of the Glue client, which never raises.
abbrev pub written_through : Option GlueRequest × Sync → Catalog → Catalog
written_through (request, s) c = record c {
  requests = elim request [ none ↦ c.requests | some r ↦ r ∷ c.requests ];
  metrics = glue_sync s ∷ c.metrics;
}

abbrev pub new_table : String → CatalogDatabase → TableCreateRequest → CatalogTable
new_table table_id d q = record {
  table_id = table_id;
  db_id = d.db_id;
  table_name = q.table_name;
  table_type = q.table_type;
  location = format (d.location ∷ q.table_name ∷ "/" ∷ []);
  fields = q.schema_fields;
  partition_spec = q.partition_spec;
  sort_order = q.sort_order;
  current_snapshot_id = none;
  properties = q.properties;
  description = q.description;
}

abbrev pub initial_version : CatalogTable → SchemaHistory
initial_version t = record {
  table_id = t.table_id;
  version = 1;
  fields = t.fields;
  change_summary = "Initial schema creation";
  changed_by = none;
}

-- `create_table`: raises where the database has a table of the name (or the fresh id is in use).
unfoldable pub create_table :
    String → GlueAnswer → String → TableCreateRequest → Catalog → Result TableResponse × Catalog
create_table table_id answer db_name q c = elim (find db_name_of db_name c.databases) [
  | none ↦ (absent, c)
  | some d ↦
      let t = new_table table_id d q in
      let c' =
        record_metrics (tables_inc ∷ written "table" "create" ∷ []) (record c {
          tables = c.tables ++ t ∷ [];
          history = c.history ++ initial_version t ∷ [];
        }) in
      let entry = register_table c.glue answer (entry_name db_name q.table_name) t.location none in
      if is_some (table_in d.db_id q.table_name c.tables)
        || is_some (find table_id_of table_id c.tables)
      then (raises, c)
      else (returns (table_response db_name t), written_through entry c')
]

unfoldable pub get_table : String → String → Catalog → Option TableResponse
get_table db_name table_name c = elim (find_table db_name table_name c) [
  | none ↦ none
  | some t ↦ some (table_response db_name t)
]

-- `order` is `ORDER BY table_name`.
unfoldable pub list_tables :
    (List CatalogTable → List CatalogTable) → String → Catalog → Option TableListResponse
list_tables order db_name c = elim (find db_name_of db_name c.databases) [
  | none ↦ none
  | some d ↦
      let ts = order (keep (in_database d.db_id) c.tables) in
      some
        (record { total = length ts; db_name = db_name; tables = map (table_response db_name) ts })
]

-- `drop_table`
unfoldable pub drop_table : GlueAnswer → String → String → Catalog → Bool × Catalog
drop_table answer db_name table_name c = elim (find_table db_name table_name c) [
  | none ↦ (false, c)
  | some t ↦ (
    true,
    written_through (drop_entry c.glue answer (entry_name db_name table_name))
        (record_metrics (tables_dec ∷ written "table" "drop" ∷ []) (delete_table t c)),
  )
]

-- `get_table_snapshots`; `order` is `ORDER BY created_at DESC`.
unfoldable pub get_table_snapshots :
    (List TableSnapshot → List TableSnapshot)
    → String
    → String
    → Catalog
    → Option SnapshotListResponse
get_table_snapshots order db_name table_name c = elim (find_table db_name table_name c) [
  | none ↦ none
  | some t ↦
      let ss = order (keep (λ s. str_eq s.table_id t.table_id) c.snapshots) in
      some (record { total = length ss; table_name = table_name; snapshots = ss })
]
