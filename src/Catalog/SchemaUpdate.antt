-- ===== src/Catalog/SchemaUpdate.antt =====
-- services/metadata-service/app/services/metadata_service.py: `update_table`, which changes a table's schema
-- and records the change.
use dhp.Prelude.{
  ℕ, ◌+◌, leb, String, Option, none, some, List, [], ◌∷◌, ◌++◌, if◌then◌else◌, keep, join,
}
use dhp.Prelude.Dict.{merge}
use dhp.Prelude.Rows.{save}
use dhp.Catalog.{ColumnSchema, TableUpdateRequest, CatalogTable, SchemaHistory, TableResponse}
use dhp.Catalog.Columns.{contents, evolve}
use dhp.Catalog.Service.{
  Catalog, written, table_id_of, record_metrics, is_of, find_table, table_response,
}

-- What SQLAlchemy writes to a JSON column when it flushes: from what the object that was loaded holds
-- now, what the attribute holds now, and the stored value.
abbrev pub Flush : Type 0
Flush = List ColumnSchema → List ColumnSchema → List ColumnSchema → List ColumnSchema

abbrev pub max_version : List SchemaHistory → ℕ
max_version [] = 0
max_version (h ∷ hs) = let m = max_version hs in if leb h.version m then m else h.version

-- `update_table` on the row it has found: what the session's object holds after it.
abbrev pub updated : TableUpdateRequest → CatalogTable → CatalogTable
updated q t = record t {
  fields = contents (evolve t.fields q).fields;
  properties = elim q.properties [ none ↦ t.properties | some p ↦ merge t.properties p ];
  description = elim q.description [ none ↦ t.description | some text ↦ some text ];
}

-- The row that is stored. A plain value is written when it differs, so that it is the object's.
abbrev pub stored : Flush → TableUpdateRequest → CatalogTable → CatalogTable
stored flush q t = record (updated q t) {
  fields =
      flush (contents (evolve t.fields q).loaded) (contents (evolve t.fields q).fields) t.fields;
}

-- The versions of one table.
abbrev pub versions_of : String → List SchemaHistory → List SchemaHistory
versions_of i = keep (is_of i)

abbrev pub next_version : TableUpdateRequest → CatalogTable → List SchemaHistory → SchemaHistory
next_version q t hs = record {
  table_id = t.table_id;
  version = max_version (versions_of t.table_id hs) + 1;
  fields = contents (evolve t.fields q).fields;
  change_summary = join "; " (evolve t.fields q).changes;
  changed_by = q.changed_by;
}

-- "Record schema change"
abbrev pub recorded : TableUpdateRequest → CatalogTable → List SchemaHistory → List SchemaHistory
recorded q t hs = elim (evolve t.fields q).changes [
  | [] ↦ hs
  | change ∷ more ↦ hs ++ next_version q t hs ∷ []
]

-- `update_table`: its last line reads the row back in the same session, which has the object.
unfoldable pub update_table :
    Flush → String → String → TableUpdateRequest → Catalog → Option TableResponse × Catalog
update_table flush db_name table_name q c = elim (find_table db_name table_name c) [
  | none ↦ (none, c)
  | some t ↦ (
    some (table_response db_name (updated q t)),
    record_metrics (written "table" "update" ∷ []) (record c {
      tables = save table_id_of (stored flush q t) c.tables;
      history = recorded q t c.history;
    }),
  )
]
