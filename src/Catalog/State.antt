-- ===== src/Catalog/State.antt =====
-- What the methods of services/metadata-service/app/services/metadata_service.py share: the four tables, and what
-- was asked of Glue and recorded by the metrics.
use dhp.Prelude.{String, Bool, List, ◌++◌, str_eq}
use dhp.Catalog.{CatalogDatabase, CatalogTable, TableSnapshot, SchemaHistory}
use dhp.Catalog.Glue.{GlueCatalogClient, GlueRequest, Sync}

-- The counters and gauges of metrics.py.
pub data Metric : Type 0 where
  written : String → String → Metric
  databases_inc databases_dec tables_inc tables_dec : Metric
  glue_sync : Sync → Metric

-- The tables, and what was asked of Glue and recorded by the metrics, newest first.
pub record Catalog : Type 0 where
  pub databases : List CatalogDatabase
  pub tables : List CatalogTable
  pub snapshots : List TableSnapshot
  pub history : List SchemaHistory
  pub glue : GlueCatalogClient
  pub requests : List GlueRequest
  pub metrics : List Metric

-- A method returns a value, returns `None` or `False`, or raises where a constraint is violated.
pub data Result (A : Type 0) : Type 0 where
  returns : A → Result A
  absent raises : Result A

-- The keys.
abbrev pub db_id_of : CatalogDatabase → String
db_id_of d = d.db_id

abbrev pub db_name_of : CatalogDatabase → String
db_name_of d = d.db_name

abbrev pub table_id_of : CatalogTable → String
table_id_of t = t.table_id

abbrev pub record_metrics : List Metric → Catalog → Catalog
record_metrics ms c = record c { metrics = ms ++ c.metrics }

-- The tables of a database.
abbrev pub in_database : String → CatalogTable → Bool
in_database i t = str_eq t.db_id i
