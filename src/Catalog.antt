-- ===== src/Catalog.antt =====
-- The data of the metadata service: services/metadata-service/app/models.py and db/models.py. A schema
-- is the list under the key "fields" of its JSON object, whose other key is always "type": "struct".
-- Time stamps that the database sets are left out.
pub mod Columns
pub mod Glue
pub mod State
pub mod Service
pub mod SchemaUpdate
pub mod Router
pub mod Versions
pub mod History
pub mod Schema
pub mod Update
pub mod Drop
pub mod Tally
pub mod Gauges
mod Queries
mod Tests
use dhp.Prelude.{ℕ, String, Bool, Option, List}
use dhp.Prelude.Int.{ℤ}
use dhp.Prelude.Dict.{Dict}
use dhp.Json.{Json}

pub record ColumnSchema : Type 0 where
  pub name : String
  pub type : String
  pub nullable : Bool
  pub description : Option String

pub record DatabaseCreateRequest : Type 0 where
  pub db_name : String
  pub owner : Option String
  pub description : Option String
  pub properties : Dict Json

pub record TableCreateRequest : Type 0 where
  pub table_name : String
  pub table_type : String
  pub schema_fields : List ColumnSchema
  pub partition_spec : List Json
  pub sort_order : List Json
  pub properties : Dict Json
  pub description : Option String

pub record TableUpdateRequest : Type 0 where
  pub add_columns : List ColumnSchema
  pub drop_columns : List String
  pub rename_columns : Dict String
  pub properties : Option (Dict Json)
  pub description : Option String
  pub changed_by : Option String

-- The rows of the four tables.
pub record CatalogDatabase : Type 0 where
  pub db_id : String
  pub db_name : String
  pub location : String
  pub owner : Option String
  pub description : Option String
  pub properties : Dict Json

pub record CatalogTable : Type 0 where
  pub table_id : String
  pub db_id : String
  pub table_name : String
  pub table_type : String
  pub location : String
  pub fields : List ColumnSchema
  pub partition_spec : List Json
  pub sort_order : List Json
  pub current_snapshot_id : Option ℤ
  pub properties : Dict Json
  pub description : Option String

pub record TableSnapshot : Type 0 where
  pub snapshot_id : ℤ
  pub table_id : String
  pub parent_id : Option ℤ
  pub operation : Option String
  pub manifest_list : Option String
  pub summary : Dict Json
  pub created_at : ℕ

pub record SchemaHistory : Type 0 where
  pub table_id : String
  pub version : ℕ
  pub fields : List ColumnSchema
  pub change_summary : String
  pub changed_by : Option String

pub record DatabaseResponse : Type 0 where
  pub db_id : String
  pub db_name : String
  pub location : String
  pub owner : Option String
  pub description : Option String
  pub properties : Dict Json
  pub table_count : ℕ

pub record TableResponse : Type 0 where
  pub table_id : String
  pub db_name : String
  pub table_name : String
  pub table_type : String
  pub location : String
  pub fields : List ColumnSchema
  pub partition_spec : List Json
  pub sort_order : List Json
  pub current_snapshot_id : Option ℤ
  pub properties : Dict Json
  pub description : Option String

pub record DatabaseListResponse : Type 0 where
  pub total : ℕ
  pub databases : List DatabaseResponse

pub record TableListResponse : Type 0 where
  pub total : ℕ
  pub db_name : String
  pub tables : List TableResponse

-- A snapshot's response has the columns of its row.
pub record SnapshotListResponse : Type 0 where
  pub total : ℕ
  pub table_name : String
  pub snapshots : List TableSnapshot
