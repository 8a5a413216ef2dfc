-- ===== src/Catalog/Router.antt =====
-- services/metadata-service/app/routers/databases.py and tables.py: the endpoints that change the
-- catalog, and their errors. The bounds and patterns of the requests' fields are not modelled.
use dhp.Prelude.{
  String, Bool, true, false, Option, none, some, List, [], ◌∷◌, if◌then◌else◌, keep, map,
}
use dhp.Prelude.Rows.{find}
use dhp.Http.{Reply, ok, error}
use dhp.Catalog.{
  DatabaseCreateRequest, TableCreateRequest, TableUpdateRequest, DatabaseResponse, TableResponse,
  CatalogTable,
}
use dhp.Catalog.Glue.{GlueAnswer, enabled, register_table}
use dhp.Catalog.Service.{
  Catalog, Result, returns, absent, raises, db_name_of, in_database, entry_name, written_through,
  create_database, drop_database, create_table, drop_table,
}
use dhp.Catalog.SchemaUpdate.{Flush, update_table}

-- 409 where the name is in use: the message of the violated constraint holds "unique" or "duplicate".
abbrev pub database_reply : Result DatabaseResponse → Reply DatabaseResponse
database_reply (returns r) = ok r
database_reply absent = error 500
database_reply raises = error 409

abbrev pub table_reply : Result TableResponse → Reply TableResponse
table_reply (returns r) = ok r
table_reply absent = error 404
table_reply raises = error 500

abbrev pub or_404 {ℓ} : {A : Type ℓ} → Option A → Reply A
or_404 none = error 404
or_404 (some a) = ok a

abbrev pub dropped : Bool → Reply {0} Unit
dropped true = ok tt
dropped false = error 404

-- `sync_glue` sends every table of the database to Glue and reports their names.
abbrev pub register_all : (String → GlueAnswer) → String → List CatalogTable → Catalog → Catalog
register_all answers db_name [] c = c
register_all answers db_name (t ∷ ts) c = register_all answers db_name ts (
    written_through
      (register_table c.glue (answers t.table_name) (entry_name db_name t.table_name) t.location
        none)
      c)

unfoldable pub sync_glue : (String → GlueAnswer) → String → Catalog → Reply (List String) × Catalog
sync_glue answers db_name c =
    if enabled c.glue
    then elim (find db_name_of db_name c.databases) [
      | none ↦ (error 404, c)
      | some d ↦
          let ts = keep (in_database d.db_id) c.tables in
          (ok (map (λ t. t.table_name) ts), register_all answers db_name ts c)
    ]
    else (error 400, c)

-- A request that may change the catalog, with what its environment answers.
pub data Call : Type 0 where
  post_database : String → String → DatabaseCreateRequest → Call
  delete_database : String → Call
  post_table : String → GlueAnswer → String → TableCreateRequest → Call
  put_table : String → String → TableUpdateRequest → Call
  delete_table : GlueAnswer → String → String → Call
  post_sync : (String → GlueAnswer) → String → Call

pub data Answer : Type 0 where
  database : Reply DatabaseResponse → Answer
  table : Reply TableResponse → Answer
  deleted : Reply {0} Unit → Answer
  synced : Reply (List String) → Answer

unfoldable pub endpoint : Flush → Call → Catalog → Answer × Catalog
endpoint flush (post_database bucket i q) c =
    let (r, c') = create_database bucket i q c in (database (database_reply r), c')
endpoint flush (delete_database n) c = let (r, c') = drop_database n c in (deleted (dropped r), c')
endpoint flush (post_table i answer n q) c =
    let (r, c') = create_table i answer n q c in (table (table_reply r), c')
endpoint flush (put_table n m q) c =
    let (r, c') = update_table flush n m q c in (table (or_404 r), c')
endpoint flush (delete_table answer n m) c =
    let (r, c') = drop_table answer n m c in (deleted (dropped r), c')
endpoint flush (post_sync answers n) c = let (r, c') = sync_glue answers n c in (synced r, c')

unfoldable pub serve : Flush → List Call → Catalog → Catalog
serve flush [] c = c
serve flush (q ∷ qs) c = serve flush qs (endpoint flush q c).1
