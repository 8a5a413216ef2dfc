-- ===== src/Catalog/Queries.antt =====
-- services/metadata-service/app/routers/databases.py and tables.py: the endpoints that read the catalog. The
-- orders of the listings are arguments.
use dhp.Prelude.{String, List}
use dhp.Http.{Reply, ok}
use dhp.Catalog.{
  DatabaseResponse, DatabaseListResponse, TableResponse, TableListResponse, SnapshotListResponse,
  CatalogDatabase, CatalogTable, TableSnapshot,
}
use dhp.Catalog.Service.{Catalog}
use dhp.Catalog.Service as MetadataService
use dhp.Catalog.Router.{or_404}

unfoldable list_databases :
    (List CatalogDatabase → List CatalogDatabase) → Catalog → Reply DatabaseListResponse
list_databases order c = ok (MetadataService.list_databases order c)

unfoldable get_database : String → Catalog → Reply DatabaseResponse
get_database db_name c = or_404 (MetadataService.get_database db_name c)

unfoldable list_tables :
    (List CatalogTable → List CatalogTable) → String → Catalog → Reply TableListResponse
list_tables order db_name c = or_404 (MetadataService.list_tables order db_name c)

unfoldable get_table : String → String → Catalog → Reply TableResponse
get_table db_name table_name c = or_404 (MetadataService.get_table db_name table_name c)

unfoldable get_table_snapshots :
    (List TableSnapshot → List TableSnapshot)
    → String
    → String
    → Catalog
    → Reply SnapshotListResponse
get_table_snapshots order db_name table_name c =
    or_404 (MetadataService.get_table_snapshots order db_name table_name c)
