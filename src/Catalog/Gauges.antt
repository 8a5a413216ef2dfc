-- ===== src/Catalog/Gauges.antt =====
-- The gauges of databases and tables: `_seed_catalog_gauges` of services/metadata-service/app/main.py sets them at
-- the start from the rows, and the requests move them.
use dhp.Prelude.{ℕ, ◌+◌, Bool, true, false, List, [], ◌∷◌, ◌≡◌, refl, arith, length, count}
use dhp.Catalog.Service.{Catalog}
use dhp.Catalog.SchemaUpdate.{Flush}
use dhp.Catalog.Router.{Call, endpoint, serve}
use dhp.Catalog.Versions.{IsVersioned}
use dhp.Catalog.Drop.{is_inc, is_dec, is_database_inc, is_database_dec}
use dhp.Catalog.History.{endpoint-IsVersioned}
use dhp.Catalog.Tally.{cascaded, Tally, Tally-refl, endpoint-Tally}

pub record Gauges : Type 0 where
  pub databases : ℕ
  pub tables : ℕ

-- `_seed_catalog_gauges`; where the database cannot be read the gauges stay.
unfoldable pub seed_catalog_gauges : Bool → Catalog → Gauges → Gauges
seed_catalog_gauges true c g = record { databases = length c.databases; tables = length c.tables }
seed_catalog_gauges false c g = g

unfoldable pub all_cascaded : Flush → List Call → Catalog → ℕ
all_cascaded flush [] c = 0
all_cascaded flush (q ∷ qs) c = cascaded q c + all_cascaded flush qs (endpoint flush q c).1

serve-Tally :
    (flush : Flush) (qs : List Call) (c : Catalog)
    → IsVersioned c
    → Tally c (serve flush qs c) (all_cascaded flush qs c)
unfolding serve all_cascaded
serve-Tally flush [] c v = Tally-refl c
serve-Tally flush (q ∷ qs) c v =
    let first = endpoint-Tally flush q c v in
    let rest = serve-Tally flush qs (endpoint flush q c).1 (endpoint-IsVersioned flush q c v) in
    record {
      tables = omega (arith, first.tables, rest.tables);
      databases = omega (arith, first.databases, rest.databases);
    }

-- A service starts, reads the rows and sets the gauges, and serves any requests: from then on the gauge of
-- databases, which is its start value, and one more or less for each change that was recorded, is the
-- number of databases, and the gauge of tables is the number of tables and all that went with a
-- dropped database since the start. This holds for a catalog with gapless histories and
-- distinct table ids.
pub gauges_follow :
    (flush : Flush) (qs : List Call) (c : Catalog) (g : Gauges)
    → IsVersioned c
    → c.metrics ≡ []
    → let c' = serve flush qs c in
      let start = seed_catalog_gauges true c g in
      (start.databases + count is_database_inc c'.metrics
        ≡ length c'.databases + count is_database_dec c'.metrics)
      × (start.tables + count is_inc c'.metrics
          ≡ length c'.tables + all_cascaded flush qs c + count is_dec c'.metrics)
unfolding seed_catalog_gauges
gauges_follow flush qs c g v fresh =
    let t = serve-Tally flush qs c v in
    let incs : count is_inc c.metrics ≡ 0 = rw fresh refl in
    let decs : count is_dec c.metrics ≡ 0 = rw fresh refl in
    let more : count is_database_inc c.metrics ≡ 0 = rw fresh refl in
    let less : count is_database_dec c.metrics ≡ 0 = rw fresh refl in
    (omega (arith, t.databases, more, less), omega (arith, t.tables, incs, decs))
