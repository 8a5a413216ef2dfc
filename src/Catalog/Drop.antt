-- ===== src/Catalog/Drop.antt =====
-- `drop_database`: the cascade, and the gauge of tables.
use dhp.Prelude.{
  ◌+◌, String, Bool, true, false, not, some, List, [], ◌∷◌, map, ◌≡◌, refl, arith, ◌∙◌, ap, keep,
  count, length, length-keep, eq_iff, eq_refl, Bool-cases, inl, inr,
}
use dhp.Prelude.Rows.{Distinct, mem, find, remove}
use dhp.Catalog.{CatalogDatabase, CatalogTable}
use dhp.Catalog.Service.{
  Catalog, Metric, databases_inc, databases_dec, tables_inc, tables_dec, db_id_of, table_id_of,
  db_name_of, in_database, delete_table, delete_tables, drop_database,
}
use dhp.Catalog.Versions.{IsVersioned}

-- The tables after a cascade, without the rest of the catalog.
abbrev remove_all : List CatalogTable → List CatalogTable → List CatalogTable
remove_all [] rows = rows
remove_all (t ∷ ts) rows = remove_all ts (remove table_id_of t.table_id rows)

tables-delete_tables :
    (ts : List CatalogTable) (c : Catalog) → (delete_tables ts c).tables ≡ remove_all ts c.tables
tables-delete_tables [] c = refl
tables-delete_tables (t ∷ ts) c = tables-delete_tables ts (delete_table t c)

pub metrics-delete_tables :
    (ts : List CatalogTable) (c : Catalog) → (delete_tables ts c).metrics ≡ c.metrics
metrics-delete_tables [] c = refl
metrics-delete_tables (t ∷ ts) c = metrics-delete_tables ts (delete_table t c)

module _ (p : CatalogTable → Bool) where
  mem-keep :
      (i : String) (rows : List CatalogTable)
      → mem i (map table_id_of rows) ≡ false
      → mem i (map table_id_of (keep p rows)) ≡ false
  mem-keep i [] e = refl
  mem-keep i (r ∷ rows) e = ground (arith, mem-keep i rows)

  remove_all-cons :
      (ts : List CatalogTable) (r : CatalogTable) (rows : List CatalogTable)
      → mem r.table_id (map table_id_of ts) ≡ false
      → remove_all ts (r ∷ rows) ≡ r ∷ remove_all ts rows
  remove_all-cons [] r rows e = refl
  remove_all-cons (t ∷ ts) r rows e = ground (
    arith,
    remove_all-cons ts r (remove table_id_of t.table_id rows),
    eq_iff t.table_id r.table_id,
    eq_iff r.table_id t.table_id,
  )

  -- To remove the rows that pass a test leaves the others.
  remove_all-keep :
      (rows : List CatalogTable)
      → Distinct (map table_id_of rows)
      → remove_all (keep p rows) rows ≡ keep (λ r. not (p r)) rows
  remove_all-keep [] d = refl
  remove_all-keep (r ∷ rows) d = elim (Bool-cases (p r)) [
    | inl e ↦
        let rest = remove_all-keep rows d.1 in
        let first : remove table_id_of r.table_id (r ∷ rows) ≡ rows =
          ground (arith, eq_refl r.table_id) in
        rw e (ap (remove_all (keep p rows)) first ∙ rest)
    | inr e ↦
        let rest = remove_all-keep rows d.1 in
        let first = remove_all-cons (keep p rows) r rows (mem-keep r.table_id rows d.0) in
        ground arith
  ]

abbrev pub is_inc : Metric → Bool
is_inc tables_inc = true
is_inc _ = false

abbrev pub is_dec : Metric → Bool
is_dec tables_dec = true
is_dec _ = false

abbrev pub is_database_inc : Metric → Bool
is_database_inc databases_inc = true
is_database_inc _ = false

abbrev pub is_database_dec : Metric → Bool
is_database_dec databases_dec = true
is_database_dec _ = false

count-not :
    (p : CatalogTable → Bool) (rows : List CatalogTable)
    → count (λ r. not (p r)) rows + count p rows ≡ length rows
count-not p [] = omega arith
count-not p (r ∷ rows) = ground (arith, count-not p rows)

pub databases-delete_tables :
    (ts : List CatalogTable) (c : Catalog) → (delete_tables ts c).databases ≡ c.databases
databases-delete_tables [] c = refl
databases-delete_tables (t ∷ ts) c = databases-delete_tables ts (delete_table t c)

requests-delete_tables :
    (ts : List CatalogTable) (c : Catalog) → (delete_tables ts c).requests ≡ c.requests
requests-delete_tables [] c = refl
requests-delete_tables (t ∷ ts) c = requests-delete_tables ts (delete_table t c)

-- To drop a database that exists removes its row, and exactly its tables with it; it lowers the gauge of
-- databases by one, but records no change of the gauge of tables, however many tables go: it stays too
-- high by their number. Glue is asked nothing, so that it keeps the entries of the tables.
pub drop_database_cascade :
    (n : String) (c : Catalog) {d : CatalogDatabase}
    → IsVersioned c
    → find db_name_of n c.databases ≡ some d
    → let (done, c') = drop_database n c in
      (done ≡ true)
      × (c'.tables ≡ keep (λ t. not (in_database d.db_id t)) c.tables)
      × (length c'.tables + count (in_database d.db_id) c.tables ≡ length c.tables)
      × (c'.databases ≡ remove db_id_of d.db_id c.databases)
      × (count is_database_dec c'.metrics ≡ 1 + count is_database_dec c.metrics)
      × (count is_database_inc c'.metrics ≡ count is_database_inc c.metrics)
      × (count is_inc c'.metrics ≡ count is_inc c.metrics)
      × (count is_dec c'.metrics ≡ count is_dec c.metrics)
      × (c'.requests ≡ c.requests)
unfolding drop_database
drop_database_cascade n c {d} v found =
    let ts = keep (in_database d.db_id) c.tables in
    let tables = tables-delete_tables ts c in
    let left = remove_all-keep (in_database d.db_id) c.tables v.distinct in
    let metrics = metrics-delete_tables ts c in
    let sizes = count-not (in_database d.db_id) c.tables in
    let kept = length-keep (λ t. not (in_database d.db_id t)) c.tables in
    rw (found, drop_database)
      (
        refl,
        tables ∙ left,
        rw (tables, left, kept) sizes,
        ap (remove db_id_of d.db_id) (databases-delete_tables ts c),
        rw metrics (omega arith),
        rw metrics (omega arith),
        rw metrics (omega arith),
        rw metrics (omega arith),
        requests-delete_tables ts c,
      )
