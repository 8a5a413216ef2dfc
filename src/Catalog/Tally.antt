-- ===== src/Catalog/Tally.antt =====
-- What each request to the metadata service does to the number of rows and to the gauges.
use dhp.Prelude.{
  ℕ, ◌+◌, String, none, some, List, [], ◌∷◌, ◌||◌, eq_iff, eq_refl, ◌≡◌, refl, arith, length,
  length-append, count, keep, Option-cases, Bool-cases, inl, inr, is_some,
}
use dhp.Prelude.Rows.{find, save, remove}
use dhp.Catalog.{CatalogTable, TableUpdateRequest, TableCreateRequest, DatabaseCreateRequest}
use dhp.Catalog.Glue.{GlueAnswer, register_table}
use dhp.Catalog.Service.{
  Catalog, table_id_of, db_id_of, db_name_of, in_database, find_table, table_in, create_database,
  drop_database, create_table, drop_table, written_through, entry_name,
}
use dhp.Catalog.SchemaUpdate.{Flush, update_table, stored}
use dhp.Catalog.Router.{
  Call, post_database, delete_database, post_table, put_table, delete_table as delete_call,
  post_sync, register_all, sync_glue, endpoint,
}
use dhp.Catalog.Versions.{IsVersioned}
use dhp.Catalog.Drop.{
  is_inc, is_dec, is_database_inc, is_database_dec, databases-delete_tables, metrics-delete_tables,
  drop_database_cascade,
}
use dhp.Catalog.History.{find_table-find}

-- The tables that go with the database that a request drops.
abbrev pub cascaded : Call → Catalog → ℕ
cascaded (delete_database n) c = elim (find db_name_of n c.databases) [
  | none ↦ 0
  | some d ↦ count (in_database d.db_id) c.tables
]
cascaded _ c = 0

-- What the rows and the gauges have gained or lost alike, but for `lost` tables.
pub record Tally (c c' : Catalog) (lost : ℕ) : Type 0 where
  pub tables :
      length c.tables + count is_inc c'.metrics + count is_dec c.metrics
      ≡ length c'.tables + lost + count is_dec c'.metrics + count is_inc c.metrics
  pub databases :
      length c.databases + count is_database_inc c'.metrics + count is_database_dec c.metrics
      ≡ length c'.databases + count is_database_dec c'.metrics + count is_database_inc c.metrics

pub Tally-refl : (c : Catalog) → Tally c c 0
Tally-refl c = record { tables = omega arith; databases = omega arith }

module _ {ℓ} {A : Type ℓ} (key own : A → String) where
  -- A row that is found goes by its own key.
  length-remove :
      (k : String) (rs : List A) {r : A}
      → find key k rs ≡ some r
      → length rs ≡ length (remove own (own r) rs) + 1
  length-remove k [] h = cc
  length-remove k (s ∷ rs) {r} h =
      ground (arith, length-remove k rs {r = r}, eq_iff (own s) (own r), eq_refl (own r))

module _ {ℓ} {A : Type ℓ} (key : A → String) where
  length-save : (r : A) (rs : List A) → length (save key r rs) ≡ length rs
  length-save r [] = refl
  length-save r (s ∷ rs) = ground (arith, length-save r rs)

register_all-Tally :
    (answers : String → GlueAnswer) (n : String) (ts : List CatalogTable) (c d : Catalog)
    → Tally d c 0
    → Tally d (register_all answers n ts c) 0
register_all-Tally answers n [] c d t = t
register_all-Tally answers n (u ∷ ts) c d t =
    register_all-Tally answers n ts
      (written_through
        (register_table c.glue (answers u.table_name) (entry_name n u.table_name) u.location none)
        c)
      d (record { tables = omega (arith, t.tables); databases = omega (arith, t.databases) })

module _ (c : Catalog) where
  create_database-Tally :
      (bucket i : String) (q : DatabaseCreateRequest) → Tally c (create_database bucket i q c).1 0
  unfolding create_database
  create_database-Tally bucket i q =
      elim (Bool-cases (
        is_some (find db_name_of q.db_name c.databases) || is_some (find db_id_of i c.databases))) [
          | inl taken ↦ rw (taken, create_database) (Tally-refl c)
          | inr free ↦
              rw (free, create_database)
                (record {
                  tables = omega arith;
                  databases = omega (arith, length-append c.databases (_ ∷ []));
                })
        ]

  drop_database-Tally :
      (n : String) → IsVersioned c → Tally c (drop_database n c).1 (cascaded (delete_database n) c)
  unfolding drop_database
  drop_database-Tally n v = elim (Option-cases (find db_name_of n c.databases)) [
    | inl missing ↦
        let lost : cascaded (delete_database n) c ≡ 0 = rw (missing, cascaded) refl in
        rw (missing, drop_database, lost) (Tally-refl c)
    | inr (d, found) ↦
        let (done, left, sizes, gone, fewer, same, incs, decs, silent) =
          drop_database_cascade n c v found in
        let ts = keep (in_database d.db_id) c.tables in
        let lost : cascaded (delete_database n) c ≡ count (in_database d.db_id) c.tables =
          rw (found, cascaded) refl in
        record {
          tables = omega (arith, sizes, incs, decs, lost);
          databases =
              rw (found, drop_database, databases-delete_tables ts c, metrics-delete_tables ts c)
                (omega (arith, length-remove db_name_of db_id_of n c.databases found));
        }
  ]

  create_table-Tally :
      (i : String) (answer : GlueAnswer) (n : String) (q : TableCreateRequest)
      → Tally c (create_table i answer n q c).1 0
  unfolding create_table
  create_table-Tally i answer n q = elim (Option-cases (find db_name_of n c.databases)) [
    | inl missing ↦ rw (missing, create_table) (Tally-refl c)
    | inr (d, found) ↦
        elim (Bool-cases (
          is_some (table_in d.db_id q.table_name c.tables)
          || is_some (find table_id_of i c.tables))) [
            | inl taken ↦ rw (found, create_table, taken) (Tally-refl c)
            | inr free ↦
                rw (found, create_table, free)
                  (record {
                    tables = omega (arith, length-append c.tables (_ ∷ []));
                    databases = omega arith;
                  })
          ]
  ]

  drop_table-Tally :
      (answer : GlueAnswer) (n m : String) → IsVersioned c → Tally c (drop_table answer n m c).1 0
  unfolding drop_table
  drop_table-Tally answer n m v = elim (Option-cases (find_table n m c)) [
    | inl missing ↦ rw (missing, drop_table) (Tally-refl c)
    | inr (t, found) ↦
        let less =
          length-remove table_id_of table_id_of t.table_id c.tables
            (find_table-find n m c v found) in
        rw (found, drop_table) (record { tables = omega (arith, less); databases = omega arith })
  ]

  update_table-Tally :
      (flush : Flush) (n m : String) (q : TableUpdateRequest)
      → Tally c (update_table flush n m q c).1 0
  unfolding update_table
  update_table-Tally flush n m q = elim (Option-cases (find_table n m c)) [
    | inl missing ↦ rw (missing, update_table) (Tally-refl c)
    | inr (t, found) ↦
        let same = length-save table_id_of (stored flush q t) c.tables in
        rw (found, update_table) (record { tables = omega (arith, same); databases = omega arith })
  ]

  sync_glue-Tally :
      (answers : String → GlueAnswer) (n : String) → Tally c (sync_glue answers n c).1 0
  unfolding sync_glue
  sync_glue-Tally answers n = elim (Option-cases (find db_name_of n c.databases)) [
    | inl missing ↦ let same = Tally-refl c in ground arith
    | inr (d, found) ↦
        let sent =
          register_all-Tally answers n (keep (in_database d.db_id) c.tables) c c (Tally-refl c) in
        ground arith
  ]

pub endpoint-Tally :
    (flush : Flush) (q : Call) (c : Catalog)
    → IsVersioned c
    → Tally c (endpoint flush q c).1 (cascaded q c)
unfolding endpoint
endpoint-Tally flush (post_database bucket i q) c v = create_database-Tally c bucket i q
endpoint-Tally flush (delete_database n) c v = drop_database-Tally c n v
endpoint-Tally flush (post_table i answer n q) c v = create_table-Tally c i answer n q
endpoint-Tally flush (put_table n m q) c v = update_table-Tally c flush n m q
endpoint-Tally flush (delete_call answer n m) c v = drop_table-Tally c answer n m v
endpoint-Tally flush (post_sync answers n) c v = sync_glue-Tally c answers n
