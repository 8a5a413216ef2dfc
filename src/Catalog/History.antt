-- ===== src/Catalog/History.antt =====
-- The schema history under every request to the metadata service.
use dhp.Prelude.{
  String, ◌&&◌, none, some, List, [], ◌∷◌, ◌++◌, ◌≡◌, refl, arith, All, str_eq, Option-cases,
  Bool-cases, inl, inr, subst, keep, List-cases, eq_refl,
}
use dhp.Prelude.Rows.{find, find_self, find-save, save}
use dhp.Catalog.{CatalogTable, TableUpdateRequest, TableCreateRequest, DatabaseCreateRequest}
use dhp.Catalog.Columns.{evolve}
use dhp.Catalog.Glue.{GlueAnswer, register_table}
use dhp.Catalog.Service.{
  Catalog, table_id_of, db_name_of, table_in, find_table, new_table, initial_version,
  written_through, create_database, drop_database, create_table, drop_table, entry_name,
  in_database,
}
use dhp.Catalog.SchemaUpdate.{Flush, next_version, stored, update_table}
use dhp.Catalog.Router.{
  Call, post_database, delete_database, post_table, put_table, delete_table as delete_call,
  post_sync, register_all, sync_glue, endpoint, serve,
}
use dhp.Catalog.Versions.{
  IsVersioned, add-IsVersioned, save-IsVersioned, append-IsVersioned, delete_table-IsVersioned,
  delete_tables-IsVersioned,
}

table_in-All :
    (P : CatalogTable → Type 0) (i n : String) (ts : List CatalogTable) {t : CatalogTable}
    → All P ts
    → table_in i n ts ≡ some t
    → P t
table_in-All P i n [] a e = cc
table_in-All P i n (u ∷ ts) {t} a e =
    elim (Bool-cases (str_eq u.db_id i && str_eq u.table_name n)) [
      | inl here ↦ subst P (cc here) a.0
      | inr other ↦ table_in-All P i n ts a.1 (rw other at e)
    ]

-- The table of a lookup by names is the one that its id finds.
pub find_table-find :
    (db_name table_name : String) (c : Catalog) {t : CatalogTable}
    → IsVersioned c
    → find_table db_name table_name c ≡ some t
    → find table_id_of t.table_id c.tables ≡ some t
find_table-find db_name table_name c {t} v e =
    elim (Option-cases (find db_name_of db_name c.databases)) [
      | inl missing ↦ absurd (ground arith)
      | inr (d, found) ↦
          table_in-All (λ u. find table_id_of u.table_id c.tables ≡ some u) d.db_id table_name
            c.tables (find_self table_id_of c.tables v.distinct) (ground arith)
    ]

module _ (c : Catalog) (v : IsVersioned c) where
  create_database-IsVersioned :
      (bucket i : String) (q : DatabaseCreateRequest) → IsVersioned (create_database bucket i q c).1
  unfolding create_database
  create_database-IsVersioned bucket i q = ground arith

  drop_database-IsVersioned : (n : String) → IsVersioned (drop_database n c).1
  unfolding drop_database
  drop_database-IsVersioned n = elim (Option-cases (find db_name_of n c.databases)) [
    | inl missing ↦ ground arith
    | inr (d, found) ↦
        let gone = delete_tables-IsVersioned (keep (in_database d.db_id) c.tables) c v in
        ground arith
  ]

  create_table-IsVersioned :
      (i : String) (answer : GlueAnswer) (n : String) (q : TableCreateRequest)
      → IsVersioned (create_table i answer n q c).1
  unfolding create_table
  create_table-IsVersioned i answer n q = elim (Option-cases (find db_name_of n c.databases)) [
    | inl missing ↦ ground arith
    | inr (d, found) ↦ elim (Option-cases (find table_id_of i c.tables)) [
      | inr (old, taken) ↦ ground arith
      | inl fresh ↦
          let t = new_table i d q in
          let more : Catalog = record c {
            tables = c.tables ++ t ∷ [];
            history = c.history ++ initial_version t ∷ [];
          } in
          let added = add-IsVersioned t c more fresh v refl refl in ground arith
    ]
  ]

  drop_table-IsVersioned :
      (answer : GlueAnswer) (n m : String) → IsVersioned (drop_table answer n m c).1
  unfolding drop_table
  drop_table-IsVersioned answer n m = elim (Option-cases (find_table n m c)) [
    | inl missing ↦ ground arith
    | inr (t, found) ↦ let gone = delete_table-IsVersioned t c v in ground arith
  ]

  update_table-IsVersioned :
      (flush : Flush) (n m : String) (q : TableUpdateRequest)
      → IsVersioned (update_table flush n m q c).1
  unfolding update_table
  update_table-IsVersioned flush n m q = elim (Option-cases (find_table n m c)) [
    | inl missing ↦ ground arith
    | inr (t, found) ↦
        let here = find_table-find n m c v found in
        let u = stored flush q t in
        let saved = save-IsVersioned t u c here v in
        let c' : Catalog = record c { tables = save table_id_of u c.tables } in
        let there : find table_id_of t.table_id c'.tables ≡ some u =
          ground (arith, find-save table_id_of t.table_id u c.tables, eq_refl t.table_id) in
        let more = append-IsVersioned u (next_version q t c.history) c' there refl saved in
        elim (List-cases (evolve t.fields q).changes) [
          | inl e ↦ ground arith
          | inr (change, rest, e) ↦ ground arith
        ]
  ]

  register_all-IsVersioned :
      (answers : String → GlueAnswer) (n : String) (ts : List CatalogTable) (c : Catalog)
      → IsVersioned c
      → IsVersioned (register_all answers n ts c)
  register_all-IsVersioned answers n [] c v = v
  register_all-IsVersioned answers n (t ∷ ts) c v =
      register_all-IsVersioned answers n ts
        (written_through
          (register_table c.glue (answers t.table_name) (entry_name n t.table_name) t.location none)
          c)
        (record { numbered = v.numbered; owned = v.owned; distinct = v.distinct })

  sync_glue-IsVersioned :
      (answers : String → GlueAnswer) (n : String) → IsVersioned (sync_glue answers n c).1
  unfolding sync_glue
  sync_glue-IsVersioned answers n = elim (Option-cases (find db_name_of n c.databases)) [
    | inl missing ↦ ground arith
    | inr (d, found) ↦
        let sent = register_all-IsVersioned answers n (keep (in_database d.db_id) c.tables) c v in
        ground arith
  ]

module _ (flush : Flush) where
  pub endpoint-IsVersioned :
      (q : Call) (c : Catalog) → IsVersioned c → IsVersioned (endpoint flush q c).1
  unfolding endpoint
  endpoint-IsVersioned (post_database bucket i q) c v = create_database-IsVersioned c v bucket i q
  endpoint-IsVersioned (delete_database n) c v = drop_database-IsVersioned c v n
  endpoint-IsVersioned (post_table i answer n q) c v = create_table-IsVersioned c v i answer n q
  endpoint-IsVersioned (put_table n m q) c v = update_table-IsVersioned c v flush n m q
  endpoint-IsVersioned (delete_call answer n m) c v = drop_table-IsVersioned c v answer n m
  endpoint-IsVersioned (post_sync answers n) c v = sync_glue-IsVersioned c v answers n

  -- Whatever requests are served, if in the catalog the versions of each table's schema history are
  -- 1, 2, 3 and so on without a gap, only existing tables have any and table ids are distinct, it stays
  -- so, also where Glue fails and where a request is refused.
  pub serve-IsVersioned :
      (qs : List Call) (c : Catalog) → IsVersioned c → IsVersioned (serve flush qs c)
  unfolding serve
  serve-IsVersioned [] c v = v
  serve-IsVersioned (q ∷ qs) c v =
      serve-IsVersioned qs (endpoint flush q c).1 (endpoint-IsVersioned q c v)
