-- ===== src/Catalog/Update.antt =====
-- `update_table`: what it replies and what of it is stored.
use dhp.Prelude.{
  ℕ, ◌<◌, ◌≢◌, ◌∙◌, length, length-map, String, not, some, List, [], ◌∷◌, ◌++◌, ◌≡◌, refl, arith,
  keep, str_eq, eq_refl, Option-cases, inl, inr, ap, format,
}
use dhp.Prelude.Dict.{Dict}
use dhp.Prelude.Rows.{find, find-save}
use dhp.Catalog.{ColumnSchema, CatalogTable, TableUpdateRequest}
use dhp.Catalog.Columns.{
  Object, contents, Evolving, add_columns, drop_columns, first_named, set_name, rename_column,
  rename_columns, evolve,
}
use dhp.Catalog.Service.{Catalog, table_id_of, find_table, table_response}
use dhp.Catalog.SchemaUpdate.{Flush, stored, updated, update_table}
use dhp.Catalog.Versions.{IsVersioned}
use dhp.Catalog.History.{find_table-find}
use dhp.Catalog.Schema.{evolved, evolve-evolved, contents-objects}

-- While no column is dropped, the loaded schema and the new one are one list.
rename_columns_shared :
    (d : Dict String) (e : Evolving)
    → e.loaded ≡ e.fields
    → (rename_columns d e).loaded ≡ (rename_columns d e).fields
rename_columns_shared [] e same = same
rename_columns_shared ((s, t) ∷ rest) e same =
    rename_columns_shared rest (rename_column s t e) (elim (Option-cases (first_named s e.fields)) [
      | inl missing ↦ rw (missing, rename_column) same
      | inr (i, found) ↦ rw (found, rename_column) (ap (set_name i t) same)
    ])

evolve_shared :
    (cols : List ColumnSchema) (q : TableUpdateRequest)
    → q.drop_columns ≡ []
    → (evolve cols q).loaded ≡ (evolve cols q).fields
unfolding evolve
evolve_shared cols q none_dropped =
    rw none_dropped (rename_columns_shared q.rename_columns (add_columns cols q.add_columns) refl)

-- The loaded list keeps all columns.
length-set_name : (i : ℕ) (s : String) (os : List Object) → length (set_name i s os) ≡ length os
length-set_name i s [] = refl
length-set_name i s (o ∷ os) = omega (arith, length-set_name i s os)

loaded-rename_columns :
    (d : Dict String) (e : Evolving) → length (rename_columns d e).loaded ≡ length e.loaded
loaded-rename_columns [] e = refl
loaded-rename_columns ((s, t) ∷ rest) e = elim (Option-cases (first_named s e.fields)) [
  | inl missing ↦ ground (arith, loaded-rename_columns rest (rename_column s t e))
  | inr (i, found) ↦
      ground (arith, loaded-rename_columns rest (rename_column s t e), length-set_name i t e.loaded)
]

loaded-drop_columns : (ns : List String) (e : Evolving) → (drop_columns ns e).loaded ≡ e.loaded
loaded-drop_columns [] e = refl
loaded-drop_columns (n ∷ ns) e = loaded-drop_columns ns (record e {
  fields = keep (λ o. not (str_eq o.1.name n)) e.fields;
  changes = e.changes ++ format ("Dropped column: " ∷ n ∷ []) ∷ [];
})

length-loaded :
    (cols : List ColumnSchema) (q : TableUpdateRequest)
    → length (contents (evolve cols q).loaded) ≡ length (cols ++ q.add_columns)
unfolding evolve
length-loaded cols q =
    let e = add_columns cols q.add_columns in
    let renamings = loaded-rename_columns q.rename_columns (drop_columns q.drop_columns e) in
    let drops = ap length (loaded-drop_columns q.drop_columns e) in
    let columns = length-map (λ (o : Object). o.1) (evolve cols q).loaded in
    let columns' = length-map (λ (o : Object). o.1) e.loaded in
    let plain = ap length (contents-objects 0 (cols ++ q.add_columns)) in omega arith

module _ (flush : Flush) (db_name table_name : String) (q : TableUpdateRequest) (c : Catalog)
    {t : CatalogTable} where
  stored_row :
      IsVersioned c
      → find_table db_name table_name c ≡ some t
      → let (reply, c') = update_table flush db_name table_name q c in
        (reply ≡ some (table_response db_name (updated q t)))
        × (find table_id_of t.table_id c'.tables ≡ some (stored flush q t))
  unfolding update_table
  stored_row v found =
      let here = find_table-find db_name table_name c v found in
      (
        ground arith,
        ground (
          arith,
          find-save table_id_of t.table_id (stored flush q t) c.tables,
          eq_refl t.table_id,
        ),
      )

  -- An update that drops a column which the table has (the evolved schema is shorter than the old one
  -- with the added columns) replies with the evolved schema and stores it: the added columns at the
  -- end, the dropped ones gone, and for each renaming the first column of the old name renamed. The
  -- flush is any that writes a value that differs from what the loaded object holds.
  pub update_table_stored :
      ((v v' s : List ColumnSchema) → v ≢ v' → flush v v' s ≡ v')
      → IsVersioned c
      → find_table db_name table_name c ≡ some t
      → length (evolved q t.fields) < length (t.fields ++ q.add_columns)
      → let (reply, c') = update_table flush db_name table_name q c in
        (reply
          ≡ some (table_response db_name (record (updated q t) { fields = evolved q t.fields })))
        × (find table_id_of t.table_id c'.tables
            ≡ some (record (updated q t) { fields = evolved q t.fields }))
  update_table_stored writes v found shorter =
      let (reply, row) = stored_row v found in
      let same = evolve-evolved t.fields q in
      let differ : contents (evolve t.fields q).loaded ≢ contents (evolve t.fields q).fields = λ e.
        let lengths = ap length e in
        let long = length-loaded t.fields q in let short = ap length same in omega arith in
      let written =
        writes (contents (evolve t.fields q).loaded) (contents (evolve t.fields q).fields) t.fields
          differ in
      (
        reply ∙ ap (λ f. some (table_response db_name (record (updated q t) { fields = f }))) same,
        row ∙ ap (λ f. some (record (updated q t) { fields = f })) (written ∙ same),
      )

  -- An update that drops no column replies with the evolved schema and leaves the stored schema as it
  -- was: the loaded object was changed in place, so that the flush, which leaves a column alone whose
  -- attribute equals what the loaded object holds, sees no change.
  pub update_table_unsaved :
      ((v s : List ColumnSchema) → flush v v s ≡ s)
      → IsVersioned c
      → find_table db_name table_name c ≡ some t
      → q.drop_columns ≡ []
      → let (reply, c') = update_table flush db_name table_name q c in
        (reply
          ≡ some (table_response db_name (record (updated q t) { fields = evolved q t.fields })))
        × (find table_id_of t.table_id c'.tables
            ≡ some (record (updated q t) { fields = t.fields }))
  update_table_unsaved leaves v found none_dropped =
      let (reply, row) = stored_row v found in
      let same = evolve-evolved t.fields q in
      let shared = evolve_shared t.fields q none_dropped in
      let kept : flush (contents (evolve t.fields q).loaded) (contents (evolve t.fields q).fields)
            t.fields
          ≡ t.fields =
        rw shared (leaves (contents (evolve t.fields q).fields) t.fields) in
      (
        reply ∙ ap (λ f. some (table_response db_name (record (updated q t) { fields = f }))) same,
        row ∙ ap (λ f. some (record (updated q t) { fields = f })) kept,
      )
