-- ===== src/Catalog/Columns.antt =====
-- The schema evolution inside `update_table` of services/metadata-service/app/services/
-- metadata_service.py, with the identity of the objects: `schema_json.copy()` is shallow, so that the
-- loaded schema and the new one share the list of columns and the columns.
use dhp.Prelude.{
  ℕ, ◌+◌, String, not, ◌==◌, Option, none, some, List, [], ◌∷◌, ◌++◌, map, str_eq, if◌then◌else◌,
  keep, format,
}
use dhp.Prelude.Dict.{Dict}
use dhp.Catalog.{ColumnSchema, TableUpdateRequest}

-- A column as the object it is in memory: its identity and what it holds.
abbrev pub Object : Type 0
Object = ℕ × ColumnSchema

abbrev pub contents : List Object → List ColumnSchema
contents = map (λ o. o.1)

abbrev pub objects : ℕ → List ColumnSchema → List Object
objects n [] = []
objects n (c ∷ cs) = (n, c) ∷ objects (n + 1) cs

-- What the list that the row was loaded with holds now, the list that `fields` refers to, and
-- `changes`.
pub record Evolving : Type 0 where
  pub loaded : List Object
  pub fields : List Object
  pub changes : List String

-- "Add columns": `append` changes the loaded list itself.
abbrev pub add_columns : List ColumnSchema → List ColumnSchema → Evolving
add_columns stored cs =
    let both = objects 0 (stored ++ cs) in
    record {
      loaded = both;
      fields = both;
      changes = map (λ c. format ("Added column: " ∷ c.name ∷ " (" ∷ c.type ∷ ")" ∷ [])) cs;
    }

-- "Drop columns": each comprehension makes a new list of the same columns.
abbrev pub drop_columns : List String → Evolving → Evolving
drop_columns [] e = e
drop_columns (n ∷ ns) e = drop_columns ns (record e {
  fields = keep (λ o. not (str_eq o.1.name n)) e.fields;
  changes = e.changes ++ format ("Dropped column: " ∷ n ∷ []) ∷ [];
})

abbrev pub first_named : String → List Object → Option ℕ
first_named n [] = none
first_named n (o ∷ os) = if str_eq o.1.name n then some o.0 else first_named n os

-- `f["name"] = new_name`, seen through a list that may hold the column.
abbrev pub set_name : ℕ → String → List Object → List Object
set_name i n [] = []
set_name i n (o ∷ os) = (if o.0 == i then (o.0, record (o.1) { name = n }) else o) ∷ set_name i n os

abbrev pub rename_column : String → String → Evolving → Evolving
rename_column old_name new_name e = elim (first_named old_name e.fields) [
  | none ↦ e
  | some i ↦ record {
    loaded = set_name i new_name e.loaded;
    fields = set_name i new_name e.fields;
    changes = e.changes ++ format ("Renamed column: " ∷ old_name ∷ " -> " ∷ new_name ∷ []) ∷ [];
  }
]

-- "Rename columns": the first column of the old name, for each pair in turn.
abbrev pub rename_columns : Dict String → Evolving → Evolving
rename_columns [] e = e
rename_columns ((old_name, new_name) ∷ rest) e =
    rename_columns rest (rename_column old_name new_name e)

unfoldable pub evolve : List ColumnSchema → TableUpdateRequest → Evolving
evolve stored q =
    rename_columns q.rename_columns (drop_columns q.drop_columns (add_columns stored q.add_columns))
