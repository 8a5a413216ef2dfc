-- ===== src/Catalog/Tests.antt =====
-- Runs of the metadata service, and its theorems at concrete catalogs.
use dhp.Prelude.{
  ◌+◌, ◌≢◌, String, Bool, true, false, not, Option, none, some, List, [], ◌∷◌, ◌≡◌, refl, arith,
  map, count, keep, length, if◌then◌else◌, str_eq, eq_iff, eq_refl, ◌&&◌, Bool-cases, inl, inr,
}
use dhp.Prelude.Rows.{find}
use dhp.Catalog.{
  ColumnSchema, DatabaseCreateRequest, TableCreateRequest, TableUpdateRequest, CatalogDatabase,
  CatalogTable,
}
use dhp.Catalog.Columns.{evolve}
use dhp.Catalog.Glue.{GlueCatalogClient, GlueAnswer, returned, other_error, client_error}
use dhp.Catalog.Service.{
  Catalog, table_id_of, db_name_of, in_database, new_table, initial_version, table_response,
  drop_database, create_table, drop_table,
}
use dhp.Catalog.SchemaUpdate.{Flush, updated, update_table}
use dhp.Catalog.Router.{
  Call, post_database, delete_database, post_table, put_table, delete_table, post_sync, serve,
}
use dhp.Catalog.Versions.{IsVersioned}
use dhp.Catalog.History.{serve-IsVersioned}
use dhp.Catalog.Schema.{evolved}
use dhp.Catalog.Update.{update_table_stored, update_table_unsaved}
use dhp.Catalog.Gauges.{seed_catalog_gauges, all_cascaded, gauges_follow}
use dhp.Catalog.Drop.{is_inc, is_dec, is_database_inc, is_database_dec, drop_database_cascade}

abbrev column : String → ColumnSchema
column n = record { name = n; type = "string"; nullable = true; description = none }

abbrev empty : Catalog
empty = record {
  databases = [];
  tables = [];
  snapshots = [];
  history = [];
  glue = record { database = "glue"; has_client = true };
  requests = [];
  metrics = [];
}

abbrev database_request : DatabaseCreateRequest
database_request = record { db_name = "sales"; owner = none; description = none; properties = [] }

abbrev table_request : String → TableCreateRequest
table_request n = record {
  table_name = n;
  table_type = "ICEBERG";
  schema_fields = column "id" ∷ column "amount" ∷ [];
  partition_spec = [];
  sort_order = [];
  properties = [];
  description = none;
}

-- Adds "note", drops what it is told, and renames "amount".
abbrev update_request : List String → TableUpdateRequest
update_request drops = record {
  add_columns = column "note" ∷ [];
  drop_columns = drops;
  rename_columns = ("amount", "total") ∷ [];
  properties = none;
  description = none;
  changed_by = none;
}

abbrev sales : CatalogDatabase
sales = record {
  db_id = "d1";
  db_name = "sales";
  location = "s3://b/sales/";
  owner = none;
  description = none;
  properties = [];
}

abbrev orders : CatalogTable
orders = new_table "t1" sales (table_request "orders")

abbrev catalog : Catalog
catalog = record empty {
  databases = sales ∷ [];
  tables = orders ∷ [];
  history = initial_version orders ∷ [];
}

-- Equality of columns, and the flush that compares by it.
abbrev same_bool : Bool → Bool → Bool
same_bool true b = b
same_bool false b = not b

abbrev same_text : Option String → Option String → Bool
same_text none none = true
same_text (some s) (some t) = str_eq s t
same_text _ _ = false

abbrev same_column : ColumnSchema → ColumnSchema → Bool
same_column c d =
    str_eq c.name d.name
    && str_eq c.type d.type
    && same_bool c.nullable d.nullable
    && same_text c.description d.description

abbrev same_columns : List ColumnSchema → List ColumnSchema → Bool
same_columns [] [] = true
same_columns (c ∷ cs) (d ∷ ds) = let rest = same_columns cs ds in same_column c d && rest
same_columns _ _ = false

same_bool_refl : (b : Bool) → same_bool b b ≡ true
same_bool_refl true = refl
same_bool_refl false = refl

same_text_refl : (s : Option String) → same_text s s ≡ true
same_text_refl none = refl
same_text_refl (some s) = eq_refl s

same_columns_refl : (cs : List ColumnSchema) → same_columns cs cs ≡ true
same_columns_refl [] = refl
same_columns_refl (c ∷ cs) = ground (
  arith,
  same_columns_refl cs,
  eq_refl c.name,
  eq_refl c.type,
  same_bool_refl c.nullable,
  same_text_refl c.description,
)

same_bool_sound : (a b : Bool) → same_bool a b ≡ true → a ≡ b
same_bool_sound true b h = ground arith
same_bool_sound false b h = ground arith

same_text_sound : (a b : Option String) → same_text a b ≡ true → a ≡ b
same_text_sound none none h = refl
same_text_sound none (some t) h = absurd (ground arith)
same_text_sound (some s) none h = absurd (ground arith)
same_text_sound (some s) (some t) h = ground (arith, eq_iff s t)

same_column_sound : (c d : ColumnSchema) → same_column c d ≡ true → c ≡ d
same_column_sound c d h = ground (
  arith,
  eq_iff c.name d.name,
  eq_iff c.type d.type,
  same_bool_sound c.nullable d.nullable,
  same_text_sound c.description d.description,
)

same_columns_sound : (cs ds : List ColumnSchema) → same_columns cs ds ≡ true → cs ≡ ds
same_columns_sound [] [] h = refl
same_columns_sound [] (d ∷ ds) h = absurd (ground arith)
same_columns_sound (c ∷ cs) [] h = absurd (ground arith)
same_columns_sound (c ∷ cs) (d ∷ ds) h =
    ground (arith, same_column_sound c d, same_columns_sound cs ds)

abbrev flush_run : Flush
flush_run v v' s = if same_columns v v' then s else v'

flush_leaves : (v s : List ColumnSchema) → flush_run v v s ≡ s
flush_leaves v s = rw (same_columns_refl v) refl

flush_writes : (v v' s : List ColumnSchema) → v ≢ v' → flush_run v v' s ≡ v'
flush_writes v v' s differ = elim (Bool-cases (same_columns v v')) [
  | inl e ↦ absurd (differ (same_columns_sound v v' e))
  | inr e ↦ rw e refl
]

abbrev calls : List Call
calls =
    post_database "b" "d1" database_request
    ∷ post_table "t1" other_error "sales" (table_request "orders")
    ∷ put_table "sales" "orders" (update_request [])
    ∷ put_table "sales" "orders" (update_request ("id" ∷ []))
    ∷ delete_table returned "sales" "missing"
    ∷ post_sync (λ _. returned) "sales"
    ∷ []

-- The history of the run has the versions 1, 2 and 3.
versions_run : map (λ h. h.version) (serve flush_run calls empty).history ≡ 1 ∷ 2 ∷ 3 ∷ []
unfolding serve dhp.Catalog.Router.endpoint dhp.Catalog.Service.create_database create_table
    update_table drop_table dhp.Catalog.Router.sync_glue evolve dhp.Catalog.Glue.register_table
    dhp.Catalog.Glue.drop_table
versions_run = refl

serve-IsVersioned_example : IsVersioned (serve flush_run calls empty)
serve-IsVersioned_example =
    serve-IsVersioned flush_run calls empty
      (record { numbered = λ i. tt; owned = λ i e. refl; distinct = tt })

catalog-IsVersioned : IsVersioned catalog
unfolding serve dhp.Catalog.Router.endpoint create_table dhp.Catalog.Service.create_database
    dhp.Catalog.Glue.register_table
catalog-IsVersioned =
    let v =
      serve-IsVersioned flush_run
        (post_database "b" "d1" database_request
          ∷ post_table "t1" other_error "sales" (table_request "orders")
          ∷ [])
        empty (record { numbered = λ i. tt; owned = λ i e. refl; distinct = tt }) in
    record { numbered = v.numbered; owned = v.owned; distinct = v.distinct }

abbrev evolved_orders : List String → CatalogTable
evolved_orders drops = record (updated (update_request drops) orders) {
  fields = evolved (update_request drops) orders.fields;
}

update_table_stored_example :
    let (reply, c') =
      update_table flush_run "sales" "orders" (update_request ("id" ∷ [])) catalog in
    (reply ≡ some (table_response "sales" (evolved_orders ("id" ∷ []))))
    × (find table_id_of "t1" c'.tables ≡ some (evolved_orders ("id" ∷ [])))
update_table_stored_example =
    update_table_stored flush_run "sales" "orders" (update_request ("id" ∷ [])) catalog {t = orders}
      flush_writes catalog-IsVersioned refl (omega arith)

-- The update adds "note" and renames "amount", and the stored row has neither.
update_table_unsaved_example :
    let (reply, c') = update_table flush_run "sales" "orders" (update_request []) catalog in
    (reply ≡ some (table_response "sales" (evolved_orders [])))
    × (find table_id_of "t1" c'.tables
        ≡ some (record (updated (update_request []) orders) { fields = orders.fields }))
update_table_unsaved_example =
    update_table_unsaved flush_run "sales" "orders" (update_request []) catalog {t = orders}
      flush_leaves catalog-IsVersioned refl refl

drop_database_cascade_example :
    let (done, c') = drop_database "sales" catalog in
    (done ≡ true)
    × (c'.tables ≡ keep (λ t. not (in_database "d1" t)) catalog.tables)
    × (length c'.tables + count (in_database "d1") catalog.tables ≡ 1)
    × (c'.databases ≡ [])
    × (count is_database_dec c'.metrics ≡ 1)
    × (count is_database_inc c'.metrics ≡ 0)
    × (count is_inc c'.metrics ≡ 0)
    × (count is_dec c'.metrics ≡ 0)
    × (c'.requests ≡ [])
drop_database_cascade_example =
    drop_database_cascade "sales" catalog {d = sales} catalog-IsVersioned refl

abbrev throttled : GlueAnswer
throttled = client_error (some "ThrottlingException")

-- A table is created, and its database dropped with both of its tables.
abbrev growing : List Call
growing = post_table "t2" throttled "sales" (table_request "items") ∷ delete_database "sales" ∷ []

gauges_follow_example :
    let c' = serve flush_run growing catalog in
    let start = seed_catalog_gauges true catalog (record { databases = 7; tables = 7 }) in
    (start.databases + count is_database_inc c'.metrics
      ≡ length c'.databases + count is_database_dec c'.metrics)
    × (start.tables + count is_inc c'.metrics
        ≡ length c'.tables + all_cascaded flush_run growing catalog + count is_dec c'.metrics)
gauges_follow_example =
    gauges_follow flush_run growing catalog (record { databases = 7; tables = 7 })
      catalog-IsVersioned refl

growing_test : all_cascaded flush_run growing catalog ≡ 2
unfolding all_cascaded dhp.Catalog.Router.endpoint create_table dhp.Catalog.Glue.register_table
growing_test = refl
