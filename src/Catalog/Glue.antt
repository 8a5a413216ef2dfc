-- ===== src/Catalog/Glue.antt =====
-- services/metadata-service/app/glue_client.py: the write-through to AWS Glue. What Glue answers is an
-- argument; whether boto3 could build the client is part of the state.
use dhp.Prelude.{
  String, Bool, ◌&&◌, Option, none, some, [], ◌∷◌, str_eq, if◌then◌else◌, truthy, format,
}
use dhp.Prelude.Dict.{Dict}

pub record GlueCatalogClient : Type 0 where
  pub database : String
  pub has_client : Bool

abbrev pub enabled : GlueCatalogClient → Bool
enabled g = g.has_client && truthy g.database

-- A call returns, raises a `ClientError` with a code, or raises something else.
pub data GlueAnswer : Type 0 where
  returned : GlueAnswer
  client_error : Option String → GlueAnswer
  other_error : GlueAnswer

-- The requests to Glue.
pub data GlueRequest : Type 0 where
  create_entry : String → String → String → Dict String → GlueRequest
  delete_entry : String → String → GlueRequest

-- A counter of `CATALOG_GLUE_SYNC_TOTAL`, by operation and outcome.
abbrev pub Sync : Type 0
Sync = String × String

-- `location.rstrip("/")`
abbrev strip : String → Option String
strip String.[] = none
strip (String.◌∷◌ c s) = elim (strip s) [
  | some rest ↦ some (String.◌∷◌ c rest)
  | none ↦ if str_eq (String.◌∷◌ c String.[]) "/" then none else some (String.◌∷◌ c String.[])
]

abbrev pub rstrip : String → String
rstrip s = elim (strip s) [ none ↦ "" | some t ↦ t ]

abbrev create_outcome : GlueAnswer → String
create_outcome returned = "success"
create_outcome (client_error none) = "error"
create_outcome (client_error (some code)) =
    if str_eq code "AlreadyExistsException" then "exists" else "error"
create_outcome other_error = "error"

abbrev drop_outcome : GlueAnswer → String
drop_outcome returned = "success"
drop_outcome (client_error none) = "error"
drop_outcome (client_error (some code)) =
    if str_eq code "EntityNotFoundException" then "not_found" else "error"
drop_outcome other_error = "error"

-- `register_table`: the request that is sent, if any, and the counter.
unfoldable pub register_table :
    GlueCatalogClient → GlueAnswer → String → String → Option String → Option GlueRequest × Sync
register_table g answer table_name location metadata_location =
    if enabled g
    then (
      some (
          create_entry g.database table_name (format (rstrip location ∷ "/" ∷ [])) (
            ("table_type", "ICEBERG") ∷ elim metadata_location [
              | none ↦ []
              | some m ↦ (if truthy m then ("metadata_location", m) ∷ [] else [])
            ])),
      ("create_table", create_outcome answer),
    )
    else (none, ("create_table", "skipped"))

unfoldable pub drop_table : GlueCatalogClient → GlueAnswer → String → Option GlueRequest × Sync
drop_table g answer table_name =
    if enabled g
    then (some (delete_entry g.database table_name), ("drop_table", drop_outcome answer))
    else (none, ("drop_table", "skipped"))
