-- ===== src/Lineage/Service.antt =====
-- services/lineage-service/app/services/lineage_service.py: `LineageService` over the four tables. The
-- ids that the database draws are an argument, and so are `str.upper`, `str` of a JSON value and
-- PostgreSQL's `||` on JSONB. The lengths of the columns are not modelled.
use dhp.Prelude.{
  String, Bool, false, ◌&&◌, ◌||◌, not, Option, none, some, List, [], ◌∷◌, ◌++◌, str_eq,
  if◌then◌else◌, is_some, truthy?, keep,
}
use dhp.Prelude.Dict.{Dict, lookup, merge}
use dhp.Prelude.Rows.{find, save}
use dhp.Json.{Json, str, object, entries}
use dhp.Lineage.{DatasetRef, OpenLineageEvent, LineageRun, LineageDataset, Edge, Lineage}

pub record Runtime : Type 0 where
  pub upper : String → String
  pub to_str : Json → String
  pub jsonb_concat : Dict Json → Dict Json → Dict Json

abbrev pub run_id_of : LineageRun → String
run_id_of r = r.run_id

abbrev pub dataset_id_of : LineageDataset → String
dataset_id_of d = d.dataset_id

-- `state in _TERMINAL_STATES`
abbrev pub is_terminal : String → Bool
is_terminal state = str_eq state "COMPLETE" || str_eq state "FAIL" || str_eq state "ABORT"

-- `where(namespace == …, name == …)`
abbrev pub find_dataset : String → String → List LineageDataset → Option LineageDataset
find_dataset ns n [] = none
find_dataset ns n (d ∷ ds) =
    if str_eq d.namespace ns && str_eq d.name n then some d else find_dataset ns n ds

module _ (py : Runtime) where
  abbrev str_of : Json → String
  str_of (str s) = s
  str_of v = py.to_str v

  -- The `job_id` under a facet that is a dict.
  abbrev pub job_id_under : Dict Json → String → Option String
  job_id_under facets key = elim (lookup key facets) [
    | none ↦ none
    | some v ↦ elim v [
      | object fs ↦ elim (lookup "job_id" (entries fs)) [ none ↦ none | some j ↦ some (str_of j) ]
      | _ ↦ none
    ]
  ]

  abbrev or_else : Option String → Option String → Option String
  or_else none o = o
  or_else (some s) o = some s

  abbrev app_id : Dict Json → Option String
  app_id facets = elim (lookup "spark.applicationId" facets) [
    | none ↦ none
    | some v ↦ elim v [ str s ↦ some s | _ ↦ none ]
  ]

  -- `_extract_dhp_job_id`
  unfoldable pub extract_dhp_job_id : Dict Json → Option String
  extract_dhp_job_id facets = or_else (job_id_under facets "dhp") (
      or_else (job_id_under facets "spark.applicationId")
        (or_else (job_id_under facets "parent") (app_id facets)))

  abbrev pub merged_facets : OpenLineageEvent → Dict Json
  merged_facets e = merge e.run.facets e.job.facets

  -- The row of a run's first event, and the changes of a later one.
  abbrev pub new_run : OpenLineageEvent → LineageRun
  new_run e = record {
    run_id = e.run.run_id;
    job_namespace = e.job.namespace;
    job_name = e.job.name;
    dhp_job_id = extract_dhp_job_id (merged_facets e);
    state = py.upper e.event_type;
    started_at = if str_eq (py.upper e.event_type) "START" then some e.event_time else none;
    ended_at = if is_terminal (py.upper e.event_type) then some e.event_time else none;
    facets = merged_facets e;
  }

  abbrev pub updated_run : OpenLineageEvent → LineageRun → LineageRun
  updated_run e r = record r {
    state = py.upper e.event_type;
    started_at = if str_eq (py.upper e.event_type) "START" then some e.event_time else r.started_at;
    ended_at = if is_terminal (py.upper e.event_type) then some e.event_time else r.ended_at;
    facets = merge r.facets (merged_facets e);
    dhp_job_id =
        if truthy? (extract_dhp_job_id (merged_facets e)) && not (truthy? r.dhp_job_id)
        then extract_dhp_job_id (merged_facets e)
        else r.dhp_job_id;
  }

  abbrev pub upsert_run : OpenLineageEvent → List LineageRun → List LineageRun
  upsert_run e runs = elim (find run_id_of e.run.run_id runs) [
    | none ↦ runs ++ new_run e ∷ []
    | some r ↦ save run_id_of (updated_run e r) runs
  ]

  -- `_upsert_dataset` with the id drawn for a new row: the id that it returns and the table; `none`
  -- where the drawn id is in use, which raises.
  unfoldable pub upsert_dataset :
      String → DatasetRef → List LineageDataset → Option (String × List LineageDataset)
  upsert_dataset drawn ref ds = elim (find_dataset ref.namespace ref.name ds) [
    | some d ↦ some (
      d.dataset_id,
      save dataset_id_of (record d { facets = py.jsonb_concat d.facets ref.facets }) ds,
    )
    | none ↦
        let row : LineageDataset = record {
          dataset_id = drawn;
          namespace = ref.namespace;
          name = ref.name;
          facets = ref.facets;
        } in
        if is_some (find dataset_id_of drawn ds) then none else some (drawn, ds ++ row ∷ [])
  ]

abbrev pub has_edge : String → String → List Edge → Bool
has_edge r d [] = false
has_edge r d (e ∷ es) = (str_eq e.run_id r && str_eq e.dataset_id d) || has_edge r d es

-- `_link` for one of the two tables.
unfoldable pub link : String → String → List Edge → List Edge
link r d es = if has_edge r d es then es else es ++ (record { run_id = r; dataset_id = d }) ∷ []

module _ (py : Runtime) (draw : DatasetRef → String) (run_id : String) where
  -- The loop over the inputs, or the outputs, of an event, with the table of its edges.
  unfoldable pub link_all :
      List DatasetRef → List LineageDataset → List Edge → Option (List LineageDataset × List Edge)
  link_all [] ds es = some (ds, es)
  link_all (ref ∷ refs) ds es = elim (upsert_dataset py (draw ref) ref ds) [
    | none ↦ none
    | some (d, ds') ↦ link_all refs ds' (link run_id d es)
  ]

-- `ingest`; `none` where it raises, which rolls the session back.
unfoldable pub ingest :
    Runtime → (DatasetRef → String) → OpenLineageEvent → Lineage → Option Lineage
ingest py draw e l = elim (link_all py draw e.run.run_id e.inputs l.datasets l.inputs) [
  | none ↦ none
  | some (ds, ins) ↦ elim (link_all py draw e.run.run_id e.outputs ds l.outputs) [
    | none ↦ none
    | some (ds', outs) ↦
        some
          (record { runs = upsert_run py e l.runs; datasets = ds'; inputs = ins; outputs = outs })
  ]
]

-- `runs_for_dhp_job`; `order` is `ORDER BY created_at DESC`.
unfoldable pub runs_for_dhp_job :
    (List LineageRun → List LineageRun) → String → Lineage → List LineageRun
runs_for_dhp_job order job_id l =
    order (keep (λ r. elim r.dhp_job_id [ none ↦ false | some j ↦ str_eq j job_id ]) l.runs)

unfoldable pub get_dataset : String → String → Lineage → Option LineageDataset
get_dataset ns n l = find_dataset ns n l.datasets
