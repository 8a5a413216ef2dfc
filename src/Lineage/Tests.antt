-- ===== src/Lineage/Tests.antt =====
-- Runs of the lineage service, and its theorems at concrete tables.
use dhp.Prelude.{
  String, Bool, true, false, ◌&&◌, ◌||◌, Option, none, some, List, [], ◌∷◌, map, ◌≡◌, ◌≢◌, ◌↔◌,
  refl, str_eq, if◌then◌else◌, is_some,
}
use mathlib.Core.List.{Memᴰ}
use dhp.Prelude.Dict.{merge}
use dhp.Json.{str, object, fields}
use dhp.Http.{error}
use dhp.Lineage.{DatasetRef, OpenLineageEvent, LineageDataset, Edge, LineageNode, Lineage}
use dhp.Lineage.Service.{Runtime, ingest, extract_dhp_job_id, upsert_dataset, link, link_all}
use dhp.Lineage.Datasets.{identity}
use dhp.Lineage.Integrity.{IsValidLineage, ingest_all, ingest_all-IsValidLineage}
use dhp.Lineage.Replay.{ingest_again}
use dhp.Lineage.Graph.{graph}
use dhp.Lineage.Reach.{IsAnswer, graph_answers}
use dhp.Lineage.Router.{
  Segment, literal, param, path_param, Endpoint, get_one, get_upstream, get_downstream, Route,
  routes, upstream,
}
use dhp.Lineage.Routes.{Dispatcher, IsFastApi, graph_routes_unreached}

abbrev py : Runtime
py = record { upper = λ s. s; to_str = λ j. "value"; jsonb_concat = λ old new. merge old new }

abbrev dataset_ref : String → DatasetRef
dataset_ref n = record { namespace = "s3"; name = n; facets = [] }

-- A run that reads the first dataset and writes the second.
abbrev event : String → String → String → OpenLineageEvent
event run input output = record {
  event_type = "COMPLETE";
  event_time = 7;
  run = record {
    run_id = run;
    facets = ("dhp", object (fields (("job_id", str "job-1") ∷ []))) ∷ [];
  };
  job = record { namespace = "dhp"; name = "etl"; facets = [] };
  inputs = dataset_ref input ∷ [];
  outputs = dataset_ref output ∷ [];
  producer = none;
}

abbrev draw : DatasetRef → String
draw ref = ref.name

abbrev empty : Lineage
empty = record { runs = []; datasets = []; inputs = []; outputs = [] }

abbrev dataset_row : String → LineageDataset
dataset_row n = record { dataset_id = n; namespace = "s3"; name = n; facets = [] }

abbrev edge : String → String → Edge
edge r d = record { run_id = r; dataset_id = d }

-- raw → clean → report, and raw → report.
abbrev traced : Lineage
traced = record {
  runs = [];
  datasets = dataset_row "raw" ∷ dataset_row "clean" ∷ dataset_row "report" ∷ [];
  inputs = edge "r1" "raw" ∷ edge "r2" "clean" ∷ edge "r3" "raw" ∷ [];
  outputs = edge "r1" "clean" ∷ edge "r2" "report" ∷ edge "r3" "report" ∷ [];
}

empty-IsValidLineage : IsValidLineage empty
empty-IsValidLineage = record {
  runs = tt;
  datasets = record { ids = tt; names = tt };
  inputs = record { distinct = tt; refer = tt };
  outputs = record { distinct = tt; refer = tt };
}

abbrev by_length : String → String → Bool
by_length s t = true

extract_test : extract_dhp_job_id py (event "r1" "raw" "clean").run.facets ≡ some "job-1"
unfolding extract_dhp_job_id
extract_test = refl

graph_test :
    graph by_length "s3" "report" "upstream" 5 traced
    ≡ some (
        (record { namespace = "s3"; name = "clean"; depth = 1 })
        ∷ (record { namespace = "s3"; name = "raw"; depth = 1 })
        ∷ [])
unfolding graph
graph_test = refl

upstream_test :
    (upstream by_length "s3" "report" (some 11) (record { lineage = traced; metrics = [] })).0
    ≡ error 422
unfolding upstream
upstream_test = refl

ingest_all-IsValidLineage_example : IsValidLineage (
    ingest_all py
      ((draw, event "r1" "raw" "clean") ∷ (draw, event "r2" "clean" "report") ∷ [])
      empty)
ingest_all-IsValidLineage_example =
    ingest_all-IsValidLineage py
      ((draw, event "r1" "raw" "clean") ∷ (draw, event "r2" "clean" "report") ∷ []) empty
      empty-IsValidLineage

abbrev after : Lineage
after = record {
  runs =
      (record {
        run_id = "r1";
        job_namespace = "dhp";
        job_name = "etl";
        dhp_job_id = some "job-1";
        state = "COMPLETE";
        started_at = none;
        ended_at = some 7;
        facets = ("dhp", object (fields (("job_id", str "job-1") ∷ []))) ∷ [];
      })
      ∷ [];
  datasets = dataset_row "raw" ∷ dataset_row "clean" ∷ [];
  inputs = edge "r1" "raw" ∷ [];
  outputs = edge "r1" "clean" ∷ [];
}

ingest_test : ingest py draw (event "r1" "raw" "clean") empty ≡ some after
unfolding ingest upsert_dataset link link_all extract_dhp_job_id
ingest_test = refl

ingest_again_example :
    (l'' : Lineage) × (ingest py (λ ref. "other") (event "r1" "raw" "clean") after ≡ some l'')
    × (l''.runs ≡ after.runs)
    × (l''.inputs ≡ after.inputs)
    × (l''.outputs ≡ after.outputs)
    × (map identity l''.datasets ≡ map identity after.datasets)
ingest_again_example =
    ingest_again py draw (λ ref. "other") (event "r1" "raw" "clean") empty (refl, tt)
      empty-IsValidLineage ingest_test

graph_answers_example :
    ((nodes : List LineageNode) × (graph by_length "s3" "report" "upstream" 5 traced ≡ some nodes)
      × ((a : LineageNode)
          → Memᴰ a nodes ↔ IsAnswer traced.outputs traced.inputs traced.datasets "s3" "report" 5 a))
    × ((nodes : List LineageNode) × (graph by_length "s3" "report" "downstream" 5 traced
          ≡ some nodes)
        × ((a : LineageNode)
            → Memᴰ a nodes
              ↔ IsAnswer traced.inputs traced.outputs traced.datasets "s3" "report" 5 a))
    × ((direction : String)
        → is_some (graph by_length "s3" "report" direction 5 traced)
          ≡ (str_eq direction "upstream" || str_eq direction "downstream"))
graph_answers_example = graph_answers by_length "s3" "report" 5 traced

-- A dispatcher as FastAPI documents it, for the templates that end in a `:path` parameter.
abbrev fits : List Segment → List String → Bool
fits [] [] = true
fits [] (s ∷ ss) = false
fits (t ∷ ts) [] = false
fits (literal t ∷ ts) (s ∷ ss) = str_eq t s && fits ts ss
fits (param t ∷ ts) (s ∷ ss) = fits ts ss
fits (path_param t ∷ []) (s ∷ ss) = true
fits (path_param t ∷ u ∷ ts) (s ∷ ss) = fits (u ∷ ts) ss || fits (path_param t ∷ u ∷ ts) ss

abbrev dispatch : List Route → String → List String → Option Endpoint
dispatch [] method path = none
dispatch (r ∷ rs) method path =
    if str_eq r.method method && fits r.template path
    then some r.endpoint
    else dispatch rs method path

abbrev fast_api : Dispatcher
fast_api = record { matches = fits; dispatch = dispatch }

fast_api-IsFastApi : IsFastApi fast_api
fast_api-IsFastApi = record {
  matches_literal = λ t s ts ss. refl;
  matches_param = λ t s ts ss. refl;
  matches_path = λ t s ss. refl;
  matches_short = λ t ts. refl;
  dispatch_none = λ method path. refl;
  dispatch_first = λ r rs method path. refl;
}

graph_routes_unreached_example :
    (dispatch routes "GET" ("datasets" ∷ "s3" ∷ "sales" ∷ "upstream" ∷ []) ≢ some get_upstream)
    × (dispatch routes "GET" ("datasets" ∷ "s3" ∷ "sales" ∷ "upstream" ∷ []) ≢ some get_downstream)
    × ((ns name : String) (rest : List String)
        → dispatch routes "GET" ("datasets" ∷ ns ∷ name ∷ rest) ≡ some get_one)
graph_routes_unreached_example =
    graph_routes_unreached fast_api "GET" ("datasets" ∷ "s3" ∷ "sales" ∷ "upstream" ∷ [])
      fast_api-IsFastApi
