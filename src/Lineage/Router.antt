-- ===== src/Lineage/Router.antt =====
-- services/lineage-service/app/routers/lineage.py: the endpoints of the lineage service, their errors and
-- the counters they raise. The responses hold the rows themselves.
use dhp.Prelude.{
  ℕ, String, Bool, ◌&&◌, Option, none, some, List, [], ◌∷◌, if◌then◌else◌, leb, get_or,
}
use dhp.Http.{Reply, ok, error}
use dhp.Lineage.{DatasetRef, OpenLineageEvent, LineageRun, LineageDataset, LineageNode, Lineage}
use dhp.Lineage.Service.{Runtime}
use dhp.Lineage.Service as LineageService
use dhp.Lineage.Graph as LineageGraph

pub data Metric : Type 0 where
  lineage_events_total : (event_type outcome : String) → Metric
  lineage_graph_queries_total : (direction outcome : String) → Metric

pub record LineageGraphResponse : Type 0 where
  pub root : LineageDataset
  pub direction : String
  pub nodes : List LineageNode

pub data Response : Type 0 where
  ingested : String → Response
  runs : List LineageRun → Response
  dataset : LineageDataset → Response
  lineage_graph : LineageGraphResponse → Response

-- The service's database and the counters raised so far, the latest first.
pub record System : Type 0 where
  pub lineage : Lineage
  pub metrics : List Metric

abbrev raised : Metric → System → System
raised m s = record s { metrics = m ∷ s.metrics }

module _ (py : Runtime) where
  unfoldable pub ingest :
      (DatasetRef → String) → OpenLineageEvent → System → Reply Response × System
  ingest draw e s = elim (LineageService.ingest py draw e s.lineage) [
    | none ↦ (error 500, raised (lineage_events_total (py.upper e.event_type) "error") s)
    | some l ↦ (
      ok (ingested e.run.run_id),
      record {
        lineage = l;
        metrics = lineage_events_total (py.upper e.event_type) "success" ∷ s.metrics;
      },
    )
  ]

unfoldable pub runs_for_job :
    (List LineageRun → List LineageRun) → String → System → Reply Response × System
runs_for_job order job_id s =
    (ok (runs (LineageService.runs_for_dhp_job order job_id s.lineage)), s)

unfoldable pub get_dataset : String → String → System → Reply Response × System
get_dataset ns name s = elim (LineageService.get_dataset ns name s.lineage) [
  | none ↦ (error 404, s)
  | some d ↦ (ok (dataset d), s)
]

module _ (le : String → String → Bool) where
  -- `_graph`
  unfoldable pub graph_of : String → String → String → ℕ → System → Reply Response × System
  graph_of ns name direction max_depth s = elim (LineageService.get_dataset ns name s.lineage) [
    | none ↦ (error 404, raised (lineage_graph_queries_total direction "not_found") s)
    | some root ↦ elim (LineageGraph.graph le ns name direction max_depth s.lineage) [
      | none ↦ (error 500, s)
      | some nodes ↦ (
        ok (lineage_graph (record { root = root; direction = direction; nodes = nodes })),
        raised (lineage_graph_queries_total direction "success") s,
      )
    ]
  ]

  -- `Query(5, ge=1, le=10)`
  abbrev bounded :
      Option ℕ → (ℕ → System → Reply Response × System) → System → Reply Response × System
  bounded depth run s =
      let max_depth = get_or depth 5 in
      if leb 1 max_depth && leb max_depth 10 then run max_depth s else (error 422, s)

  unfoldable pub upstream : String → String → Option ℕ → System → Reply Response × System
  upstream ns name depth s = bounded depth (graph_of ns name "upstream") s

  unfoldable pub downstream : String → String → Option ℕ → System → Reply Response × System
  downstream ns name depth s = bounded depth (graph_of ns name "downstream") s

-- A part of a path template: a text, `{x}` or `{x:path}`.
pub data Segment : Type 0 where
  literal : String → Segment
  param : String → Segment
  path_param : String → Segment

pub data Endpoint : Type 0 where
  post_event : Endpoint
  get_runs : Endpoint
  get_one : Endpoint
  get_upstream : Endpoint
  get_downstream : Endpoint

pub record Route : Type 0 where
  pub method : String
  pub template : List Segment
  pub endpoint : Endpoint

-- The routes of `router` in the order of their decorators, after the prefix /api/v1/lineage/.
abbrev pub routes : List Route
routes =
    record { method = "POST"; template = literal "" ∷ []; endpoint = post_event }
    ∷ record {
      method = "GET";
      template = literal "jobs" ∷ param "dhp_job_id" ∷ literal "runs" ∷ [];
      endpoint = get_runs;
    }
    ∷ record {
      method = "GET";
      template = literal "datasets" ∷ param "namespace" ∷ path_param "name" ∷ [];
      endpoint = get_one;
    }
    ∷ record {
      method = "GET";
      template =
          literal "datasets" ∷ param "namespace" ∷ path_param "name" ∷ literal "upstream" ∷ [];
      endpoint = get_upstream;
    }
    ∷ record {
      method = "GET";
      template =
          literal "datasets" ∷ param "namespace" ∷ path_param "name" ∷ literal "downstream" ∷ [];
      endpoint = get_downstream;
    }
    ∷ []
