-- ===== src/Lineage.antt =====
-- The data of the lineage service: services/lineage-service/app/models/__init__.py and db/models.py.
-- Time stamps that the database sets, and the ids of the edges, are left out.
pub mod Service
pub mod Datasets
pub mod Edges
pub mod Integrity
pub mod Recorded
pub mod Replay
pub mod Graph
pub mod Nearest
pub mod Walk
pub mod Reach
pub mod Router
pub mod Routes
mod Tests
use dhp.Prelude.{ℕ, String, Option, List}
use dhp.Prelude.Dict.{Dict}
use dhp.Json.{Json}

pub record DatasetRef : Type 0 where
  pub namespace : String
  pub name : String
  pub facets : Dict Json

pub record JobRef : Type 0 where
  pub namespace : String
  pub name : String
  pub facets : Dict Json

pub record RunRef : Type 0 where
  pub run_id : String
  pub facets : Dict Json

pub record OpenLineageEvent : Type 0 where
  pub event_type : String
  pub event_time : ℕ
  pub run : RunRef
  pub job : JobRef
  pub inputs : List DatasetRef
  pub outputs : List DatasetRef
  pub producer : Option String

-- The rows of the four tables. An edge is the run's and the dataset's id.
pub record LineageRun : Type 0 where
  pub run_id : String
  pub job_namespace : String
  pub job_name : String
  pub dhp_job_id : Option String
  pub state : String
  pub started_at : Option ℕ
  pub ended_at : Option ℕ
  pub facets : Dict Json

pub record LineageDataset : Type 0 where
  pub dataset_id : String
  pub namespace : String
  pub name : String
  pub facets : Dict Json

pub record Edge : Type 0 where
  pub run_id : String
  pub dataset_id : String

-- One hop in a traversal.
pub record LineageNode : Type 0 where
  pub namespace : String
  pub name : String
  pub depth : ℕ

-- What the session sees of the database.
pub record Lineage : Type 0 where
  pub runs : List LineageRun
  pub datasets : List LineageDataset
  pub inputs : List Edge
  pub outputs : List Edge
