-- ===== src/Job.antt =====
-- The data of the job service: services/job-service/app/models/enums.py and job.py, and the row of
-- services/job-service/app/db/models.py. Instants are numbers (a clock reading is an argument of the
-- operation that takes one); texts are texts; JSON columns are `Dict Json`.
pub mod Table
pub mod World
pub mod Service
pub mod Router
pub mod Effects
pub mod Invariant
pub mod Retry
pub mod Unknown
pub mod Submit
pub mod Cancel
pub mod Gauge
pub mod Access
pub mod Lifecycle
pub mod Session
pub mod Listing
mod Logs
mod Tests
use Prim.Native.Nat.{zero}
use dhp.Prelude.{
  ℕ, ◌≤◌, String, Bool, true, false, ◌&&◌, Option, none, some, List, [], ◌≡◌, refl, leb, str_eq,
  if◌then◌else◌,
}
use Prim.Native.String.{count}
use dhp.Prelude.Dict.{Dict}
use dhp.Json.{Json}

pub data JobStatus : Type 0 where
  pending queued provisioning running success failed cancelled dead : JobStatus

-- The value of the enum's member, which is what the column and the API carry.
abbrev pub value : JobStatus → String
value pending = "PENDING"
value queued = "QUEUED"
value provisioning = "PROVISIONING"
value running = "RUNNING"
value success = "SUCCESS"
value failed = "FAILED"
value cancelled = "CANCELLED"
value dead = "DEAD"

pub data JobType : Type 0 where
  spark_sql spark_etl spark_ml spark_streaming : JobType

abbrev pub type_value : JobType → String
type_value spark_sql = "spark_sql"
type_value spark_etl = "spark_etl"
type_value spark_ml = "spark_ml"
type_value spark_streaming = "spark_streaming"

pub record JobCreateRequest : Type 0 where
  pub job_name : String
  pub job_type : JobType
  pub entrypoint : String
  pub arguments : List String
  pub spark_config : Dict Json
  pub database_name : Option String
  pub table_name : Option String
  pub submitted_by : String
  pub max_retries : ℕ

-- The bounds that the request's fields declare.
unfoldable pub accepts : JobCreateRequest → Bool
accepts r = leb 1 (count r.job_name) && leb (count r.job_name) 255 && leb r.max_retries 10

-- A row of the table `jobs`. The columns `created_at` and `updated_at`, which the service never
-- reads, are left out. The status column holds the value of the member that stands here.
pub record Job : Type 0 where
  pub job_id : String
  pub job_name : String
  pub job_type : JobType
  pub status : JobStatus
  pub spark_config : Dict Json
  pub entrypoint : String
  pub arguments : List String
  pub database_name : Option String
  pub table_name : Option String
  pub container_id : Option String
  pub submitted_by : String
  pub submitted_at : ℕ
  pub started_at : Option ℕ
  pub completed_at : Option ℕ
  pub error_message : Option String
  pub retry_count : ℕ
  pub max_retries : ℕ

pub record JobStatusUpdate : Type 0 where
  pub status : JobStatus
  pub container_id : Option String
  pub error_message : Option String
  pub exit_code : Option ℕ

-- A response is the row's columns, with a message after a submission.
pub record JobResponse : Type 0 where
  pub job_id : String
  pub job_name : String
  pub job_type : String
  pub status : JobStatus
  pub spark_config : Dict Json
  pub entrypoint : String
  pub arguments : List String
  pub database_name : Option String
  pub table_name : Option String
  pub container_id : Option String
  pub submitted_by : String
  pub submitted_at : Option ℕ
  pub started_at : Option ℕ
  pub completed_at : Option ℕ
  pub error_message : Option String
  pub retry_count : ℕ
  pub max_retries : ℕ
  pub message : Option String
