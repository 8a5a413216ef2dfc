-- ===== src/Job/Service.antt =====
-- services/job-service/app/services/job_service.py: `JobService` over the table of jobs, the Kafka
-- client and the metrics. A method takes the clock's reading, the fresh id and the broker's answers
-- as arguments. Log lines and the submission timer are left out.
use dhp.Prelude.{
  ℕ, ◌+◌, String, Bool, true, false, Option, none, some, ltb, if◌then◌else◌, truthy, truthy?,
  is_some,
}
use dhp.Kafka.{Broker}
use dhp.Job.{
  Job, JobStatus, pending, queued, running, success, failed, cancelled, dead, type_value,
  JobCreateRequest, JobStatusUpdate, JobResponse,
}
use dhp.Job.Table.{find, add}
pub use dhp.Job.World.{
  Metric, World, job_topic, status_topic, record_metric, flush, job_event, retry_event,
  cancel_event, send, jobs_submitted, jobs_queued, jobs_failed, jobs_completed, jobs_active_inc,
  jobs_active_dec, job_retries,
}

-- The row that `create_job` adds.
abbrev pub new_job : String → ℕ → JobCreateRequest → Job
new_job job_id now r = record {
  job_id = job_id;
  job_name = r.job_name;
  job_type = r.job_type;
  status = pending;
  spark_config = r.spark_config;
  entrypoint = r.entrypoint;
  arguments = r.arguments;
  database_name = r.database_name;
  table_name = r.table_name;
  container_id = none;
  submitted_by = r.submitted_by;
  submitted_at = now;
  started_at = none;
  completed_at = none;
  error_message = none;
  retry_count = 0;
  max_retries = r.max_retries;
}

-- The response that `get_job` and `list_jobs` build from a row.
unfoldable pub response : Job → JobResponse
response j = record {
  job_id = j.job_id;
  job_name = j.job_name;
  job_type = type_value j.job_type;
  status = j.status;
  spark_config = j.spark_config;
  entrypoint = j.entrypoint;
  arguments = j.arguments;
  database_name = j.database_name;
  table_name = j.table_name;
  container_id = j.container_id;
  submitted_by = j.submitted_by;
  submitted_at = some j.submitted_at;
  started_at = j.started_at;
  completed_at = j.completed_at;
  error_message = j.error_message;
  retry_count = j.retry_count;
  max_retries = j.max_retries;
  message = none;
}

abbrev pub queued_message : String
queued_message = "Job accepted and queued for execution"

abbrev pub not_queued_message : String
not_queued_message =
    "Job accepted but not queued due to a messaging error. Please retry once Kafka is healthy."

abbrev pub enqueue_error : String
enqueue_error = "Kafka enqueue failed; job is still pending"

-- The response of `create_job`; the fields it does not pass keep the response model's defaults.
abbrev pub created : Bool → Job → JobResponse
created was_queued j = record (response j) {
  container_id = none;
  started_at = none;
  completed_at = none;
  error_message = if was_queued then none else j.error_message;
  retry_count = 0;
  message = some (if was_queued then queued_message else not_queued_message);
}

-- The two ends of the `try` around the submission's event.
abbrev enqueued : Job → Bool → World → JobResponse × World
unfolding response
enqueued job true w =
    let job' = record job { status = queued } in
    (
      created true job',
      flush job'
          (record_metric jobs_active_inc (record_metric (jobs_queued (type_value job.job_type)) w)),
    )
enqueued job false w =
    let job' = record job { status = pending; error_message = some enqueue_error } in
    (created false job', flush job' (record_metric (jobs_failed "kafka_enqueue_error") w))

-- `create_job`; `none` when the INSERT violates the primary key, which raises.
unfoldable pub create_job :
    String → ℕ → Broker → JobCreateRequest → World → Option JobResponse × World
unfolding response
create_job job_id now b request w =
    let submitter = if truthy request.submitted_by then request.submitted_by else "unknown" in
    let w' = record_metric (jobs_submitted (type_value request.job_type) submitter) w in
    let job = new_job job_id now request in
    let (sent, w'') =
      send b job_topic job_id (job_event job) (record w' { jobs = add job w'.jobs }) in
    let (r, w''') = enqueued job sent w'' in
    if is_some (find job_id w.jobs) then (none, w') else (some r, w''')

-- `get_job`
unfoldable pub get_job : String → World → Option JobResponse
unfolding response
get_job job_id w = elim (find job_id w.jobs) [ none ↦ none | some j ↦ some (response j) ]

-- `update.status in (SUCCESS, FAILED, CANCELLED, DEAD)`
abbrev pub ends : JobStatus → Bool
ends success = true
ends failed = true
ends cancelled = true
ends dead = true
ends _ = false

-- The assignments of `update_job_status` before the retry logic.
abbrev pub reported : JobStatusUpdate → ℕ → Job → Job
reported u now j = record j {
  status = u.status;
  container_id = if truthy? u.container_id then u.container_id else j.container_id;
  error_message = if truthy? u.error_message then u.error_message else j.error_message;
  started_at = elim u.status [ pending ↦ j.started_at | running ↦ some now | _ ↦ j.started_at ];
  completed_at = if ends u.status then some now else j.completed_at;
}

-- The metrics of the same part: the gauge falls at each end, and three of them are counted.
abbrev pub count_end : JobStatusUpdate → Job → World → World
count_end u j w = elim u.status [
  | success ↦
      record_metric (jobs_completed (type_value j.job_type)) (record_metric jobs_active_dec w)
  | dead ↦ record_metric (jobs_failed "max_retries_exceeded") (record_metric jobs_active_dec w)
  | failed ↦ record_metric jobs_active_dec w
  | cancelled ↦ record_metric (jobs_failed "cancelled") (record_metric jobs_active_dec w)
  | _ ↦ w
]

-- The branch of the retry: whether the event is sent or not, the row goes on.
abbrev requeue : Broker → Job → World → Job × World
requeue b j w =
    let j' = record j { retry_count = j.retry_count + 1; status = queued } in
    (
      j',
      (send b job_topic j'.job_id (retry_event j')
          (record_metric jobs_active_inc (record_metric job_retries w))).1,
    )

abbrev bury : Job → World → Job × World
bury j w = (record j { status = dead }, record_metric (jobs_failed "max_retries_exceeded") w)

abbrev pub retry_logic : JobStatus → Broker → Job → World → Job × World
retry_logic failed b j w = if ltb j.retry_count j.max_retries then requeue b j w else bury j w
retry_logic _ b j w = (j, w)

abbrev updated : Broker → ℕ → JobStatusUpdate → Job → World → World
updated b now u j w =
    let (j', w') = retry_logic u.status b (reported u now j) (count_end u j w) in flush j' w'

-- `update_job_status`
unfoldable pub update_job_status :
    String → Broker → ℕ → JobStatusUpdate → World → Option JobResponse × World
unfolding get_job
update_job_status job_id b now u w = elim (find job_id w.jobs) [
  | none ↦ (none, w)
  | some j ↦ let w' = updated b now u j w in (get_job j.job_id w', w')
]

-- `job.status in (SUCCESS, DEAD, CANCELLED)`
abbrev pub is_terminal : JobStatus → Bool
is_terminal success = true
is_terminal dead = true
is_terminal cancelled = true
is_terminal _ = false

abbrev cancel : Broker → ℕ → Job → World → World
cancel b now j w =
    let j' = record j { status = cancelled; completed_at = some now } in
    flush j' (send b status_topic j'.job_id (cancel_event j') w).1

-- `cancel_job`
unfoldable pub cancel_job : String → Broker → ℕ → World → Option JobResponse × World
unfolding get_job
cancel_job job_id b now w = elim (find job_id w.jobs) [
  | none ↦ (none, w)
  | some j ↦
      let w' = cancel b now j w in
      if is_terminal j.status then (get_job j.job_id w, w) else (get_job j.job_id w', w')
]
