-- ===== src/Job/World.antt =====
-- What the methods of services/job-service/app/services/job_service.py share: the state, and the events that
-- they send.
use dhp.Prelude.{String, Bool, true, List, [], ◌∷◌, ◌++◌}
use dhp.Prelude.Int.{pos}
use dhp.Prelude.Dict.{Dict}
use dhp.Json.{Json, bool, int, str, object, strings, fields, optional}
use dhp.Kafka.{Broker, Kafka, send_job_event}
use dhp.Job.{Job, type_value}
use dhp.Job.Table.{save}

-- The increments and decrements of metrics.py, with their labels.
pub data Metric : Type 0 where
  jobs_submitted : String → String → Metric
  jobs_queued jobs_failed jobs_completed : String → Metric
  jobs_active_inc jobs_active_dec job_retries : Metric

-- What the methods share: the table, the Kafka client and what the metrics have recorded, newest
-- first.
pub record World : Type 0 where
  pub jobs : List Job
  pub kafka : Kafka
  pub metrics : List Metric

-- The settings `kafka_job_topic` and `kafka_job_status_topic`.
abbrev pub job_topic : String
job_topic = "spark-job-submissions"

abbrev pub status_topic : String
status_topic = "spark-job-status"

abbrev pub record_metric : Metric → World → World
record_metric m w = record w { metrics = m ∷ w.metrics }

abbrev pub flush : Job → World → World
flush j w = record w { jobs = save j w.jobs }

-- The event of `create_job`, which is also the first part of the one that a retry sends.
abbrev pub job_event : Job → Dict Json
job_event j =
    ("job_id", str j.job_id)
    ∷ ("job_name", str j.job_name)
    ∷ ("job_type", str (type_value j.job_type))
    ∷ ("entrypoint", str j.entrypoint)
    ∷ ("arguments", strings j.arguments)
    ∷ ("spark_config", object (fields j.spark_config))
    ∷ ("database_name", optional j.database_name)
    ∷ ("table_name", optional j.table_name)
    ∷ ("max_retries", int (pos j.max_retries))
    ∷ ("submitted_by", str j.submitted_by)
    ∷ []

abbrev pub retry_event : Job → Dict Json
retry_event j = job_event j ++ ("retry", bool true) ∷ ("retry_count", int (pos j.retry_count)) ∷ []

abbrev pub cancel_event : Job → Dict Json
cancel_event j =
    ("job_id", str j.job_id)
    ∷ ("action", str "cancel")
    ∷ ("container_id", optional j.container_id)
    ∷ []

-- `send_job_event` from a method: whether it returned, and the world after it.
abbrev pub send : Broker → String → String → Dict Json → World → Bool × World
send b topic key event w =
    let (sent, k) = send_job_event b (record { topic = topic; key = key; value = event }) w.kafka in
    (sent, record w { kafka = k })
