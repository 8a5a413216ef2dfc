-- ===== src/Pipeline/Events.antt =====
-- The events of services/job-service/app/services/job_service.py, as the orchestrator's consumers and its
-- ECS client read them.
use dhp.Prelude.{ℕ, String, none, some, List, [], ◌∷◌, ◌≡◌, refl, join, ap}
use dhp.Prelude.Int.{pos}
use dhp.Prelude.Dict.{Dict}
use dhp.Json.{Json, int, str, items, fields, entries}
use dhp.Job.{Job}
use dhp.Job.Service.{job_event, retry_event, cancel_event}
use dhp.Orchestrator.{Settings, Python, int_field, or_text}
use dhp.Orchestrator.Ecs.{
  RunTask, text_at, arguments_of, spark_conf, texts, conf_parts, started_by, callback_url,
  run_task_request,
}
use dhp.Orchestrator.Consumer.{event_id, cancellation}

pub texts-items : (ss : List String) → texts (items ss) ≡ some ss
texts-items [] = refl
texts-items (s ∷ ss) = rw (texts-items ss)

pub entries-fields : (d : Dict Json) → entries (fields d) ≡ d
entries-fields [] = refl
entries-fields ((k, v) ∷ d) = ap (◌∷◌ (k, v)) (entries-fields d)

-- The request for a job: its id, its entrypoint, its arguments joined by spaces, one option per entry of
-- its configuration, the number of the retry, and the settings.
abbrev pub request_of : Settings → Python → Job → ℕ → RunTask
request_of s py j retry_count = record {
  cluster = s.ecs_cluster;
  task_definition = s.spark_task_definition;
  subnets = s.spark_subnets;
  security_groups = s.spark_security_groups;
  container_name = s.spark_container_name;
  environment =
      ("JOB_ID", j.job_id)
      ∷ ("JOB_RETRY_COUNT", py.int_to_str (pos retry_count))
      ∷ ("ENTRYPOINT_SCRIPT", j.entrypoint)
      ∷ ("ARGUMENTS", join " " j.arguments)
      ∷ ("SPARK_EXTRA_CONF", join " " (conf_parts py j.spark_config))
      ∷ ("KAFKA_BROKERS", or_text s.runtime_kafka_brokers s.kafka_brokers)
      ∷ ("CALLBACK_URL", callback_url s j.job_id)
      ∷ ("INTERNAL_API_TOKEN", s.internal_api_token)
      ∷ [];
  tags =
      ("job-id", j.job_id) ∷ ("retry", py.int_to_str (pos retry_count)) ∷ ("app", "dhp-spark") ∷ [];
  started_by = started_by j.job_id;
}

request_read :
    (s : Settings) (py : Python) (j : Job) (n : ℕ) (event : Dict Json)
    → text_at "job_id" event ≡ some j.job_id
    → int_field py "retry_count" 0 event ≡ some (pos n)
    → arguments_of event ≡ some (join " " j.arguments)
    → spark_conf py event ≡ some (join " " (conf_parts py j.spark_config))
    → text_at "entrypoint" event ≡ some j.entrypoint
    → run_task_request s py event ≡ some (request_of s py j n)
unfolding run_task_request
request_read s py j n event id count args conf script =
    rw (run_task_request, id, count, args, conf, script) refl

joined : (j : Job) → arguments_of (job_event j) ≡ some (join " " j.arguments)
joined j = ap (λ o. elim o [ none ↦ none | some ss ↦ some (join " " ss) ]) (texts-items j.arguments)

configured :
    (py : Python) (j : Job)
    → spark_conf py (job_event j) ≡ some (join " " (conf_parts py j.spark_config))
configured py j = ap (λ d. some (join " " (conf_parts py d))) (entries-fields j.spark_config)

-- How the consumers read an event of a job.
pub record IsRead (s : Settings) (py : Python) (j : Job) (retry_count : ℕ) (event : Dict Json)
    : Type 0 where
  pub id : event_id py event ≡ j.job_id
  pub budget : int_field py "max_retries" s.default_max_retries event ≡ some (pos j.max_retries)
  pub request : run_task_request s py event ≡ some (request_of s py j retry_count)
  pub no_cancellation : cancellation event ≡ none

-- What the job service publishes of a row is read back by the orchestrator as that row, where `int` of an
-- integer is that integer: a submission with retry count 0 and a retry with the row's count
-- give the job's id, its budget and a request with its id, entrypoint, arguments and configuration, and
-- do not cancel; a cancellation is read as one of the row's job.
pub events-IsRead :
    (s : Settings) (py : Python) (j : Job)
    → ((n : ℕ) → py.to_int (int (pos n)) ≡ some (pos n))
    → IsRead s py j 0 (job_event j)
      × IsRead s py j j.retry_count (retry_event j)
      × (cancellation (cancel_event j) ≡ some (some (str j.job_id)))
unfolding cancellation
events-IsRead s py j read = (
  record {
    id = refl;
    budget = read j.max_retries;
    request = request_read s py j 0 (job_event j) refl refl (joined j) (configured py j) refl;
    no_cancellation = refl;
  },
  record {
    id = refl;
    budget = read j.max_retries;
    request =
        request_read s py j j.retry_count (retry_event j) refl (read j.retry_count) (joined j)
          (configured py j) refl;
    no_cancellation = refl;
  },
  refl,
)
