-- ===== src/Pipeline/Tests.antt =====
-- Runs of the platform, and its theorems at concrete jobs.
use dhp.Prelude.{
  ℕ, ◌+◌, ◌*◌, ◌≤◌, String, true, Option, none, some, List, [], ◌∷◌, ◌≡◌, refl, All, count,
}
use dhp.Prelude.Int.{ℤ}
use dhp.Json.{Json, int, str}
use dhp.Kafka.{Broker, acknowledged, started, send_job_event, get_kafka_producer}
use dhp.Job.{spark_sql, Job, JobCreateRequest, provisioning, cancelled, accepts}
use dhp.Job.Service.{
  World, new_job, job_event, retry_event, cancel_event, create_job, cancel_job, update_job_status,
}
use dhp.Orchestrator.{Settings, Python}
use dhp.Orchestrator.Ecs.{
  Answer, raises, returns, create_spark_job, run_task_request, LaunchError, client_error,
}
use dhp.Orchestrator.Consumer.{cancellation, process_message, attempts}
use dhp.Security.{Tokens, require_token}
use dhp.Pipeline.{Platform, parse_status, next_round, rounds}
use dhp.Pipeline.Events.{IsRead, events-IsRead}
use dhp.Pipeline.System.{Act, request, consume, run_all, advance, empty as idle, budget, IsOfRow}
use dhp.Pipeline.Requests.{is_run_of}
use dhp.Pipeline.Turns.{run_all_launches}
use dhp.Pipeline.Cancelled.{IsLaunched, cancelled_job_launched}
use dhp.Job.Router.{submit, cancel, handle}
use dhp.Job.Table.{find}
use dhp.Pipeline.Rounds.{IsDead, refused_job}

abbrev settings : Settings
settings = record {
  kafka_brokers = "kafka:9092";
  runtime_kafka_brokers = none;
  job_service_url = "http://jobs";
  runtime_job_service_url = some "http://jobs.internal";
  internal_api_token = "token";
  ecs_cluster = "lake";
  spark_task_definition = "spark";
  spark_subnets = [];
  spark_security_groups = [];
  spark_container_name = "spark";
  default_max_retries = 3;
}

abbrev to_int : Json → Option ℤ
to_int (int z) = some z
to_int _ = none

abbrev python : Python
python = record { to_int = to_int; to_str = λ _. "v"; int_to_str = λ _. "n" }

abbrev describe : Option LaunchError → String
describe _ = "error"

abbrev broker : Broker
broker = record { starts = true; delivers = λ _. acknowledged }

abbrev etl : JobCreateRequest
etl = record {
  job_name = "etl";
  job_type = spark_sql;
  entrypoint = "s3://scripts/etl.py";
  arguments = "--date" ∷ "2026-03-22" ∷ [];
  spark_config = ("spark.executor.cores", str "2") ∷ [];
  database_name = none;
  table_name = none;
  submitted_by = "team";
  max_retries = 2;
}

abbrev empty : World
empty = record { jobs = []; kafka = record { producer = started; stored = [] }; metrics = [] }

abbrev throttled : ℕ → ℕ → Answer
throttled event attempt = raises "throttled"

parse_status_test : parse_status "PROVISIONING" ≡ some provisioning
parse_status_test = refl

events-IsRead_example :
    IsRead settings python (new_job "j" 1 etl) 0 (job_event (new_job "j" 1 etl))
    × IsRead settings python (new_job "j" 1 etl) 0 (retry_event (new_job "j" 1 etl))
    × (cancellation (cancel_event (new_job "j" 1 etl)) ≡ some (some (str "j")))
events-IsRead_example = events-IsRead settings python (new_job "j" 1 etl) (λ n. refl)

refused_job_example : IsDead "j" 2 (
    rounds settings python describe broker throttled 9 3
      (record { world = (create_job "j" 1 broker etl empty).1; offset = 0; actions = [] }))
refused_job_example =
    refused_job settings python describe broker throttled 1 9 "j" etl empty refl (λ n. refl)
      (λ e k. (client_error "throttled", refl)) refl refl

abbrev tokens : Tokens
tokens = record { api_key = "key"; internal_api_token = "internal" }

-- A submission, its event refused by ECS, the retry refused as well, and a request with a wrong key.
abbrev turns : List Act
turns =
    request (some "key") (submit "j" 1 broker etl)
    ∷ consume broker (throttled 0) 2
    ∷ request (some "wrong") (cancel "j" 3 broker)
    ∷ consume broker (throttled 1) 4
    ∷ []

run_all_launches_example :
    let p = run_all settings python describe tokens turns idle in
    let n = budget "j" p.world.jobs in
    All (IsOfRow settings python p.world.jobs) p.actions
    × (count (is_run_of "j") p.actions ≤ (n + 1) * n)
run_all_launches_example = run_all_launches settings python describe tokens turns "j" (λ n. refl)

turns_test : count (is_run_of "j") (run_all settings python describe tokens turns idle).actions ≡ 4
unfolding run_all advance handle next_round process_message attempts create_spark_job
    run_task_request create_job update_job_status send_job_event get_kafka_producer require_token
    accepts
turns_test = refl

abbrev launches : ℕ → ℕ → Answer
launches event attempt = returns [] ("arn" ∷ [])

cancelled_job_launched_example :
    let p : Platform = record {
      world = (cancel_job "j" broker 2 (create_job "j" 1 broker etl empty).1).1;
      offset = 0;
      actions = [];
    } in
    (j : Job) × (find "j" p.world.jobs ≡ some j)
    × (j.status ≡ cancelled)
    × IsLaunched "j" "arn" p (next_round settings python describe broker launches 9 p)
cancelled_job_launched_example =
    cancelled_job_launched settings python describe broker launches 1 2 9 "j" etl empty 1 "arn" refl
      (λ n. refl) refl refl refl refl refl
