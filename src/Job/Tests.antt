-- ===== src/Job/Tests.antt =====
-- Runs of the job service, and its theorems at concrete requests.
use dhp.Prelude.{
  ℕ, false, ◌+◌, String, Bool, true, Option, none, some, List, [], ◌∷◌, ◌≡◌, ◌⊎◌, refl, arith,
  eq_iff,
}
use dhp.Kafka.{Broker, Delivery, Producer, acknowledged, rejected, started, send_job_event}
use dhp.Security.{Tokens}
use dhp.Job.{
  Job, JobStatus, queued, running, success, failed, cancelled, dead, spark_sql, JobCreateRequest,
  JobStatusUpdate, JobResponse,
}
use dhp.Job.Table.{find}
use dhp.Job.Service.{
  World, new_job, create_job, update_job_status, cancel_job, get_job, response, is_terminal,
  status_topic, cancel_event,
}
use dhp.Job.Router.{Call, submit, get, cancel, update_status, endpoint, handle, serve, error}
use dhp.Job.Invariant.{IsValidTable, serve-IsValidTable}
use dhp.Job.Retry.{Report, report_all, Exhausts, report_all-Exhausts}
use dhp.Job.Submit.{IsQueued, create_job_outcome}
use dhp.Job.Cancel.{cancel_job_active, terminal_job_requeued, retry_message}
use dhp.Job.Gauge.{increments, decrements, gauge-update_job_status, gauge-cancel_job}
use dhp.Job.Access.{handle_authorized, handle_unauthorized}
use dhp.Job.Lifecycle.{Moves, serve-Steps}
use dhp.Job.Listing.{Filters}
use dhp.Job.Session.{serve_db}

abbrev delivers : Producer → Delivery
delivers started = acknowledged
delivers _ = rejected

abbrev broker : Broker
broker = record { starts = true; delivers = delivers }

abbrev request : JobCreateRequest
request = record {
  job_name = "daily_sales_etl";
  job_type = spark_sql;
  entrypoint = "s3://scripts/etl.py";
  arguments = "--date" ∷ "2026-03-22" ∷ [];
  spark_config = [];
  database_name = some "sales_db";
  table_name = none;
  submitted_by = "team";
  max_retries = 2;
}

abbrev empty : World
empty = record { jobs = []; kafka = record { producer = started; stored = [] }; metrics = [] }

abbrev tokens : Tokens
tokens = record { api_key = "key"; internal_api_token = "token" }

abbrev report : JobStatus → JobStatusUpdate
report s = record { status = s; container_id = none; error_message = none; exit_code = none }

abbrev calls : List (Option String × Call)
calls =
    (some "key", submit "j1" 5 broker request)
    ∷ (some "token", update_status "j1" 6 broker (report failed))
    ∷ (none, cancel "j1" 7 broker)
    ∷ []

-- A rejected row is the row of the second of two submissions.
abbrev row : JobStatus → Job
row s = record (new_job "j1" 5 request) { status = s }

abbrev with_row : JobStatus → World
with_row s = record empty { jobs = row s ∷ [] }

serve-IsValidTable_example : IsValidTable (serve tokens calls empty).jobs
serve-IsValidTable_example =
    serve-IsValidTable tokens calls empty (record { rows = tt; distinct = tt })

abbrev failure : Report
failure = record { broker = broker; now = 9; update = report failed }

report_all-Exhausts_example :
    Exhausts "j1" 0 2 3 0 (report_all "j1" (failure ∷ failure ∷ failure ∷ []) (with_row queued))
report_all-Exhausts_example =
    report_all-Exhausts "j1" failure (failure ∷ failure ∷ []) (with_row queued) refl (omega arith)
      refl (refl, refl) ((refl, refl), ((refl, refl), tt))

-- After three failures of a job with two retries the job is dead.
exhausted :
    (get_job "j1" (report_all "j1" (failure ∷ failure ∷ failure ∷ []) (with_row queued)))
    ≡ some (record (response (row dead)) { retry_count = 2; completed_at = some 9 })
unfolding get_job report_all update_job_status response
exhausted = refl

create_job_outcome_example :
    (reply : JobResponse) × ((create_job "j1" 5 broker request empty).0 ≡ some reply)
    × IsQueued "j1" 5 request empty reply (create_job "j1" 5 broker request empty).1
create_job_outcome_example = create_job_outcome "j1" 5 broker request empty refl

handle_authorized_example :
    handle tokens (some "key") (get "j1") (with_row queued) ≡ endpoint (get "j1") (with_row queued)
handle_authorized_example = handle_authorized tokens (get "j1") (with_row queued) refl

handle_unauthorized_example :
    (handle tokens (some "key") (update_status "j1" 6 broker (report success)) (with_row queued)
      ≡ (error 401, with_row queued))
    ⊎ (handle tokens (some "key") (update_status "j1" 6 broker (report success)) (with_row queued)
        ≡ (error 500, with_row queued))
handle_unauthorized_example =
    handle_unauthorized tokens (some "key") (update_status "j1" 6 broker (report success))
      (with_row queued) (ground (arith, eq_iff "key" "token"))

serve-Steps_example :
    (j' : Job) × (find "j1" (serve tokens calls (with_row running)).jobs ≡ some j')
    × Moves (row running) j'
serve-Steps_example = serve-Steps tokens calls (with_row running) "j1" (row running) refl

terminal_job_requeued_example :
    (j' : Job) × (find "j1"
        (update_job_status "j1" broker 9 (report failed) (with_row cancelled)).1.jobs
      ≡ some j')
    × (j'.status ≡ queued)
    × ((update_job_status "j1" broker 9 (report failed) (with_row cancelled)).1.kafka.stored
        ≡ retry_message (report failed) 9 (row cancelled) ∷ [])
terminal_job_requeued_example =
    terminal_job_requeued "j1" broker 9 (report failed) (with_row cancelled) (row cancelled) refl
      refl (omega arith) refl sent
  where
    sent :
        (send_job_event broker
          (retry_message (report failed) 9 (row cancelled))
          (with_row cancelled).kafka).0
        ≡ true
    sent = unfold send_job_event in refl

gauge-update_job_status_example :
    increments (with_row running)
      + decrements (update_job_status "j1" broker 9 (report success) (with_row running)).1
    ≡ 1
      + decrements (with_row running)
      + increments (update_job_status "j1" broker 9 (report success) (with_row running)).1
gauge-update_job_status_example =
    gauge-update_job_status "j1" broker 9 (with_row running) (row running) (report success) refl

gauge-cancel_job_example :
    ((cancel_job "j1" broker 9 (with_row running)).1.metrics ≡ [])
    × ((j' : Job) × (find "j1" (cancel_job "j1" broker 9 (with_row running)).1.jobs ≡ some j')
        × (is_terminal j'.status ≡ true))
gauge-cancel_job_example = gauge-cancel_job "j1" broker 9 (with_row running) (row running) refl refl

cancel_job_active_example :
    let (reply, w') = cancel_job "j1" broker 9 (with_row running) in
    let j' = record (row running) { status = cancelled; completed_at = some 9 } in
    (reply ≡ some (response j'))
    × (find "j1" w'.jobs ≡ some j')
    × (w'.kafka.stored ≡ record { topic = status_topic; key = "j1"; value = cancel_event j' } ∷ [])
cancel_job_active_example = cancel_job_active "j1" broker 9 (with_row running) refl refl

abbrev filters : Filters
filters = record { status = some "RUNNING"; job_type = none; submitted_by = some "" }

abbrev older : Job
older = row running

abbrev newer : Job
newer = record (row running) { job_id = "j2"; submitted_at = 8 }

abbrev two_rows : World
two_rows = record (with_row running) { jobs = older ∷ newer ∷ [] }

abbrev newest_first : ℕ → List Job → List Job
newest_first k js = newer ∷ older ∷ []

-- The first submission is not committed, the second is, and the third takes an id that is in use.
abbrev submissions : List (Bool × Call)
submissions =
    (false, submit "j2" 5 broker request)
    ∷ (true, submit "j3" 6 broker request)
    ∷ (true, submit "j1" 7 broker request)
    ∷ []

submissions_test : (serve_db submissions (with_row running)).0 ≡ 1
unfolding serve_db create_job send_job_event dhp.Job.accepts dhp.Job.Session.get_db response
submissions_test = refl
