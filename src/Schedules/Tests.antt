-- ===== src/Schedules/Tests.antt =====
-- Runs of the schedules API, and its theorems at concrete requests.
use dhp.Prelude.{
  ℕ, ◌+◌, String, true, Option, none, some, List, [], ◌∷◌, ◌≡◌, refl, map, str_eq, if◌then◌else◌,
}
use dhp.Prelude.Rows.{find}
use dhp.Http.{ok, error}
use dhp.Kafka.{Broker, Delivery, Producer, acknowledged, rejected, started}
use dhp.Job.{JobCreateRequest, JobResponse, spark_etl}
use dhp.Job.Service.{World}
use dhp.Job.Submit.{IsQueued}
use dhp.Orchestrator.Scheduler.{ScheduledJob, Fire}
use dhp.Schedules.{
  Libraries, ScheduleCreateRequest, ScheduleUpdateRequest, schedule_id_of, new_schedule,
  create_schedule, trigger_schedule,
}
use dhp.Schedules.Fresh.{IsValidSchedules}
use dhp.Schedules.System.{
  Transaction, created, patched_by, deleted, triggered_by, ticked, run_all,
  run_all-IsValidSchedules,
}
use dhp.Schedules.Trigger.{trigger_schedule_outcome}

abbrev delivers : Producer → Delivery
delivers started = acknowledged
delivers _ = rejected

abbrev broker : Broker
broker = record { starts = true; delivers = delivers }

abbrev template : JobCreateRequest
template = record {
  job_name = "etl";
  job_type = spark_etl;
  entrypoint = "main.py";
  arguments = [];
  spark_config = [];
  database_name = none;
  table_name = none;
  submitted_by = "";
  max_retries = 3;
}

-- An expression runs every sixty instants in UTC and is unknown in another zone.
abbrev next_run : String → String → ℕ → Option ℕ
next_run e zone now = if str_eq zone "UTC" then some (now + 60) else none

abbrev libraries : Libraries
libraries = record { is_cron = λ _. true; next_run = next_run; model_validate = λ _. some template }

abbrev same_order : List ScheduledJob → List ScheduledJob
same_order rows = rows

abbrev create_request : String → ScheduleCreateRequest
create_request name = record {
  name = name;
  cron_expression = "* * * * *";
  timezone = "UTC";
  job_template = template;
  enabled = true;
  created_by = none;
}

abbrev update_request : ScheduleUpdateRequest
update_request = record {
  cron_expression = some "0 * * * *";
  timezone = none;
  job_template = none;
  enabled = some true;
}

abbrev empty : World
empty = record { jobs = []; kafka = record { producer = started; stored = [] }; metrics = [] }

abbrev fires : ScheduledJob → Fire
fires r = record { job_id = r.name; delivery = acknowledged; now = 100 }

abbrev transactions : List Transaction
transactions =
    created "s1" 0 (create_request "daily")
    ∷ created "s2" 1 (create_request "daily")
    ∷ created "s2" 2 (create_request "hourly")
    ∷ patched_by "s2" 3 update_request
    ∷ ticked true 62 fires
    ∷ triggered_by "s1" "j1" 70 71 broker
    ∷ deleted "s2"
    ∷ []

-- A second schedule of the same name is refused.
name_taken :
    (create_schedule libraries "s2" 1
      (create_request "daily")
      (new_schedule libraries "s1" (create_request "daily") 60 ∷ [])).0
    ≡ error 409
unfolding create_schedule dhp.Schedules.accepts_create dhp.Job.accepts
name_taken = refl

-- What the sequence leaves: the first schedule, fired at 62 and run by hand at 71.
rows_left :
    map (λ r. r.next_run_at) (run_all libraries same_order transactions ([], empty)).0 ≡ 160 ∷ []
unfolding run_all dhp.Schedules.System.run dhp.Schedules.delete_schedule trigger_schedule
    dhp.Orchestrator.Scheduler.tick dhp.Orchestrator.Scheduler.fire_all
    dhp.Orchestrator.Scheduler.fire dhp.Orchestrator.Scheduler.is_due dhp.Schedules.update_schedule
    dhp.Schedules.accepts_update create_schedule dhp.Schedules.accepts_create dhp.Job.accepts
    dhp.Job.Service.create_job
rows_left = refl

run_all-IsValidSchedules_example :
    IsValidSchedules next_run (run_all libraries same_order transactions ([], empty)).0
run_all-IsValidSchedules_example =
    run_all-IsValidSchedules libraries same_order (λ P rows a. a) transactions ([], empty)
      (record { ids = tt; names = tt; scheduled = tt })

abbrev daily : ScheduledJob
daily = new_schedule libraries "s1" (create_request "daily") 60

trigger_schedule_outcome_example :
    let (reply, rows', w') = trigger_schedule libraries "s1" "j1" 70 71 broker (daily ∷ []) empty in
    (j : JobResponse) × (reply ≡ ok j)
    × IsQueued "j1" 70 template empty j w'
    × (find schedule_id_of "s1" rows'
        ≡ some (record daily { last_run_at = some 71; last_run_job_id = some "j1" }))
trigger_schedule_outcome_example =
    trigger_schedule_outcome libraries "s1" "j1" 70 71 broker (daily ∷ []) empty daily template refl
      refl refl
