-- ===== src/Schedules.antt =====
-- services/job-service/app/routers/schedules.py and models/schedule.py: the API over the table
-- `scheduled_jobs`. croniter's check and next instant, the reading of a stored template (pydantic), the
-- clock, the fresh ids and the broker are arguments. The two time stamps of a row are left out.
pub mod Fresh
pub mod Ticked
pub mod System
pub mod Trigger
mod Tests
use dhp.Prelude.{
  ℕ, ◌+◌, String, Bool, true, false, ◌&&◌, ◌||◌, not, Option, none, some, List, [], ◌∷◌, ◌++◌, ◌≡◌,
  refl, leb, if◌then◌else◌, is_some, get_or, length,
}
use Prim.Native.String.{count}
use dhp.Prelude.Int.{pos}
use dhp.Prelude.Dict.{Dict}
use dhp.Prelude.Rows.{find, save, remove}
use dhp.Json.{Json, int, str, object, strings, fields, optional}
use dhp.Http.{Reply, ok, error}
use dhp.Kafka.{Broker}
use dhp.Job.{Job, JobCreateRequest, JobResponse, accepts, type_value}
use dhp.Job.Service.{World, create_job}
use dhp.Orchestrator.Scheduler.{ScheduledJob, Cron}

pub record ScheduleCreateRequest : Type 0 where
  pub name : String
  pub cron_expression : String
  pub timezone : String
  pub job_template : JobCreateRequest
  pub enabled : Bool
  pub created_by : Option String

pub record ScheduleUpdateRequest : Type 0 where
  pub cron_expression : Option String
  pub timezone : Option String
  pub job_template : Option JobCreateRequest
  pub enabled : Option Bool

-- What croniter and pydantic do: whether an expression is well-formed, the next instant of one in a
-- zone, and the request that a stored template holds.
pub record Libraries : Type 0 where
  pub is_cron : String → Bool
  pub next_run : Cron
  pub model_validate : Dict Json → Option JobCreateRequest

-- `job_template.model_dump(mode="json")`: the fields in the order of their declaration.
abbrev pub model_dump : JobCreateRequest → Dict Json
model_dump r =
    ("job_name", str r.job_name)
    ∷ ("job_type", str (type_value r.job_type))
    ∷ ("entrypoint", str r.entrypoint)
    ∷ ("arguments", strings r.arguments)
    ∷ ("spark_config", object (fields r.spark_config))
    ∷ ("database_name", optional r.database_name)
    ∷ ("table_name", optional r.table_name)
    ∷ ("submitted_by", str r.submitted_by)
    ∷ ("max_retries", int (pos r.max_retries))
    ∷ []

-- The primary key and the unique name.
abbrev pub schedule_id_of : ScheduledJob → String
schedule_id_of r = r.schedule_id

abbrev pub name_of : ScheduledJob → String
name_of r = r.name

module _ (l : Libraries) where
  -- The bounds of the models' fields and the validators of the expression: 422 where they fail.
  unfoldable pub accepts_create : ScheduleCreateRequest → Bool
  accepts_create q =
      leb 1 (count q.name)
      && leb (count q.name) 255
      && leb (count q.timezone) 64
      && accepts q.job_template
      && l.is_cron q.cron_expression

  unfoldable pub accepts_update : ScheduleUpdateRequest → Bool
  accepts_update q =
      elim q.cron_expression [ none ↦ true | some e ↦ l.is_cron e ]
      && elim q.job_template [ none ↦ true | some t ↦ accepts t ]

  -- The row of `create_schedule`; the columns without an argument are empty.
  abbrev pub new_schedule : String → ScheduleCreateRequest → ℕ → ScheduledJob
  new_schedule schedule_id q next = record {
    schedule_id = schedule_id;
    name = q.name;
    cron_expression = q.cron_expression;
    timezone = q.timezone;
    job_template = model_dump q.job_template;
    enabled = q.enabled;
    last_run_at = none;
    last_run_job_id = none;
    next_run_at = next;
    created_by = q.created_by;
  }

  -- 409 for a name in use, 500 where the next instant or the INSERT (a key in use) raises.
  unfoldable pub create_schedule :
      String
      → ℕ
      → ScheduleCreateRequest
      → List ScheduledJob
      → Reply ScheduledJob × List ScheduledJob
  create_schedule schedule_id now q rows =
      if not (accepts_create q)
      then (error 422, rows)
      else (if is_some (find name_of q.name rows)
          then (error 409, rows)
          else elim (l.next_run q.cron_expression q.timezone now) [
            | none ↦ (error 500, rows)
            | some next ↦
                if is_some (find schedule_id_of schedule_id rows) then (error 500, rows) else (
                  ok (new_schedule schedule_id q next),
                  rows ++ new_schedule schedule_id q next ∷ [],
                )
          ])

  -- The assignments of `update_schedule`: an absent field keeps its column.
  abbrev pub patched : ScheduleUpdateRequest → ScheduledJob → ScheduledJob
  patched q r = record r {
    cron_expression = get_or q.cron_expression r.cron_expression;
    timezone = get_or q.timezone r.timezone;
    job_template = elim q.job_template [ none ↦ r.job_template | some t ↦ model_dump t ];
    enabled = get_or q.enabled r.enabled;
  }

  -- "Cron or timezone change invalidates the previously-computed next_run_at."
  abbrev pub rescheduled : ℕ → ScheduleUpdateRequest → ScheduledJob → Option ScheduledJob
  rescheduled now q r =
      if is_some q.cron_expression || is_some q.timezone
      then elim (l.next_run r.cron_expression r.timezone now) [
        | none ↦ none
        | some next ↦ some (record r { next_run_at = next })
      ]
      else some r

  -- A next instant that raises rolls the session back.
  unfoldable pub update_schedule :
      String
      → ℕ
      → ScheduleUpdateRequest
      → List ScheduledJob
      → Reply ScheduledJob × List ScheduledJob
  update_schedule schedule_id now q rows =
      if not (accepts_update q)
      then (error 422, rows)
      else elim (find schedule_id_of schedule_id rows) [
        | none ↦ (error 404, rows)
        | some r ↦ elim (rescheduled now q (patched q r)) [
          | none ↦ (error 500, rows)
          | some r' ↦ (ok r', save schedule_id_of r' rows)
        ]
      ]

  unfoldable pub get_schedule : String → List ScheduledJob → Reply ScheduledJob
  get_schedule schedule_id rows = elim (find schedule_id_of schedule_id rows) [
    | none ↦ error 404
    | some r ↦ ok r
  ]

  unfoldable pub delete_schedule : String → List ScheduledJob → Reply {0} Unit × List ScheduledJob
  delete_schedule schedule_id rows = elim (find schedule_id_of schedule_id rows) [
    | none ↦ (error 404, rows)
    | some _ ↦ (ok tt, remove schedule_id_of schedule_id rows)
  ]

  -- The two columns that a manual run sets.
  abbrev pub triggered : String → ℕ → ScheduledJob → ScheduledJob
  triggered job_id now r = record r { last_run_at = some now; last_run_job_id = some job_id }

  -- `trigger_schedule`, with the two readings of the clock: 500 where the template does not validate or the new job's INSERT raises.
  unfoldable pub trigger_schedule :
      String
      → String
      → ℕ
      → ℕ
      → Broker
      → List ScheduledJob
      → World
      → Reply JobResponse × List ScheduledJob × World
  trigger_schedule schedule_id job_id now later b rows w =
      elim (find schedule_id_of schedule_id rows) [
        | none ↦ (error 404, rows, w)
        | some r ↦ elim (l.model_validate r.job_template) [
          | none ↦ (error 500, rows, w)
          | some template ↦
              let (response, w') = create_job job_id now b template w in
              elim response [
                | none ↦ (error 500, rows, w')
                | some j ↦ (ok j, save schedule_id_of (triggered j.job_id later r) rows, w')
              ]
        ]
      ]

-- `list_schedules`; `order` is the database's `ORDER BY name`.
pub record ScheduleListResponse : Type 0 where
  pub total : ℕ
  pub schedules : List ScheduledJob

unfoldable pub list_schedules :
    (List ScheduledJob → List ScheduledJob) → List ScheduledJob → ScheduleListResponse
list_schedules order rows = record { total = length (order rows); schedules = order rows }
