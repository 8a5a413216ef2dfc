-- ===== src/Orchestrator/Scheduler.antt =====
-- services/orchestrator/app/scheduler.py: one tick of `Scheduler` over the table `scheduled_jobs`, and
-- what it publishes. The lock, the clock, the fresh ids, the broker's answers and the next instant of a
-- cron expression (croniter, with the zone) are arguments.
use dhp.Prelude.{
  ℕ, String, Bool, true, false, ◌&&◌, Option, none, some, List, [], ◌∷◌, leb, if◌then◌else◌, keep,
  take, str_eq,
}
use dhp.Prelude.Dict.{Dict, merge}
use dhp.Json.{Json, str, bool}
use dhp.Kafka.{Delivery, acknowledged, rejected, unacknowledged}

-- A row of `scheduled_jobs` (services/job-service/app/db/models.py), but for its two time stamps.
pub record ScheduledJob : Type 0 where
  pub schedule_id : String
  pub name : String
  pub cron_expression : String
  pub timezone : String
  pub job_template : Dict Json
  pub enabled : Bool
  pub last_run_at : Option ℕ
  pub last_run_job_id : Option String
  pub next_run_at : ℕ
  pub created_by : Option String

-- What the environment does when a schedule fires: the fresh id, what comes of the publication, and
-- the process's clock, from which croniter goes on.
pub record Fire : Type 0 where
  pub job_id : String
  pub delivery : Delivery
  pub now : ℕ

-- The next instant after `now` of an expression in a zone; `none` where `ZoneInfo` or croniter raises.
abbrev pub Cron : Type 0
Cron = String → String → ℕ → Option ℕ

-- What the tick has written in its transaction, and published, newest first.
pub record Tick : Type 0 where
  pub rows : List ScheduledJob
  pub published : List (String × Dict Json)

-- A tick that ends normally commits; one that raises leaves the table as it was, and what it has
-- published stays published.
pub data Ended : Type 0 where
  committed : Tick → Ended
  raised : Tick → Ended

-- `enabled = TRUE AND next_run_at <= NOW()`
unfoldable pub is_due : ℕ → ScheduledJob → Bool
is_due now r = r.enabled && leb r.next_run_at now

-- The event of `_fire`: the keys that it adds win over the template's.
unfoldable pub fired_event : ScheduledJob → String → Dict Json
fired_event r job_id = merge r.job_template (
    ("job_id", str job_id)
    ∷ ("scheduled", bool true)
    ∷ ("schedule_id", str r.schedule_id)
    ∷ ("schedule_name", str r.name)
    ∷ [])

-- `UPDATE scheduled_jobs … WHERE schedule_id = :sid`
abbrev pub stamp : String → String → ℕ → ℕ → List ScheduledJob → List ScheduledJob
stamp sid job_id now nxt [] = []
stamp sid job_id now nxt (r ∷ rs) =
    (if str_eq r.schedule_id sid
      then record r { last_run_at = some now; last_run_job_id = some job_id; next_run_at = nxt }
      else r)
    ∷ stamp sid job_id now nxt rs

-- The publication returned; and the broker has stored the event.
abbrev pub returned : Delivery → Bool
returned acknowledged = true
returned rejected = false
returned unacknowledged = false

abbrev pub is_stored : Delivery → Bool
is_stored acknowledged = true
is_stored rejected = false
is_stored unacknowledged = true

abbrev pub publish : ScheduledJob → Fire → Tick → Tick
publish r f t =
    if is_stored f.delivery
    then record t { published = (f.job_id, fired_event r f.job_id) ∷ t.published }
    else t

-- `_fire`: nothing is written when the publication raises; the zone and the expression are read only
-- after it. `started` is SQL's `NOW()`, the start of the tick's transaction.
unfoldable pub fire : Cron → ℕ → ScheduledJob → Fire → Tick → Ended
fire cron started r f t =
    let sent = publish r f t in
    if returned f.delivery
    then elim (cron r.cron_expression r.timezone f.now) [
      | none ↦ raised sent
      | some nxt ↦
          committed (record sent { rows = stamp r.schedule_id f.job_id started nxt sent.rows })
    ]
    else committed sent

abbrev pub and_then : Ended → (Tick → Ended) → Ended
and_then (committed t) f = f t
and_then (raised t) f = raised t

-- `for row in rows: await self._fire(session, row)`
unfoldable pub fire_all : Cron → ℕ → (ScheduledJob → Fire) → List ScheduledJob → Tick → Ended
fire_all cron started env [] t = committed t
fire_all cron started env (r ∷ rs) t =
    and_then (fire cron started r (env r) t) (fire_all cron started env rs)

abbrev pub finish : List ScheduledJob → Ended → Tick
finish rows (committed t) = t
finish rows (raised t) = record t { rows = rows }

-- `_tick`: `order` is the database's `ORDER BY next_run_at ASC`, and `now` its `NOW()`, one instant for the
-- transaction.
unfoldable pub tick :
    (List ScheduledJob → List ScheduledJob)
    → Cron
    → Bool
    → ℕ
    → (ScheduledJob → Fire)
    → List ScheduledJob
    → Tick
unfolding is_due
tick order cron got_lock now env rows =
    let due = take 50 (order (keep (is_due now) rows)) in
    let t : Tick = record { rows = rows; published = [] } in
    if got_lock then finish rows (fire_all cron now env due t) else t
