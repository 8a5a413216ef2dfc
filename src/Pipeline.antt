-- ===== src/Pipeline.antt =====
-- The job service and the orchestrator together: services/orchestrator/app/consumer.py takes the events
-- that services/job-service/app/services/job_service.py publishes one after the other, and its status
-- callbacks come back to the job service. The callbacks are taken as authorised.
pub mod Events
pub mod Callbacks
pub mod Rounds
pub mod Published
pub mod Growth
pub mod Requests
pub mod Extends
pub mod System
pub mod Topic
pub mod Budget
pub mod Turns
pub mod Cancelled
pub mod Uncommitted
mod Tests
use dhp.Prelude.{
  ℕ, zero, suc, ◌+◌, String, Bool, Option, none, some, List, [], ◌∷◌, ◌++◌, str_eq, if◌then◌else◌,
}
use dhp.Kafka.{Broker, Message}
use dhp.Job.{
  JobStatus, pending, queued, provisioning, running, success, failed, cancelled, dead,
  JobStatusUpdate,
}
use dhp.Job.Service.{World, job_topic, update_job_status}
use dhp.Orchestrator.{Settings, Python}
use dhp.Orchestrator.Ecs.{Answer, LaunchError}
use dhp.Orchestrator.Consumer.{StatusPayload, Action, put_status, process_message}

-- The member of `JobStatus` with this value, if there is one.
abbrev pub parse_status : String → Option JobStatus
parse_status s =
    if str_eq s "PENDING"
    then some pending
    else if str_eq s "QUEUED"
    then some queued
    else if str_eq s "PROVISIONING"
    then some provisioning
    else if str_eq s "RUNNING"
    then some running
    else if str_eq s "SUCCESS"
    then some success
    else if str_eq s "FAILED"
    then some failed
    else if str_eq s "CANCELLED"
    then some cancelled
    else if str_eq s "DEAD"
    then some dead
    else none

abbrev pub update_of : JobStatus → StatusPayload → JobStatusUpdate
update_of st p = record {
  status = st;
  container_id = p.container_id;
  error_message = p.error_message;
  exit_code = none;
}

-- What an action of the orchestrator does to the job service; a body with no valid status is a 422.
abbrev pub callback : Broker → ℕ → Action → World → World
callback b now (put_status job_id p) w = elim (parse_status p.status) [
  | none ↦ w
  | some st ↦ (update_job_status job_id b now (update_of st p) w).1
]
callback b now _ w = w

abbrev pub callbacks : Broker → ℕ → List Action → World → World
callbacks b now [] w = w
callbacks b now (a ∷ rest) w = callbacks b now rest (callback b now a w)

-- The events of the submission topic, oldest first.
abbrev pub submitted : List Message → List Message
submitted [] = []
submitted (m ∷ ms) =
    let rest = submitted ms in if str_eq m.topic job_topic then rest ++ m ∷ [] else rest

abbrev pub get_elem? {ℓ} : {A : Type ℓ} → List A → ℕ → Option A
get_elem? [] i = none
get_elem? (x ∷ xs) zero = some x
get_elem? (x ∷ xs) (suc i) = get_elem? xs i

-- The job service, the consumer's offset in the topic, and what the orchestrator has done, oldest first.
pub record Platform : Type 0 where
  pub world : World
  pub offset : ℕ
  pub actions : List Action

-- `async for message in self.consumer` takes the next event; ECS answers by the event and the attempt. An
-- event whose budget is no number ends the consumer, and without an event it waits.
unfoldable pub next_round :
    Settings
    → Python
    → (Option LaunchError → String)
    → Broker
    → (ℕ → ℕ → Answer)
    → ℕ
    → Platform
    → Platform
next_round s py describe b answers now p =
    elim (get_elem? (submitted p.world.kafka.stored) p.offset) [
      | none ↦ p
      | some m ↦ elim (process_message s py describe m.value (answers p.offset)) [
        | none ↦ p
        | some acts ↦ record {
          world = callbacks b now acts p.world;
          offset = p.offset + 1;
          actions = p.actions ++ acts;
        }
      ]
    ]

unfoldable pub rounds :
    Settings
    → Python
    → (Option LaunchError → String)
    → Broker
    → (ℕ → ℕ → Answer)
    → ℕ
    → ℕ
    → Platform
    → Platform
rounds s py describe b answers now zero p = p
rounds s py describe b answers now (suc n) p =
    rounds s py describe b answers now n (next_round s py describe b answers now p)
