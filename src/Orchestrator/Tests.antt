-- ===== src/Orchestrator/Tests.antt =====
-- Runs of the orchestrator, and its theorems at concrete inputs.
use dhp.Prelude.{
  All, ℕ, zero, suc, ◌+◌, take_chars, if◌then◌else◌, str_eq, length, ◌≤◌, ◌<◌, String, true, Option,
  none, some, List, [], ◌∷◌, ◌≡◌, refl, arith, map,
}
use dhp.Prelude.Int.{ℤ, pos}
use dhp.Prelude.Dict.{Dict}
use dhp.Json.{Json, str, int}
use dhp.Kafka.{Broker, Producer, Delivery, Message, Kafka, absent, started, acknowledged, rejected}
use dhp.Orchestrator.Dlq.{dead_letter, publish_all, publish}
use dhp.Orchestrator.JobConsumer.{
  Stops, Turn, JobConsumer, raised, start as start_consumer, loop, IsClosed, start-IsClosed,
}
use dhp.Orchestrator.{Settings, Python}
use dhp.Orchestrator.Ecs.{
  Answer, raises, returns, LaunchError, client_error, launch_of, RunTask, run_task_request, Listing,
  started_by, StopAnswer, stops, stop_refused, stopped, delete_spark_job, create_spark_job, Task,
  TaskStatus, get_job_status, list_tasks, sort_desc, exit_code, insert_desc,
}
use dhp.Orchestrator.Consumer.{
  Action, DlqRequest, process_message, attempts, cancellation, cancelled, cancelled_all,
}
use dhp.Orchestrator.Launches.{Run, IsRefused, waits, success_ending, process_message_launches}
use dhp.Orchestrator.DeadLetters.{dead_ending, process_message_dead_letters}
use dhp.Orchestrator.Bounds.{IsBounded, process_message-IsBounded}
use dhp.Orchestrator.Tasks.{delete_spark_job_prefix}
use dhp.Orchestrator.Scheduler.{ScheduledJob, Fire, Cron, tick, is_due}
use dhp.Orchestrator.Fires.{after, events}
use dhp.Orchestrator.Ticks.{tick_commits}
use dhp.Orchestrator.Loop.{Round, IsPoisoned, run_loop, replayed, run_loop_poisoned}

abbrev settings : Settings
settings = record {
  kafka_brokers = "kafka:9092";
  runtime_kafka_brokers = none;
  job_service_url = "http://jobs";
  runtime_job_service_url = none;
  internal_api_token = "token";
  ecs_cluster = "c";
  spark_task_definition = "spark";
  spark_subnets = "subnet-a" ∷ [];
  spark_security_groups = "sg-a" ∷ [];
  spark_container_name = "spark";
  default_max_retries = 3;
}

abbrev to_int : Json → Option ℤ
to_int (int n) = some n
to_int _ = none

abbrev python : Python
python = record { to_int = to_int; to_str = λ _. "?"; int_to_str = λ _. "n" }

abbrev describe : Option LaunchError → String
describe none = "None"
describe (some _) = "error"

abbrev event : ℕ → Dict Json
event n =
    ("job_id", str "0123456789") ∷ ("entrypoint", str "main.py") ∷ ("max_retries", int (pos n)) ∷ []

-- ECS throttles the first attempt and launches at the second.
abbrev answers : ℕ → Answer
answers zero = raises "throttled"
answers (suc zero) = raises "throttled"
answers (suc (suc n)) = returns [] ("arn" ∷ [])

abbrev throttled : ℕ → Answer
throttled _ = raises "throttled"

abbrev request : ℕ → RunTask
request n = record {
  cluster = "c";
  task_definition = "spark";
  subnets = "subnet-a" ∷ [];
  security_groups = "sg-a" ∷ [];
  container_name = "spark";
  environment =
      ("JOB_ID", "0123456789")
      ∷ ("JOB_RETRY_COUNT", "n")
      ∷ ("ENTRYPOINT_SCRIPT", "main.py")
      ∷ ("ARGUMENTS", "")
      ∷ ("SPARK_EXTRA_CONF", "")
      ∷ ("KAFKA_BROKERS", "kafka:9092")
      ∷ ("CALLBACK_URL", "http://jobs/api/v1/jobs/0123456789/status")
      ∷ ("INTERNAL_API_TOKEN", "token")
      ∷ [];
  tags = ("job-id", "0123456789") ∷ ("retry", "n") ∷ ("app", "dhp-spark") ∷ [];
  started_by = "dhp-orchestrator/01234567";
}

builds : run_task_request settings python (event 3) ≡ some (request 3)
unfolding run_task_request take_chars
builds = refl

process_message_launches_example :
    (t : List Action) × (process_message settings python describe (event 3) answers ≡ some t)
    × Run settings python describe
        (event 3)
        answers
        builds
        t
        2
        (waits 1 1)
        (success_ending settings python describe (event 3) answers builds "arn")
process_message_launches_example =
    process_message_launches settings python describe (event 3) answers builds (pos 3) 2 "arn" refl
      (omega arith) (omega arith) refl refused_before
  where
    refused_before : (j : ℕ) → 1 ≤ j → j < 2 → IsRefused (launch_of (answers j))
    refused_before zero lo hi = absurd (omega arith)
    refused_before (suc zero) lo hi = (client_error "throttled", refl)
    refused_before (suc (suc j)) lo hi = absurd (omega arith)

process_message_dead_letters_example :
    (t : List Action) × (last : Option LaunchError) × (process_message settings python describe
        (event 3)
        throttled
      ≡ some t)
    × Run settings python describe
        (event 3)
        throttled
        builds
        t
        3
        (waits 1 2)
        (dead_ending python describe (event 3) (pos 3) last)
process_message_dead_letters_example =
    process_message_dead_letters settings python describe (event 3) throttled builds (pos 3) refl
      (λ j lo hi. (client_error "throttled", refl))

process_message-IsBounded_example :
    (t : List Action) × (process_message settings python describe (event 3) throttled ≡ some t)
    × IsBounded 3 t
process_message-IsBounded_example =
    process_message-IsBounded settings python describe (event 3) throttled (pos 3) refl

-- ECS runs two tasks of another job, whose id begins alike, and refuses to stop one.
abbrev ecs : Listing
ecs prefix desired =
    if str_eq prefix (started_by "01234567-other")
    then some (("arn-gone" ∷ "arn-other" ∷ []) ∷ [])
    else some []

abbrev stop_task : String → StopAnswer
stop_task arn = if str_eq arn "arn-gone" then stop_refused else stops

delete_spark_job_prefix_example :
    delete_spark_job ecs stop_task "01234567-mine" ≡ stopped ("arn-other" ∷ []) true
delete_spark_job_prefix_example =
    delete_spark_job_prefix ecs stop_task "01234567-mine" "01234567-other"
      (("arn-gone" ∷ "arn-other" ∷ []) ∷ []) "arn-gone" ("arn-other" ∷ [])
      (unfold take_chars in refl) (unfold take_chars in refl) refl (refl, (refl, tt))

abbrev task : String → ℕ → Task
task arn created = record {
  task_arn = arn;
  created_at = some created;
  last_status = some "STOPPED";
  desired_status = none;
  started_at = none;
  stopped_at = none;
  stop_code = none;
  stopped_reason = none;
  containers = (some "spark", some 1) ∷ [];
}

abbrev described : List String → List Task
described _ = task "old" 3 ∷ task "new" 8 ∷ task "older" 1 ∷ []

newest :
    get_job_status settings ecs described "01234567-mine"
    ≡ some (some (record { task = task "new" 8; exit_code = some 1 }))
unfolding get_job_status list_tasks sort_desc insert_desc exit_code take_chars
newest = refl

abbrev newest_status : TaskStatus
newest_status = record { task = task "new" 8; exit_code = some 1 }

abbrev schedule : String → String → ScheduledJob
schedule sid expression = record {
  schedule_id = sid;
  name = sid;
  cron_expression = expression;
  timezone = "UTC";
  job_template = ("job_id", str "template") ∷ ("entrypoint", str "main.py") ∷ [];
  enabled = true;
  last_run_at = none;
  last_run_job_id = none;
  next_run_at = 10;
  created_by = none;
}

-- An hour after the clock, for one expression; the others cannot be read.
abbrev hourly : Cron
hourly expression zone now = if str_eq expression "0 * * * *" then some (now + 60) else none

abbrev fires : ScheduledJob → Fire
fires r = record { job_id = "run"; delivery = acknowledged; now = 21 }

abbrev table : List ScheduledJob
table = schedule "a" "0 * * * *" ∷ schedule "b" "0 * * * *" ∷ []

abbrev bad_table : List ScheduledJob
bad_table = schedule "a" "0 * * * *" ∷ schedule "b" "bad" ∷ []

abbrev same : List ScheduledJob → List ScheduledJob
same rows = rows

tick_commits_example :
    ((tick same hourly true 20 fires table).rows ≡ map (after hourly 20 fires table) table)
    × ((tick same hourly true 20 fires table).published ≡ events hourly 20 fires table [])
unfolding is_due
tick_commits_example = tick_commits hourly fires same 20 table (refl, (refl, tt))

abbrev round : ℕ → Round
round now = record { got_lock = true; now = now; env = fires }

round-IsPoisoned : (now : ℕ) → IsPoisoned hourly same bad_table (round (now + 10))
unfolding is_due
round-IsPoisoned now = record {
  locked = refl;
  before = schedule "a" "0 * * * *" ∷ [];
  bad = schedule "b" "bad";
  behind = [];
  split = ground arith;
  sound = (refl, tt);
  replied = refl;
  broken = refl;
}

run_loop_poisoned_example :
    let rounds = round (10 + 10) ∷ round (40 + 10) ∷ [] in
    let all : All (IsPoisoned hourly same bad_table) rounds =
      (round-IsPoisoned 10, (round-IsPoisoned 40, tt)) in
    ((run_loop hourly same rounds bad_table).rows ≡ bad_table)
    × ((run_loop hourly same rounds bad_table).published
        ≡ replayed hourly same bad_table rounds all)
    × (2 ≤ length (run_loop hourly same rounds bad_table).published)
run_loop_poisoned_example =
    run_loop_poisoned hourly same bad_table (round (10 + 10) ∷ round (40 + 10) ∷ [])
      (round-IsPoisoned 10, (round-IsPoisoned 40, tt))

abbrev no_producer : Kafka
no_producer = record { producer = absent; stored = [] }

abbrev delivers : Producer → Delivery
delivers started = acknowledged
delivers _ = rejected

abbrev broker : Broker
broker = record { starts = true; delivers = delivers }

abbrev letter_of : DlqRequest → Message
letter_of = dead_letter python "spark-job-submissions-dlq" "host" (int (pos 7))

-- A job that is refused, then an event whose budget is a text, then another job.
abbrev poisoned : List Turn
poisoned =
    record { event = event 1; answers = throttled; broker = broker }
    ∷ record { event = ("max_retries", str "three") ∷ []; answers = throttled; broker = broker }
    ∷ record { event = event 2; answers = answers; broker = broker }
    ∷ []

abbrev idle : JobConsumer
idle = record { consumer = absent; dlq = no_producer; http_open = true; actions = [] }

abbrev all_stop : Stops
all_stop = record { consumer = true; dlq = true; http = true }

start-IsClosed_example :
    let (e, c) =
      start_consumer settings python describe letter_of true broker all_stop poisoned idle in
    IsClosed settings python describe letter_of all_stop poisoned idle e c
start-IsClosed_example =
    start-IsClosed settings python describe letter_of broker all_stop poisoned idle refl
      (λ e. absurd (ground arith))

poisoned_test :
    (start_consumer settings python describe letter_of true broker all_stop poisoned idle).0
    ≡ raised
unfolding start_consumer loop process_message attempts create_spark_job run_task_request publish_all
    publish
poisoned_test = refl

cancelled_all_test :
    cancelled_all
      (delete_spark_job ecs stop_task)
      ((("action", str "retry") ∷ []) ∷ (("action", str "cancel") ∷ []) ∷ [])
    ≡ "error" ∷ []
unfolding cancelled_all cancelled cancellation
cancelled_all_test = refl
