-- ===== src/Orchestrator/Ecs.antt =====
-- services/orchestrator/app/ecs_manager.py: `ECSJobManager`. What ECS answers is an argument.
use dhp.Prelude.{
  ℕ, String, Bool, true, false, Option, none, some, List, [], ◌∷◌, ◌++◌, if◌then◌else◌, join,
  format, take_chars, str_eq, ltb,
}
use dhp.Prelude.Dict.{Dict, lookup}
use dhp.Json.{Json, str, list, object, Items, nil, cons, entries}
use dhp.Orchestrator.{Settings, Python, int_field, or_text}

-- Why a launch raises.
pub data LaunchError : Type 0 where
  bad_event no_tasks : LaunchError
  client_error : String → LaunchError
  run_task_failures : List String → LaunchError

-- What `run_task` does: it raises, or returns the failures and the ARNs of the tasks.
pub data Answer : Type 0 where
  raises : String → Answer
  returns : List String → List String → Answer

-- The arguments of `run_task` that depend on the job or the settings.
pub record RunTask : Type 0 where
  pub cluster : String
  pub task_definition : String
  pub subnets : List String
  pub security_groups : List String
  pub container_name : String
  pub environment : List (String × String)
  pub tags : List (String × String)
  pub started_by : String

pub data Launch : Type 0 where
  launched : String → Launch
  refused : LaunchError → Launch

infixl 5 ◌>>=◌
abbrev ◌>>=◌ {ℓ κ} : {A : Type ℓ} {B : Type κ} → Option A → (A → Option B) → Option B
none >>= f = none
some a >>= f = f a

-- `event[key]`, where the use of the value wants a text.
abbrev pub text_at : String → Dict Json → Option String
text_at key event = elim (lookup key event) [
  | none ↦ none
  | some v ↦ elim v [ str s ↦ some s | _ ↦ none ]
]

abbrev pub texts : Items → Option (List String)
texts nil = some []
texts (cons (str s) xs) = elim (texts xs) [ none ↦ none | some ss ↦ some (s ∷ ss) ]
texts (cons _ xs) = none

-- `" ".join(event.get("arguments", []))`
abbrev pub arguments_of : Dict Json → Option String
arguments_of event = elim (lookup "arguments" event) [
  | none ↦ some ""
  | some v ↦ elim v [
    | list xs ↦ elim (texts xs) [ none ↦ none | some ss ↦ some (join " " ss) ]
    | _ ↦ none
  ]
]

abbrev pub conf_parts : Python → Dict Json → List String
conf_parts py [] = []
conf_parts py ((k, v) ∷ d) = format ("--conf " ∷ k ∷ "=" ∷ py.to_str v ∷ []) ∷ conf_parts py d

-- `spark_conf_str`
abbrev pub spark_conf : Python → Dict Json → Option String
spark_conf py event = elim (lookup "spark_config" event) [
  | none ↦ some ""
  | some v ↦ elim v [ object fs ↦ some (join " " (conf_parts py (entries fs))) | _ ↦ none ]
]

-- The name under which the tasks of a job are started and listed.
abbrev pub started_by : String → String
started_by job_id = format ("dhp-orchestrator/" ∷ take_chars 8 job_id ∷ [])

abbrev pub callback_url : Settings → String → String
callback_url s job_id = format (
    or_text s.runtime_job_service_url s.job_service_url ∷ "/api/v1/jobs/" ∷ job_id ∷ "/status" ∷ [])

-- The request of `create_spark_job`; `none` where building it raises.
unfoldable pub run_task_request : Settings → Python → Dict Json → Option RunTask
run_task_request s py event = do
  job_id ← text_at "job_id" event
  retry_count ← int_field py "retry_count" 0 event
  arguments ← arguments_of event
  conf ← spark_conf py event
  entrypoint ← text_at "entrypoint" event
  some (record {
    cluster = s.ecs_cluster;
    task_definition = s.spark_task_definition;
    subnets = s.spark_subnets;
    security_groups = s.spark_security_groups;
    container_name = s.spark_container_name;
    environment =
        ("JOB_ID", job_id)
        ∷ ("JOB_RETRY_COUNT", py.int_to_str retry_count)
        ∷ ("ENTRYPOINT_SCRIPT", entrypoint)
        ∷ ("ARGUMENTS", arguments)
        ∷ ("SPARK_EXTRA_CONF", conf)
        ∷ ("KAFKA_BROKERS", or_text s.runtime_kafka_brokers s.kafka_brokers)
        ∷ ("CALLBACK_URL", callback_url s job_id)
        ∷ ("INTERNAL_API_TOKEN", s.internal_api_token)
        ∷ [];
    tags = ("job-id", job_id) ∷ ("retry", py.int_to_str retry_count) ∷ ("app", "dhp-spark") ∷ [];
    started_by = started_by job_id;
  })

-- What `create_spark_job` makes of the answer.
abbrev pub launch_of : Answer → Launch
launch_of (raises e) = refused (client_error e)
launch_of (returns (f ∷ fs) arns) = refused (run_task_failures (f ∷ fs))
launch_of (returns [] []) = refused no_tasks
launch_of (returns [] (arn ∷ arns)) = launched arn

-- `create_spark_job`: the request that reaches ECS, if one does, and the outcome.
unfoldable pub create_spark_job : Settings → Python → Dict Json → Answer → Option RunTask × Launch
create_spark_job s py event answer = elim (run_task_request s py event) [
  | none ↦ (none, refused bad_event)
  | some request ↦ (some request, launch_of answer)
]

-- The pages of `list_tasks` for a `startedBy` and a desired status; `none` where it raises.
abbrev pub Listing : Type 0
Listing = String → String → Option (List (List String))

abbrev pub extend : List (List String) → List String
extend [] = []
extend (page ∷ pages) = page ++ extend pages

-- `_list_running_tasks_for_job`
abbrev pub list_running_tasks : Listing → String → Option (List String)
list_running_tasks ecs job_id = elim (ecs (started_by job_id) "RUNNING") [
  | none ↦ none
  | some pages ↦ some (extend pages)
]

-- `_list_tasks_for_job`
unfoldable pub list_tasks : Listing → String → Option (List String)
list_tasks ecs job_id = do
  running ← ecs (started_by job_id) "RUNNING"
  stopped ← ecs (started_by job_id) "STOPPED"
  some (extend running ++ extend stopped)

-- What `stop_task` does for an ARN: it returns, raises a ClientError, or raises anything else.
pub data StopAnswer : Type 0 where
  stops stop_refused stop_breaks : StopAnswer

-- What `delete_spark_job` does: it raises or returns its answer, having stopped the tasks of a list.
pub data Deletion : Type 0 where
  failed : List String → Deletion
  stopped : List String → Bool → Deletion

-- `for arn in arns`: the tasks that are stopped, and whether the loop comes to its end. A ClientError is
-- passed over, any other error leaves the loop.
unfoldable pub stop_all : (String → StopAnswer) → List String → List String × Bool
stop_all stop [] = ([], true)
stop_all stop (arn ∷ arns) =
    let rest = stop_all stop arns in
    elim (stop arn) [
      | stops ↦ (arn ∷ rest.0, rest.1)
      | stop_refused ↦ rest
      | stop_breaks ↦ ([], false)
    ]

abbrev pub ended : List String × Bool → Deletion
ended (arns, true) = stopped arns true
ended (arns, false) = failed arns

unfoldable pub delete_spark_job : Listing → (String → StopAnswer) → String → Deletion
unfolding stop_all
delete_spark_job ecs stop job_id = elim (list_running_tasks ecs job_id) [
  | none ↦ failed []
  | some arns ↦ elim arns [ [] ↦ stopped [] false | a ∷ rest ↦ ended (stop_all stop (a ∷ rest)) ]
]

-- A task as `describe_tasks` returns it, with the fields that the status shows.
pub record Task : Type 0 where
  pub task_arn : String
  pub created_at : Option ℕ
  pub last_status : Option String
  pub desired_status : Option String
  pub started_at : Option ℕ
  pub stopped_at : Option ℕ
  pub stop_code : Option String
  pub stopped_reason : Option String
  pub containers : List (Option String × Option ℕ)

abbrev pub created_key : Task → ℕ
created_key t = elim t.created_at [ none ↦ 0 | some n ↦ n ]

-- `tasks.sort(key=…, reverse=True)`: descending, and stable.
unfoldable pub insert_desc : Task → List Task → List Task
insert_desc t [] = t ∷ []
insert_desc t (u ∷ us) =
    if ltb (created_key t) (created_key u) then u ∷ insert_desc t us else t ∷ u ∷ us

unfoldable pub sort_desc : List Task → List Task
sort_desc [] = []
sort_desc (t ∷ ts) = insert_desc t (sort_desc ts)

-- `_exit_code`: the exit code of the first container with the name.
unfoldable pub exit_code : String → List (Option String × Option ℕ) → Option ℕ
exit_code name [] = none
exit_code name ((none, code) ∷ cs) = exit_code name cs
exit_code name ((some n, code) ∷ cs) = if str_eq n name then code else exit_code name cs

pub record TaskStatus : Type 0 where
  pub task : Task
  pub exit_code : Option ℕ

abbrev pub latest_of : Settings → List Task → Option TaskStatus
latest_of s [] = none
latest_of s (t ∷ ts) =
    some (record { task = t; exit_code = exit_code s.spark_container_name t.containers })

abbrev status_of : Settings → (List String → List Task) → List String → Option TaskStatus
status_of s described [] = none
status_of s described (a ∷ arns) = latest_of s (sort_desc (described (a ∷ arns)))

-- `get_job_status`: the outer `none` is a listing that raises; `described` is what `describe_tasks`
-- returns for the ARNs. The fields that the answer copies are those of its task.
unfoldable pub get_job_status :
    Settings → Listing → (List String → List Task) → String → Option (Option TaskStatus)
get_job_status s ecs described job_id = elim (list_tasks ecs job_id) [
  | none ↦ none
  | some arns ↦ some (status_of s described arns)
]
