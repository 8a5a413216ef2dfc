-- ===== src/Orchestrator/Tasks.antt =====
-- Which tasks `ECSJobManager` stops, and which one it reports.
use dhp.Prelude.{
  ◌≤◌, String, Bool, true, false, keep, ap, some, List, [], ◌∷◌, ◌≡◌, refl, arith, All, take_chars,
}
use dhp.Orchestrator.{Settings}
use dhp.Orchestrator.Ecs.{
  Listing, extend, started_by, StopAnswer, stops, stop_breaks, stop_all, ended, stopped,
  delete_spark_job, Task, created_key, TaskStatus, exit_code,
}

abbrev pub is_stopped : StopAnswer → Bool
is_stopped stops = true
is_stopped _ = false

abbrev pub is_handled : StopAnswer → Bool
is_handled stop_breaks = false
is_handled _ = true

stop_all-keep :
    (stop : String → StopAnswer) (arns : List String)
    → All (λ a. is_handled (stop a) ≡ true) arns
    → stop_all stop arns ≡ (keep (λ a. is_stopped (stop a)) arns, true)
unfolding stop_all
stop_all-keep stop [] h = refl
stop_all-keep stop (arn ∷ arns) h = ground (arith, h.0, stop_all-keep stop arns h.1)

-- Tasks are found by the first eight characters of the job's id alone: if ECS lists running tasks
-- that were started for job `other`, the two ids agree in those characters, and `stop_task` raises at most
-- ClientErrors, then cancelling `job_id` stops every one of these tasks for which `stop_task` returns,
-- leaves the others running, and reports success in any case, also where none is stopped.
pub delete_spark_job_prefix :
    (ecs : Listing) (stop : String → StopAnswer) (job_id other : String)
    (pages : List (List String)) (arn : String) (arns : List String)
    → take_chars 8 job_id ≡ take_chars 8 other
    → ecs (started_by other) "RUNNING" ≡ some pages
    → extend pages ≡ arn ∷ arns
    → All (λ a. is_handled (stop a) ≡ true) (arn ∷ arns)
    → delete_spark_job ecs stop job_id ≡ stopped (keep (λ a. is_stopped (stop a)) (arn ∷ arns)) true
unfolding delete_spark_job
delete_spark_job_prefix ecs stop job_id other pages arn arns same listed running handled =
    let all = stop_all-keep stop (arn ∷ arns) handled in
    rw (same, listed, running, delete_spark_job) (ap ended all)

abbrev NotNewer : Task → Task → Type 0
NotNewer t u = created_key u ≤ created_key t

-- The head of a list sorted so far is not older than the rest.
abbrev HeadNewest : List Task → Type 0
HeadNewest [] = Unit
HeadNewest (t ∷ ts) = All (NotNewer t) ts

-- What `get_job_status` promises of the tasks that are described.
abbrev pub IsNewest : Settings → TaskStatus → List Task → Type 0
IsNewest s status tasks =
    All (NotNewer status.task) tasks
    × (status.exit_code ≡ exit_code s.spark_container_name status.task.containers)
