-- ===== src/Pipeline/Requests.antt =====
-- The requests to ECS that services/orchestrator/app/consumer.py makes for one event of a row.
use dhp.Prelude.{
  ℕ, subst, ltb, zero, suc, ◌+◌, ◌≤◌, String, Bool, false, Option, none, some, List, [], ◌∷◌, ◌≡◌,
  refl, ap, ◌∙◌, arith, str_eq, if◌then◌else◌, count, All, All-append, Bool-cases, inl, inr,
}
use dhp.Prelude.Int.{ℤ, pos, pos_part}
use dhp.Prelude.Dict.{Dict, lookup}
use dhp.Json.{Json}
use dhp.Job.{Job}
use dhp.Orchestrator.{Settings, Python}
use dhp.Orchestrator.Ecs.{
  Answer, Launch, launched, refused, LaunchError, RunTask, run_task_request, launch_of,
}
use dhp.Orchestrator.Consumer.{
  Action, put_status, count_launch, count_retry, count_dlq, sleep, publish_dlq, run_task, backoff,
  attempts, process_message,
}
use dhp.Orchestrator.Launches.{is_run, tried, loop_refused, loop_launched, loop-exhausted}
use dhp.Orchestrator.Bounds.{process_message-IsBounded}
use dhp.Pipeline.Events.{IsRead, request_of}

-- The job that a request to ECS is for.
abbrev pub job_of : RunTask → Option String
job_of r = lookup "JOB_ID" r.environment

abbrev pub is_run_of : String → Action → Bool
is_run_of k (run_task r) = elim (job_of r) [ none ↦ false | some i ↦ str_eq i k ]
is_run_of k _ = false

-- The action launches nothing but `r`.
abbrev pub Only : RunTask → Action → Type 0
Only r (run_task q) = q ≡ r
Only r _ = Unit

module _ (s : Settings) (py : Python) (describe : Option LaunchError → String) (event : Dict Json)
    (answers : ℕ → Answer) {request : RunTask}
    (builds : run_task_request s py event ≡ some request) where
  backoff-Only : (attempt n : ℕ) → All (Only request) (backoff attempt n)
  backoff-Only attempt n = elim (Bool-cases (ltb attempt n)) [
    | inl e ↦ rw e (tt, (tt, tt))
    | inr e ↦ rw e tt
  ]

  attempts-Only :
      (n : ℤ) (left attempt : ℕ) (last : Option LaunchError)
      → All (Only request) (attempts s py describe event answers n left attempt last)
  attempts-Only n zero attempt last =
      rw (loop-exhausted s py describe event answers builds n attempt last)
        (tt, (tt, (tt, (tt, tt))))
  attempts-Only n (suc left) attempt last =
      go (launch_of (answers attempt)) refl (λ err. attempts-Only n left (attempt + 1) (some err))
    where
      go :
          (l : Launch)
          → launch_of (answers attempt) ≡ l
          → ((err : LaunchError)
              → All
                  (Only request)
                  (attempts s py describe event answers n left (attempt + 1) (some err)))
          → All (Only request) (attempts s py describe event answers n (suc left) attempt last)
      go (launched arn) e more =
          rw (loop_launched s py describe event answers builds n left attempt last arn e)
            (tt, (refl, (tt, (tt, tt))))
      go (refused err) e more =
          let rest = attempts s py describe event answers n left (attempt + 1) (some err) in
          rw (loop_refused s py describe event answers builds n left attempt last err e) (
            All-append (Only request) (tried s py describe event answers builds n attempt) rest
              (tt, (refl, (tt, backoff-Only attempt (pos_part n)))) (more err))

-- An event of a row launches nothing but the row's request, within the row's budget.
pub process_message-Only :
    (s : Settings) (py : Python) (describe : Option LaunchError → String) (event : Dict Json)
    (answers : ℕ → Answer) (j : Job) (n : ℕ)
    → IsRead s py j n event
    → (t : List Action) × (process_message s py describe event answers ≡ some t)
      × All (Only (request_of s py j n)) t
      × (count is_run t ≤ j.max_retries)
unfolding process_message
process_message-Only s py describe event answers j n read =
    let (t, done, bounded) =
      process_message-IsBounded s py describe event answers (pos j.max_retries) read.budget in
    let own : process_message s py describe event answers
        ≡ some (attempts s py describe event answers (pos j.max_retries) j.max_retries 1 none) =
      rw (read.budget, process_message) refl in
    let same : attempts s py describe event answers (pos j.max_retries) j.max_retries 1 none ≡ t =
      cc in
    (
      t,
      done,
      subst (All (Only (request_of s py j n))) same (
          attempts-Only s py describe event answers read.request (pos j.max_retries) j.max_retries 1
            none),
      bounded.runs,
    )

-- Launches counted for one job.
pub runs_of :
    (k i : String) (r : RunTask) (t : List Action)
    → job_of r ≡ some i
    → All (Only r) t
    → count (is_run_of k) t ≤ (if str_eq i k then count is_run t else 0)
runs_of k i r [] named a = ground arith
runs_of k i r (run_task q ∷ t) named a =
    let more = runs_of k i r t named a.1 in
    let same : job_of q ≡ some i = ap job_of a.0 ∙ named in ground arith
runs_of k i r (put_status j p ∷ t) named a = ground (arith, runs_of k i r t named a.1)
runs_of k i r (count_launch o ∷ t) named a = ground (arith, runs_of k i r t named a.1)
runs_of k i r (count_retry ∷ t) named a = ground (arith, runs_of k i r t named a.1)
runs_of k i r (count_dlq ∷ t) named a = ground (arith, runs_of k i r t named a.1)
runs_of k i r (sleep n ∷ t) named a = ground (arith, runs_of k i r t named a.1)
runs_of k i r (publish_dlq d ∷ t) named a = ground (arith, runs_of k i r t named a.1)
