-- ===== src/Orchestrator/Bounds.antt =====
-- Bounds that hold for every event and whatever ECS answers.
use dhp.Prelude.{
  ℕ, suc, zero, ◌+◌, ◌*◌, ◌≤◌, String, Bool, false, Option, none, some, List, ◌++◌, ◌≡◌, refl,
  arith, count,
}
use dhp.Prelude.Int.{ℤ, pos_part}
use dhp.Prelude.Dict.{Dict}
use dhp.Json.{Json}
use dhp.Orchestrator.{Settings, Python, int_field}
use dhp.Orchestrator.Ecs.{Answer, Launch, launched, refused, LaunchError, RunTask, create_spark_job}
use dhp.Orchestrator.Consumer.{Action, count_launch, backoff, attempts, process_message}
use dhp.Orchestrator.Launches.{is_run, is_dlq, waiting}
use text.Mathlib.Text.{◌==◌ as str_eq}

abbrev pub is_success : Action → Bool
is_success (count_launch o) = str_eq o "success"
is_success _ = false

-- At most `n` calls of `run_task` and thirty seconds of waiting for each, and one ending.
pub record IsBounded (n : ℕ) (t : List Action) : Type 0 where
  pub runs : count is_run t ≤ n
  pub waits : waiting t ≤ 30 * n
  pub one_ending : count is_success t + count is_dlq t ≡ 1

module _ (s : Settings) (py : Python) (describe : Option LaunchError → String) (event : Dict Json)
    (answers : ℕ → Answer) where
  abbrev loop : ℤ → ℕ → ℕ → Option LaunchError → List Action
  loop = attempts s py describe event answers

  backoff_bounds :
      (attempt n : ℕ) (t : List Action)
      → (count is_run (backoff attempt n ++ t) ≡ count is_run t)
        × (waiting (backoff attempt n ++ t) ≤ 30 + waiting t)
        × (count is_success (backoff attempt n ++ t) ≡ count is_success t)
        × (count is_dlq (backoff attempt n ++ t) ≡ count is_dlq t)
  backoff_bounds attempt n t = ground arith

  attempts-IsBounded :
      (n : ℤ) (left attempt : ℕ) (last : Option LaunchError)
      → IsBounded left (loop n left attempt last)
  unfolding attempts
  attempts-IsBounded n zero attempt last = ground arith
  attempts-IsBounded n (suc left) attempt last =
      go (create_spark_job s py event (answers attempt)) refl
        (λ err. attempts-IsBounded n left (attempt + 1) (some err))
    where
      go :
          (x : Option RunTask × Launch)
          → create_spark_job s py event (answers attempt) ≡ x
          → ((err : LaunchError) → IsBounded left (loop n left (attempt + 1) (some err)))
          → IsBounded (suc left) (loop n (suc left) attempt last)
      go (none, launched arn) e rest = rw e (ground arith)
      go (some r, launched arn) e rest = rw e (ground arith)
      go (none, refused err) e rest =
          let more = rest err in
          let b = backoff_bounds attempt (pos_part n) (loop n left (attempt + 1) (some err)) in
          rw e (omega arith)
      go (some r, refused err) e rest =
          let more = rest err in
          let b = backoff_bounds attempt (pos_part n) (loop n left (attempt + 1) (some err)) in
          rw e (omega arith)

  -- Whatever the event, its budget `n` and the answers of ECS, processing the event returns, calls
  -- `run_task` at most `n` times, waits at most thirty seconds for each attempt, and ends in exactly
  -- one of a launch that succeeds and a dead letter. Only a budget that `int` refuses is excluded.
  pub process_message-IsBounded :
      (n : ℤ)
      → int_field py "max_retries" s.default_max_retries event ≡ some n
      → (t : List Action) × (process_message s py describe event answers ≡ some t)
        × IsBounded (pos_part n) t
  unfolding process_message
  process_message-IsBounded n budget = (
    loop n (pos_part n) 1 none,
    rw (budget, process_message),
    attempts-IsBounded n (pos_part n) 1 none,
  )
